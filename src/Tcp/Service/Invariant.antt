-- ===== src/Tcp/Service/Invariant.antt =====
-- What `incoming` keeps of a connection: a predicate of the segments in its queue, and one of its state.
use muxomucota.Base.{
  ℕ, ◌%◌, ◌^◌, ◌≤◌, ◌≡◌, Bool, true, false, not, List, [], ◌∷◌, length, get_or, All, arith, refl,
  ◌==◌, if◌then◌else◌, ◌∙◌, ap, Bool-cases, inl, inr,
}
use muxomucota.Base.Outcome.{Outcome, ok, panic, fault, out_of_fuel}
use muxomucota.Tcp.{
  tcp_rst, tcp_ack, has_flag, TcpHeader, parse_segment, pseudo_header, tcp_checksum, TcpStatus,
  closed, Segment, Connection,
}
use muxomucota.Tcp.Queues.{reaction, handle_inqueue, enqueue, flush_all_queues}
use muxomucota.Tcp.Queues.Invariant.{Kept, handle_inqueue_keeps, enqueue_keeps}
use muxomucota.Tcp.Service.Incoming.{
  receive_segment, receive_all, tcp_incoming, Datagram, tcp_incoming_all,
}

-- The byte with the flags.
abbrev pub flag_byte : List ℕ → ℕ
flag_byte bytes = get_or bytes 13 0

parse_segment_long :
    (bytes : List ℕ)
    → 20 ≤ length bytes
    → (h : TcpHeader) × (rest : List ℕ) × (parse_segment bytes ≡ ok (h, rest))
      × (h.flags ≡ flag_byte bytes)
unfolding parse_segment
parse_segment_long
      (a ∷ b ∷ c ∷ d ∷ e ∷ f ∷ g ∷ h ∷ i ∷ j ∷ k ∷ l ∷ m ∷ n ∷ o ∷ p ∷ q ∷ r ∷ s ∷ t ∷ rest) long =
    (_, rest, refl, refl)
parse_segment_long short long = absurd (omega arith)

-- A datagram has a header, and what is made of it is allowed in a queue.
abbrev pub Right : (Segment → Type 0) → List ℕ → Type 0
Right Q bytes =
    (20 ≤ length bytes)
    × ((p : Segment)
        → p.header.flags ≡ flag_byte bytes
        → has_flag tcp_rst (flag_byte bytes) ≡ false
        → Q p)

-- Some connections.
abbrev pub AllKept : (Segment → Type 0) → (TcpStatus → Type 0) → List Connection → Type 0
AllKept Q P cs = All (λ c. All Q c.inqueue × P c.status) cs

module _ (Q : Segment → Type 0) (P : TcpStatus → Type 0)
    (no_rst : (p : Segment) → Q p → has_flag tcp_rst p.header.flags ≡ false)
    (kept : (now : ℕ) (p : Segment) (fin : Bool) (c : Connection)
      → Q p
      → P c.status
      → P (reaction now p.header.flags fin c).1.status)
    (reset : P closed) where
  Kept-if :
      (b : Bool) (x y : Outcome Connection)
      → Kept Q P x
      → Kept Q P y
      → Kept Q P (if b then x else y)
  Kept-if true x y h k = h
  Kept-if false x y h k = k

  Kept-ok :
      (o : Outcome Connection)
      → Kept Q P o
      → (c : Connection) × (o ≡ ok c) × All Q c.inqueue × P c.status
  Kept-ok (ok c) k = (c, refl, k.0, k.1)
  Kept-ok panic k = absurd k
  Kept-ok fault k = absurd k
  Kept-ok out_of_fuel k = absurd k

  received_keeps :
      (now : ℕ) (reset_ empty : Bool) (p : Segment) (c : Connection)
      → (reset_ ≡ false → Q p)
      → All Q c.inqueue
      → P c.status
      → Kept Q P (
          if reset_
          then ok (record (flush_all_queues c) { status = closed })
          else if empty
          then ok c
          else handle_inqueue now (record c { inqueue = enqueue p c.inqueue }))
  received_keeps now true empty p c new q s = (tt, reset)
  received_keeps now false empty p c new q s =
      let queue = enqueue_keeps Q P no_rst kept p c.inqueue (new refl) q in
      Kept-if empty _ _ (q, s)
        (handle_inqueue_keeps Q P no_rst kept now (record c { inqueue = enqueue p c.inqueue }) queue
          s)

  receive_segment_keeps :
      (now : ℕ) (h : TcpHeader) (rest : List ℕ) (c : Connection)
      → ((p : Segment) → p.header ≡ h → has_flag tcp_rst h.flags ≡ false → Q p)
      → All Q c.inqueue
      → P c.status
      → Kept Q P (receive_segment now h rest c)
  unfolding receive_segment
  receive_segment_keeps now h rest c new q s =
      Kept-if (not (h.dest_port == c.port)) _ _ (q, s)
        (elim (Bool-cases (has_flag tcp_ack h.flags)) [
          | inl y ↦ rw y (received_keeps now _ _ _ _ (new _ refl) q s)
          | inr n ↦ rw n (received_keeps now _ _ _ _ (new _ refl) q s)
        ])

  receive_all_keeps :
      (now : ℕ) (h : TcpHeader) (rest : List ℕ) (cs : List Connection)
      → ((p : Segment) → p.header ≡ h → has_flag tcp_rst h.flags ≡ false → Q p)
      → AllKept Q P cs
      → (cs' : List Connection) × (receive_all now h rest cs ≡ ok cs') × AllKept Q P cs'
  unfolding receive_all
  receive_all_keeps now h rest [] new k = ([], refl, tt)
  receive_all_keeps now h rest (c ∷ cs) new k =
      let (c', e, qc, sc) =
        Kept-ok (receive_segment now h rest c)
          (receive_segment_keeps now h rest c new k.0.0 k.0.1) in
      let (cs', es, ks) = receive_all_keeps now h rest cs new k.1 in
      (c' ∷ cs', rw (e, es) refl, ((qc, sc), ks))

  tcp_incoming_keeps :
      (now src_ip dest_ip : ℕ) (bytes : List ℕ) (cs : List Connection)
      → Right Q bytes
      → AllKept Q P cs
      → (cs' : List Connection) × (tcp_incoming now src_ip dest_ip bytes cs ≡ ok cs')
        × AllKept Q P cs'
  unfolding tcp_incoming
  tcp_incoming_keeps now src_ip dest_ip bytes cs right k =
      let (h, rest, parsed, flags) = parse_segment_long bytes right.0 in
      let new : (p : Segment) → p.header ≡ h → has_flag tcp_rst h.flags ≡ false → Q p =
        λ p e n. right.1 p (ap (λ x. x.flags) e ∙ flags) (rw⁻¹ flags n) in
      let (cs', e, k') = receive_all_keeps now h rest cs new k in
      elim (Bool-cases
        (tcp_checksum (pseudo_header src_ip dest_ip (length bytes % 2 ^ 16)) bytes == 0)) [
          | inl y ↦ (cs', rw (y, parsed) e, k')
          | inr n ↦ (cs, rw n refl, k)
        ]

  pub tcp_incoming_all_keeps :
      (now : ℕ) (ds : List Datagram) (cs : List Connection)
      → All (λ d. Right Q d.content) ds
      → AllKept Q P cs
      → (cs' : List Connection) × (tcp_incoming_all now ds cs ≡ ok cs') × AllKept Q P cs'
  unfolding tcp_incoming_all
  tcp_incoming_all_keeps now [] cs right k = (cs, refl, k)
  tcp_incoming_all_keeps now (d ∷ ds) cs right k =
      let (cs', e, k') = tcp_incoming_keeps now d.src_ip d.dest_ip d.content cs right.0 k in
      let taken = tcp_incoming_all_keeps now ds cs' right.1 k' in
      let dropped = tcp_incoming_all_keeps now ds cs right.1 k in
      elim (Bool-cases (d.proto_type == 6)) [
        | inl y ↦ (taken.0, rw (y, e) taken.1, taken.2)
        | inr n ↦ (dropped.0, rw n dropped.1, dropped.2)
      ]
