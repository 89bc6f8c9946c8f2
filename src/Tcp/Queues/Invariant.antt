-- ===== src/Tcp/Queues/Invariant.antt =====
-- What `handle_inqueue` keeps: a predicate of the segments in the queue, none of which has TCP_RST, and
-- one of the state.
use muxomucota.Base.{
  ℕ, ◌≡◌, Bool, true, false, ◌||◌, List, [], ◌∷◌, All, refl, ◌==◌, leb, if◌then◌else◌, Bool-cases,
  inl, inr,
}
use muxomucota.Base.Outcome.{Outcome, ok, panic, fault, out_of_fuel, ◌>>=◌}
use muxomucota.Tcp.{
  tcp_rst, tcp_ack, has_flag, TcpStatus, Segment, size_of, header_size, not_before, Connection,
}
use muxomucota.Tcp.Queues.Send.{send_tcp_packet_keeps}
use muxomucota.Tcp.Queues.{
  send_tcp_packet, reaction, react, is_next, scan_inqueue, acknowledges, handle_inqueue, enqueue,
}

react-reaction :
    (now flags : ℕ) (fin : Bool) (c : Connection)
    → has_flag tcp_rst flags ≡ false
    → react now flags fin c ≡ ok (reaction now flags fin c)
unfolding react
react-reaction now flags fin c h = rw h refl

-- What is kept of a connection.
abbrev pub Kept : (Segment → Type 0) → (TcpStatus → Type 0) → Outcome Connection → Type 0
Kept Q P (ok c) = All Q c.inqueue × P c.status
Kept Q P panic = ⊥
Kept Q P fault = ⊥
Kept Q P out_of_fuel = ⊥

module _ (Q : Segment → Type 0) (P : TcpStatus → Type 0)
    (no_rst : (p : Segment) → Q p → has_flag tcp_rst p.header.flags ≡ false)
    (kept : (now : ℕ) (p : Segment) (fin : Bool) (c : Connection)
      → Q p
      → P c.status
      → P (reaction now p.header.flags fin c).1.status) where
  abbrev Scanned : Outcome (List Segment × Bool × Connection) → Type 0
  Scanned (ok r) = All Q r.0 × P r.2.status
  Scanned panic = ⊥
  Scanned fault = ⊥
  Scanned out_of_fuel = ⊥

  Scanned-behind :
      (o : Outcome (List Segment × Bool × Connection)) (p : Segment)
      → Q p
      → Scanned o
      → Scanned (o >>= λ s. ok (p ∷ s.0, s.1, s.2))
  Scanned-behind (ok r) p q h = ((q, h.0), h.1)
  Scanned-behind panic p q h = h
  Scanned-behind fault p q h = h
  Scanned-behind out_of_fuel p q h = h

  Scanned-if :
      (b : Bool) (x y : Outcome (List Segment × Bool × Connection))
      → Scanned x
      → Scanned y
      → Scanned (if b then x else y) × Scanned (elim b [ true ↦ x | false ↦ y ])
  Scanned-if true x y h k = (h, h)
  Scanned-if false x y h k = (k, k)

  All-if : (b : Bool) (p : Segment) → Q p → All Q (if b then [] else p ∷ [])
  All-if true p q = tt
  All-if false p q = (q, tt)

  scan_inqueue_keeps :
      (now : ℕ) (ps : List Segment) (fin : Bool) (c : Connection)
      → All Q ps
      → P c.status
      → Scanned (scan_inqueue now ps fin c)
  unfolding scan_inqueue
  scan_inqueue_keeps now [] fin c h s = (h, s)
  scan_inqueue_keeps now (p ∷ []) fin c h s =
      let d : Connection = record c { ack = p.seq_end } in
      let r = reaction now p.header.flags fin d in
      let e = react-reaction now p.header.flags fin d (no_rst p h.0) in
      let k = kept now p fin d h.0 s in
      let left = All-if (size_of p == header_size p.header) p h.0 in
      rw e (Scanned-if (is_next p c) _ _ (left, k) (h, s)).0
  scan_inqueue_keeps now (p ∷ n ∷ ps) fin c h s =
      let d : Connection = record c { ack = p.seq_end } in
      let r = reaction now p.header.flags fin d in
      let e = react-reaction now p.header.flags fin d (no_rst p h.0) in
      let k = kept now p fin d h.0 s in
      let taken =
        Scanned-behind (scan_inqueue now ps r.0 r.1) n h.1.0
          (scan_inqueue_keeps now ps r.0 r.1 h.1.1 k) in
      let stays =
        Scanned-behind (scan_inqueue now (n ∷ ps) r.0 r.1) p h.0
          (scan_inqueue_keeps now (n ∷ ps) r.0 r.1 h.1 k) in
      let behind =
        Scanned-behind (scan_inqueue now (n ∷ ps) fin c) p h.0
          (scan_inqueue_keeps now (n ∷ ps) fin c h.1 s) in
      rw e
        (Scanned-if (is_next p c) _ _
          (Scanned-if (size_of p == header_size p.header) _ _ taken stays).1
          (Scanned-if (not_before p.header.seq c.ack) _ _ (h, s) behind).0).0

  Kept-acknowledge :
      (b : Bool) (now : ℕ) (c : Connection)
      → Kept Q P (ok c)
      → Kept Q P (ok (if b then send_tcp_packet now tcp_ack [] c else c))
  Kept-acknowledge true now c k =
      let s = send_tcp_packet_keeps now tcp_ack [] c in (rw s.0 k.0, rw s.2 k.1)
  Kept-acknowledge false now c k = k

  Kept-Scanned :
      (now : ℕ) (o : Outcome (List Segment × Bool × Connection))
      → Scanned o
      → Kept Q P (
          o >>= λ s. ok (
            if acknowledges s.2.status || s.1
            then send_tcp_packet now tcp_ack [] (record s.2 { inqueue = s.0 })
            else record s.2 { inqueue = s.0 }))
  Kept-Scanned now (ok s) k =
      Kept-acknowledge (acknowledges s.2.status || s.1) now (record s.2 { inqueue = s.0 }) k
  Kept-Scanned now panic k = k
  Kept-Scanned now fault k = k
  Kept-Scanned now out_of_fuel k = k

  pub handle_inqueue_keeps :
      (now : ℕ) (c : Connection) → All Q c.inqueue → P c.status → Kept Q P (handle_inqueue now c)
  unfolding handle_inqueue
  handle_inqueue_keeps now c h s =
      Kept-Scanned now (scan_inqueue now c.inqueue false c)
        (scan_inqueue_keeps now c.inqueue false c h s)

  pub enqueue_keeps : (p : Segment) (q : List Segment) → Q p → All Q q → All Q (enqueue p q)
  unfolding enqueue
  enqueue_keeps p [] h k = (h, k)
  enqueue_keeps p (q ∷ qs) h k = elim (Bool-cases (leb q.header.seq p.header.seq)) [
    | inl y ↦ rw y (k.0, enqueue_keeps p qs h k.1)
    | inr n ↦ rw n (h, k)
  ]
