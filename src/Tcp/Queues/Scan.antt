-- ===== src/Tcp/Queues/Scan.antt =====
-- What `handle_inqueue` makes of the only segment in a queue.
use muxomucota.Base.{
  ℕ, ◌+◌, ◌≡◌, ◌≢◌, Bool, true, false, ◌||◌, [], ◌∷◌, arith, refl, ◌==◌, if◌then◌else◌, ap, ◌∙◌,
  Bool-cases, inl, inr,
}
use muxomucota.Base.Outcome.{ok}
use muxomucota.Tcp.{
  tcp_fin, tcp_syn, tcp_rst, tcp_ack, has_flag, listen, syn_rcvd, syn_sent, open_, Segment, size_of,
  header_size, Connection,
}
use muxomucota.Tcp.Queues.Send.{send_tcp_packet_keeps}
use muxomucota.Tcp.Queues.{
  synchronise, send_tcp_packet, react, is_next, scan_inqueue, acknowledges, handle_inqueue,
}

-- What a connection that acknowledges does at the end of `handle_inqueue`.
abbrev pub acknowledge : ℕ → Bool → Connection → Connection
acknowledge now fin c = if acknowledges c.status || fin then send_tcp_packet now tcp_ack [] c else c

-- Data that comes in order.
pub handle_inqueue-data :
    (now : ℕ) (p : Segment) (c : Connection)
    → c.inqueue ≡ p ∷ []
    → is_next p c ≡ true
    → has_flag tcp_rst p.header.flags ≡ false
    → has_flag tcp_syn p.header.flags ≡ false
    → has_flag tcp_fin p.header.flags ≡ false
    → size_of p ≢ header_size p.header
    → handle_inqueue now c
      ≡ ok (acknowledge now false (record c { ack = p.seq_end; inqueue = p ∷ [] }))
unfolding handle_inqueue scan_inqueue react
handle_inqueue-data now p c one next no_rst no_syn no_fin data_size =
    let some_bytes : (size_of p == header_size p.header) ≡ false = ground arith in
    rw (one, next, no_rst, no_syn, no_fin, some_bytes) refl

-- An answer to the first segment of a connection.
pub handle_inqueue-connect :
    (now : ℕ) (p : Segment) (c : Connection)
    → c.inqueue ≡ p ∷ []
    → is_next p c ≡ true
    → has_flag tcp_rst p.header.flags ≡ false
    → has_flag tcp_syn p.header.flags ≡ true
    → c.status ≡ syn_sent
    → size_of p ≡ header_size p.header
    → handle_inqueue now c
      ≡ ok (
          send_tcp_packet now tcp_ack []
            (record c { ack = p.seq_end; inqueue = []; status = open_ }))
unfolding handle_inqueue scan_inqueue react
handle_inqueue-connect now p c one next no_rst syn waits empty =
    let no_bytes : (size_of p == header_size p.header) ≡ true = ground arith in
    rw (one, next, no_rst, syn, waits, no_bytes) refl

-- The first segment of a connection to one that listens.
pub handle_inqueue-listen :
    (now : ℕ) (p : Segment) (c : Connection)
    → c.inqueue ≡ p ∷ []
    → is_next p c ≡ true
    → has_flag tcp_rst p.header.flags ≡ false
    → has_flag tcp_syn p.header.flags ≡ true
    → c.status ≡ listen
    → size_of p ≡ header_size p.header
    → (c' : Connection) × (handle_inqueue now c ≡ ok c')
      × (c'.inqueue ≡ [])
      × (c'.status ≡ syn_rcvd)
unfolding handle_inqueue scan_inqueue react
handle_inqueue-listen now p c one next no_rst syn waits empty =
    let no_bytes : (size_of p == header_size p.header) ≡ true = ground arith in
    let e : Connection = record c { ack = p.seq_end; inqueue = p ∷ [] } in
    let d : Connection = record e { status = syn_rcvd } in
    let sync : synchronise now c.status e ≡ send_tcp_packet now (tcp_syn + tcp_ack) [] d =
      ap (λ s. synchronise now s e) waits in
    let answered = send_tcp_packet now (tcp_syn + tcp_ack) [] d in
    let status = (send_tcp_packet_keeps now (tcp_syn + tcp_ack) [] d).2 in
    let k = send_tcp_packet_keeps now tcp_ack [] (record answered { inqueue = [] }) in
    (
      send_tcp_packet now tcp_ack [] (record answered { inqueue = [] }),
      rw (one, next, no_rst, syn, no_bytes, sync, status) refl,
      k.0,
      k.2 ∙ status,
    )

-- A segment that does not come next.
pub handle_inqueue-kept :
    (now : ℕ) (p : Segment) (c : Connection)
    → c.inqueue ≡ p ∷ []
    → is_next p c ≡ false
    → handle_inqueue now c ≡ ok (acknowledge now false (record c { inqueue = p ∷ [] }))
unfolding handle_inqueue scan_inqueue
handle_inqueue-kept now p c one next = rw (one, next) refl

pub acknowledge_keeps :
    (now : ℕ) (c : Connection)
    → ((acknowledge now false c).inqueue ≡ c.inqueue)
      × ((acknowledge now false c).ack ≡ c.ack)
      × ((acknowledge now false c).status ≡ c.status)
acknowledge_keeps now c =
    let k = send_tcp_packet_keeps now tcp_ack [] c in
    elim (Bool-cases (acknowledges c.status || false)) [
      | inl yes_ ↦ rw yes_ (k.0, k.1, k.2)
      | inr no_ ↦ rw no_ (refl, refl, refl)
    ]
