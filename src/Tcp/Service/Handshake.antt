-- ===== src/Tcp/Service/Handshake.antt =====
-- The first segments of a connection.
use muxomucota.Base.{
  ℕ, ◌+◌, ◌-◌, ◌%◌, ◌^◌, ◌<◌, ◌≡◌, true, false, [], ◌∷◌, map, arith, refl, ◌==◌, if◌then◌else◌, ◌∙◌,
  ap, Bool-cases, inl, inr,
}
use muxomucota.Base.Outcome.{ok}
use muxomucota.Tcp.{
  tcp_syn, tcp_rst, tcp_ack, has_flag, TcpHeader, listen, syn_rcvd, syn_sent, open_, Segment,
  header_size, Connection,
}
use muxomucota.Tcp.Queues.{
  drop_acked, handle_outqueue, enqueue, make_segment, send_tcp_packet, is_next, handle_inqueue,
}
use muxomucota.Tcp.Queues.Scan.{handle_inqueue-connect, handle_inqueue-listen}
use muxomucota.Tcp.Service.{tcp_connect}
use muxomucota.Tcp.Service.Incoming.{awaits, receive_segment}

-- The segment that comes out of a header alone, with TCP_SYN.
abbrev syn_of : TcpHeader → Segment
syn_of h = record {
  last_time_sent = 0;
  seq_end = (h.seq + 1) % 2 ^ 32;
  read_offset = 0;
  header = h;
  rest = [];
}

-- A connection that awaits TCP_SYN, with the segment in its queue.
abbrev synchronising : TcpHeader → Connection → Connection
synchronising h c = record c {
  window = h.window;
  ack = h.seq;
  outqueue = if has_flag tcp_ack h.flags then drop_acked h.ack c.outqueue else c.outqueue;
  inqueue = syn_of h ∷ [];
}

module _ (now : ℕ) (h : TcpHeader) (c : Connection) (idle : c.inqueue ≡ [])
    (syn : has_flag tcp_syn h.flags ≡ true) (no_rst : has_flag tcp_rst h.flags ≡ false)
    (hdr : h.hdrlen ≡ 0x50) (seq : h.seq < 2 ^ 32) (port : h.dest_port ≡ c.port) where
  receive_segment-synchronising :
      awaits c.status ≡ true → receive_segment now h [] c ≡ handle_inqueue now (synchronising h c)
  unfolding receive_segment enqueue
  receive_segment-synchronising waits =
      let size : (20 + 2 ^ 32 - header_size h) % 2 ^ 32 ≡ 0 = omega arith in
      let same_port : (h.dest_port == c.port) ≡ true = ground arith in
      elim (Bool-cases (has_flag tcp_ack h.flags)) [
        | inl y ↦ rw (size, same_port, y, syn, no_rst, idle, waits) refl
        | inr n ↦ rw (size, same_port, n, syn, no_rst, idle, waits) refl
      ]

  is_next-synchronising : is_next (syn_of h) (synchronising h c) ≡ true
  is_next-synchronising = ground arith

  -- A connection that listens gets TCP_SYN.
  pub receive_segment-listen :
      c.status ≡ listen
      → (c' : Connection) × (receive_segment now h [] c ≡ ok c')
        × (c'.inqueue ≡ [])
        × (c'.status ≡ syn_rcvd)
  receive_segment-listen listens =
      let queue =
        handle_inqueue-listen now (syn_of h) (synchronising h c) refl is_next-synchronising no_rst
          syn listens (omega arith) in
      let start = receive_segment-synchronising (ap awaits listens) in
      (queue.0, start ∙ queue.1, queue.2, queue.3)

  -- A connection that sent TCP_SYN gets one.
  pub receive_segment-connect :
      c.status ≡ syn_sent
      → receive_segment now h [] c
        ≡ ok (
            send_tcp_packet now tcp_ack [] (record (synchronising h c) {
              ack = (h.seq + 1) % 2 ^ 32;
              inqueue = [];
              status = open_;
            }))
  receive_segment-connect waits =
      let queue =
        handle_inqueue-connect now (syn_of h) (synchronising h c) refl is_next-synchronising no_rst
          syn waits (omega arith) in
      receive_segment-synchronising (ap awaits waits) ∙ queue

-- `tcp_connect` starts a connection, and a header of 20 bytes comes in for it with TCP_SYN, without
-- TCP_RST, that acknowledges its own TCP_SYN. The connection is open, behind the other side's TCP_SYN
-- and its own, with an empty queue and nothing but its acknowledgement under way.
pub tcp_connect-receive_segment :
    (now my_ip : ℕ) (h : TcpHeader) (c : Connection)
    → has_flag tcp_syn h.flags ≡ true
    → has_flag tcp_ack h.flags ≡ true
    → has_flag tcp_rst h.flags ≡ false
    → h.hdrlen ≡ 0x50
    → h.seq < 2 ^ 32
    → h.ack ≡ 1
    → h.dest_port ≡ c.port
    → (c' : Connection) × (receive_segment now h [] (tcp_connect now my_ip c) ≡ ok c')
      × (c'.status ≡ open_)
      × (c'.seq ≡ 1)
      × (c'.ack ≡ (h.seq + 1) % 2 ^ 32)
      × (c'.inqueue ≡ [])
      × (map (λ p. p.header.flags) c'.outqueue ≡ tcp_ack ∷ [])
unfolding tcp_connect send_tcp_packet enqueue make_segment handle_outqueue drop_acked
tcp_connect-receive_segment now my_ip h c syn ack no_rst hdr seq acked port =
    let start = tcp_connect now my_ip c in
    let opened = receive_segment-connect now h start refl syn no_rst hdr seq port refl in
    (_, opened, refl, refl, refl, refl, rw (ack, acked) refl)
