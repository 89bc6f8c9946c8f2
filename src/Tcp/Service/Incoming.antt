-- ===== src/Tcp/Service/Incoming.antt =====
-- What comes in for the service, `incoming` of src/progs/common/tcp/tcp.c.
use muxomucota.Base.{
  ℕ, ◌+◌, ◌-◌, ◌%◌, ◌^◌, Bool, true, false, not, ◌&&◌, ◌||◌, List, [], ◌∷◌, length, ◌==◌,
  if◌then◌else◌,
}
use muxomucota.Base.Outcome.{Outcome, ok, ◌>>=◌}
use muxomucota.Tcp.{
  tcp_fin, tcp_syn, tcp_rst, tcp_ack, has_flag, TcpHeader, parse_segment, pseudo_header,
  tcp_checksum, TcpStatus, closed, listen, syn_rcvd, syn_sent, open_, fin_rcvd, fin_sent, Segment,
  header_size, Connection,
}
use muxomucota.Tcp.Queues.{tcp_acked, flush_all_queues, enqueue, seq_size, handle_inqueue}

-- A connection in this state takes over the sequence number of TCP_SYN.
abbrev pub awaits : TcpStatus → Bool
awaits listen = true
awaits syn_sent = true
awaits closed = false
awaits syn_rcvd = false
awaits open_ = false
awaits fin_rcvd = false
awaits fin_sent = false

-- What `incoming` makes of a segment for one connection.
unfoldable pub receive_segment : ℕ → TcpHeader → List ℕ → Connection → Outcome Connection
receive_segment now h rest c =
    let data_sz = (20 + length rest + 2 ^ 32 - header_size h) % 2 ^ 32 in
    let first = has_flag tcp_syn h.flags && awaits c.status in
    let synchronised : Connection = record c {
      window = h.window;
      ack = if first then h.seq else c.ack;
    } in
    let answered : Connection =
      if has_flag tcp_ack h.flags then tcp_acked h.ack synchronised else synchronised in
    let p : Segment = record {
      last_time_sent = 0;
      seq_end = (h.seq + seq_size h.flags data_sz) % 2 ^ 32;
      read_offset = 0;
      header = h;
      rest = rest;
    } in
    if not (h.dest_port == c.port)
    then ok c
    else if has_flag tcp_rst h.flags
    then ok (record (flush_all_queues answered) { status = closed })
    else if data_sz == 0 && not (has_flag tcp_syn h.flags || has_flag tcp_fin h.flags)
    then ok answered
    else handle_inqueue now (record answered { inqueue = enqueue p answered.inqueue })

-- The loop of `incoming` over the connections.
unfoldable pub receive_all : ℕ → TcpHeader → List ℕ → List Connection → Outcome (List Connection)
unfolding receive_segment
receive_all now h rest [] = ok []
receive_all now h rest (c ∷ cs) = do
  c' ← receive_segment now h rest c
  cs' ← receive_all now h rest cs
  ok (c' ∷ cs')

-- `incoming`, for one segment between two addresses; the signals to owners are left out.
unfoldable pub tcp_incoming : ℕ → ℕ → ℕ → List ℕ → List Connection → Outcome (List Connection)
unfolding receive_all
tcp_incoming now src_ip dest_ip bytes cs =
    let received = parse_segment bytes >>= λ s. receive_all now s.0 s.1 cs in
    if tcp_checksum (pseudo_header src_ip dest_ip (length bytes % 2 ^ 16)) bytes == 0
    then received
    else ok cs

-- A datagram from the internet protocol's service, with its flags F_IP_PROTO_TYPE, F_SRC_IP and
-- F_DEST_IP.
pub record Datagram : Type 0 where
  pub proto_type : ℕ
  pub src_ip : ℕ
  pub dest_ip : ℕ
  pub content : List ℕ

-- The loop of `incoming`, for the datagrams that there are.
unfoldable pub tcp_incoming_all : ℕ → List Datagram → List Connection → Outcome (List Connection)
unfolding tcp_incoming
tcp_incoming_all now [] cs = ok cs
tcp_incoming_all now (d ∷ ds) cs = do
  cs' ← if d.proto_type == 6 then tcp_incoming now d.src_ip d.dest_ip d.content cs else ok cs
  tcp_incoming_all now ds cs'
