-- ===== src/Tcp/Service/Malformed.antt =====
-- A segment that is shorter than its header says.
use muxomucota.Base.{
  ℕ, ◌+◌, ◌-◌, ◌%◌, ◌^◌, ◌<◌, ◌≡◌, true, false, List, [], ◌∷◌, length, arith, refl, ◌==◌,
  if◌then◌else◌, ◌∙◌, Bool-cases, inl, inr,
}
use muxomucota.Base.Outcome.{ok, panic}
use muxomucota.Tcp.{
  tcp_syn, tcp_rst, tcp_ack, has_flag, TcpHeader, Segment, header_size, not_before, Connection,
}
use muxomucota.Tcp.Queues.{drop_acked, enqueue, is_next, handle_inqueue, tcp_receive}
use muxomucota.Tcp.Queues.Scan.{acknowledge, acknowledge_keeps, handle_inqueue-kept}
use muxomucota.Tcp.Queues.Reading.{tcp_receive_panics}
use muxomucota.Tcp.Service.Incoming.{receive_segment}

-- A segment comes in for a connection with nothing in its queue. It is shorter than the header length that it
-- gives, and the next one in order, without TCP_RST and TCP_SYN. The connection takes it into its
-- queue, and the next read of the connection, however much it asks for, fails an assertion.
pub receive_segment-tcp_receive :
    (now size : ℕ) (h : TcpHeader) (rest : List ℕ) (c : Connection)
    → has_flag tcp_rst h.flags ≡ false
    → has_flag tcp_syn h.flags ≡ false
    → h.hdrlen < 256
    → 20 + length rest < header_size h
    → h.seq ≡ c.ack
    → h.seq < 2 ^ 32
    → h.dest_port ≡ c.port
    → c.inqueue ≡ []
    → (c' : Connection) × (receive_segment now h rest c ≡ ok c') × (tcp_receive size c' ≡ panic)
unfolding receive_segment enqueue
receive_segment-tcp_receive now size h rest c no_rst no_syn hdr short seq wide port idle =
    let n = (20 + length rest + 2 ^ 32 - header_size h) % 2 ^ 32 in
    let some_size : (n == 0) ≡ false = ground arith in
    let p : Segment = record {
      last_time_sent = 0;
      seq_end = (h.seq + n) % 2 ^ 32;
      read_offset = 0;
      header = h;
      rest = rest;
    } in
    let same_port : (h.dest_port == c.port) ≡ true = ground arith in
    let out = if has_flag tcp_ack h.flags then drop_acked h.ack c.outqueue else c.outqueue in
    let d : Connection = record c { window = h.window; outqueue = out; inqueue = p ∷ [] } in
    let behind : not_before p.seq_end c.ack ≡ false = ground (arith, seq) in
    let later : is_next p d ≡ false = rw behind (ground arith) in
    let k = acknowledge_keeps now d in
    let start : receive_segment now h rest c ≡ handle_inqueue now d =
      elim (Bool-cases (has_flag tcp_ack h.flags)) [
        | inl y ↦ rw (some_size, same_port, y, no_syn, no_rst, idle) refl
        | inr m ↦ rw (some_size, same_port, m, no_syn, no_rst, idle) refl
      ] in
    (
      acknowledge now false d,
      start ∙ handle_inqueue-kept now p d refl later,
      tcp_receive_panics size p [] (acknowledge now false d) k.0 (inr (rw k.1 behind))
          (omega arith),
    )
