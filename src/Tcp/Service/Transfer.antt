-- ===== src/Tcp/Service/Transfer.antt =====
-- Data on its way from one connection to another.
use muxomucota.Base.{
  zero, suc, ℕ, ◌+◌, ◌-◌, ◌%◌, ◌^◌, ◌≤◌, ◌<◌, ◌≡◌, true, false, List, [], ◌∷◌, ◌++◌, length, All,
  arith, refl, ◌==◌, leb, ◌∙◌, sym, ap,
}
use muxomucota.Base.Outcome.{ok}
use muxomucota.Ip.{take}
use muxomucota.Tcp.{
  tcp_fin, tcp_syn, tcp_rst, tcp_ack, tcp_psh, mss, has_flag, TcpHeader, segment_bytes,
  parse_segment, Segment, header_size, Connection,
}
use muxomucota.Tcp.Queues.{
  drop_acked, enqueue, make_segment, send_tcp_packet, is_next, seq_size, tcp_receive,
}
use muxomucota.Tcp.Queues.Send.{
  ConnectionFits, make_segment_lem, send_tcp_packet-thrown, send_tcp_packet_keeps,
}
use muxomucota.Tcp.Queues.Scan.{acknowledge, acknowledge_keeps, handle_inqueue-data}
use muxomucota.Tcp.Queues.Receive.{IsData, receive_all_of}
use muxomucota.Tcp.Service.{can_send, drop, send_chunks, tcp_stream_send}
use muxomucota.Tcp.Service.Incoming.{receive_segment, receive_all, tcp_incoming}
use muxomucota.Tcp.Checksum.{SegmentFits}

parse_segment-segment_bytes :
    (h : TcpHeader) (r : List ℕ) → SegmentFits h → parse_segment (segment_bytes h r) ≡ ok (h, r)
unfolding parse_segment
parse_segment-segment_bytes h r f = ground arith

-- The segment that comes out of a header and data.
abbrev segment_of : TcpHeader → List ℕ → Segment
segment_of h rest = record {
  last_time_sent = 0;
  seq_end = (h.seq + length rest) % 2 ^ 32;
  read_offset = 0;
  header = h;
  rest = rest;
}

-- A connection receives data that comes in order.
receive_segment-data :
    (now : ℕ) (h : TcpHeader) (rest : List ℕ) (b : Connection)
    → SegmentFits h
    → h.hdrlen ≡ 0x50
    → has_flag tcp_rst h.flags ≡ false
    → has_flag tcp_syn h.flags ≡ false
    → has_flag tcp_fin h.flags ≡ false
    → has_flag tcp_ack h.flags ≡ true
    → 0 < length rest
    → length rest < 2 ^ 16
    → h.dest_port ≡ b.port
    → b.inqueue ≡ []
    → b.ack ≡ h.seq
    → (b' : Connection) × (receive_segment now h rest b ≡ ok b')
      × (b'.inqueue ≡ segment_of h rest ∷ [])
      × (b'.ack ≡ (h.seq + length rest) % 2 ^ 32)
      × (b'.status ≡ b.status)
unfolding receive_segment enqueue
receive_segment-data now h rest b f hdr no_rst no_syn no_fin with_ack some_bytes short port idle
      acked =
    let p = segment_of h rest in
    let c : Connection = record b {
      window = h.window;
      outqueue = drop_acked h.ack b.outqueue;
      inqueue = p ∷ [];
    } in
    let size : (20 + length rest + 2 ^ 32 - header_size h) % 2 ^ 32 ≡ length rest = omega arith in
    let more : (length rest == 0) ≡ false = ground arith in
    let same_port : (h.dest_port == b.port) ≡ true = ground arith in
    let next : is_next p c ≡ true = ground (arith, f.seq) in
    let queue = handle_inqueue-data now p c refl next no_rst no_syn no_fin (omega arith) in
    let d : Connection = record c { ack = p.seq_end; inqueue = p ∷ [] } in
    let k = acknowledge_keeps now d in
    (
      acknowledge now false d,
      rw (size, more, same_port, with_ack, no_rst, no_syn, idle, queue) refl,
      k.0,
      k.1,
      k.2,
    )

take_whole : (n : ℕ) (bytes : List ℕ) → length bytes ≤ n → take n bytes ≡ bytes
take_whole zero [] h = refl
take_whole zero (b ∷ bytes) h = ground arith
take_whole (suc n) [] h = refl
take_whole (suc n) (b ∷ bytes) h = ap (b ∷◌) (take_whole n bytes (omega arith))

drop_all : (n : ℕ) (bytes : List ℕ) → length bytes ≤ n → drop n bytes ≡ []
drop_all zero [] h = refl
drop_all zero (b ∷ bytes) h = ground arith
drop_all (suc n) [] h = refl
drop_all (suc n) (b ∷ bytes) h = drop_all n bytes (omega arith)

send_chunks_done : (rounds now : ℕ) (c : Connection) → send_chunks rounds now [] c ≡ c
unfolding send_chunks
send_chunks_done zero now c = refl
send_chunks_done (suc rounds) now c = refl

send_chunks_once :
    (rounds now : ℕ) (content : List ℕ) (a : Connection)
    → 0 < length content
    → length content ≤ mss
    → send_chunks (suc rounds) now content a ≡ send_tcp_packet now (tcp_ack + tcp_psh) content a
unfolding send_chunks
send_chunks_once rounds now [] a some_bytes short = ground arith
send_chunks_once rounds now (b ∷ bs) a some_bytes short =
    let content = b ∷ bs in
    let last : leb (length content) mss ≡ true = ground arith in
    rw (last, take_whole mss content short, drop_all mss content short, send_chunks_done rounds now)
      refl

tcp_stream_send-send_chunks :
    (now : ℕ) (content : List ℕ) (a : Connection)
    → can_send a.status ≡ true
    → tcp_stream_send now content a ≡ (length content, send_chunks (length content) now content a)
unfolding tcp_stream_send
tcp_stream_send-send_chunks now content a opened = rw opened refl

seq_size_data : (flags n : ℕ) → 0 < n → seq_size flags n ≡ n
seq_size_data flags n h = let some_bytes : (n == 0) ≡ false = ground arith in rw some_bytes refl

-- A connection that can send, with nothing else under way, sends a content of 1 to 1300 bytes that fits into
-- the window, later than a second and less than 2^31 milliseconds after the start. One segment is
-- thrown, to the other side's address. There `incoming` finds its checksum right, and a connection at
-- its port with an empty queue, which has acknowledged everything before, takes it in, and acknowledges
-- all that the sender has sent. A read of it that asks for enough returns the content, and leaves
-- nothing.
pub tcp_stream_send-tcp_incoming :
    (now size : ℕ) (content : List ℕ) (a b : Connection)
    → 1000 < now
    → now < 2 ^ 31
    → can_send a.status ≡ true
    → ConnectionFits a
    → a.outqueue ≡ []
    → 0 < length content
    → length content ≤ 1300
    → length content ≤ a.window
    → length content ≤ size
    → All (λ x. x < 256) content
    → b.port ≡ a.dest_port
    → b.inqueue ≡ []
    → b.ack ≡ a.seq
    → (bytes : List ℕ) × (b' : Connection) × ((tcp_stream_send now content a).1.thrown
        ≡ a.thrown ++ ((a.dest_ip, bytes) ∷ []))
      × (tcp_incoming now a.ip a.dest_ip bytes (b ∷ []) ≡ ok (b' ∷ []))
      × (b'.ack ≡ (tcp_stream_send now content a).1.seq)
      × (tcp_receive size b' ≡ ok (content, record b' { inqueue = [] }))
unfolding tcp_incoming receive_all make_segment
tcp_stream_send-tcp_incoming now size content a b late small opened fits idle some_bytes short
      window asked bytes port empty acked =
    let flags = tcp_ack + tcp_psh in
    let p = make_segment flags content a in
    let raw = segment_bytes p.header content in
    let once = tcp_stream_send-send_chunks now content a opened in
    let many : length content ≡ suc (length content - 1) = omega arith in
    let sent =
      ap (λ n. send_chunks n now content a) many
      ∙ send_chunks_once (length content - 1) now content a some_bytes short in
    let thrown =
      send_tcp_packet-thrown now flags content a late small idle fits.seq window (omega arith)
        (omega arith) in
    let seq = (send_tcp_packet_keeps now flags content a).4 in
    let (wide, sound) = make_segment_lem flags content a fits (omega arith) (omega arith) bytes in
    let got =
      receive_segment-data now p.header content b wide refl refl refl refl refl some_bytes
        (omega arith) (sym port) empty acked in
    let ends : (a.seq + length content) % 2 ^ 32 ≡ p.seq_end =
      ap (λ n. (a.seq + n) % 2 ^ 32) (sym (seq_size_data flags (length content) some_bytes)) in
    let d : IsData (segment_of p.header content) = record {
      seq = fits.seq;
      hdrlen = refl;
      some_bytes = some_bytes;
      short = omega arith;
      ends = refl;
    } in
    let read = receive_all_of size (segment_of p.header content) got.0 d got.2 got.3 refl asked in
    let whole = take_whole (length content) content (omega arith) in
    let last : Connection = record got.0 { inqueue = [] } in
    let incoming : tcp_incoming now a.ip a.dest_ip raw (b ∷ []) ≡ ok (got.0 ∷ []) =
      rw (sound, parse_segment-segment_bytes p.header content wide, got.1) refl in
    (
      raw,
      got.0,
      rw (once, sent) thrown,
      incoming,
      got.3 ∙ ends ∙ rw (once, sent) (sym seq),
      read ∙ ap (λ x. ok (x, last)) whole,
    )
