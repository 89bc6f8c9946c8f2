-- ===== src/Tcp/Queues.antt =====
-- The queues of a connection, src/progs/common/tcp/tcp.c. The clock, which `elapsed_ms` reads, stands
-- still while one of these functions runs.
pub mod Send
pub mod Receive
pub mod Reading
pub mod Scan
pub mod Invariant
mod Tests
use muxomucota.Base.{
  ℕ, zero, suc, ◌+◌, ◌-◌, ◌*◌, ◌/◌, ◌%◌, ◌^◌, Bool, true, false, not, ◌&&◌, ◌||◌, List, [], ◌∷◌,
  ◌++◌, length, ◌==◌, ltb, leb, if◌then◌else◌,
}
use muxomucota.Base.Outcome.{Outcome, ok, panic, fault, ◌>>=◌, ◌>>◌, kassert}
use muxomucota.Ip.{read_block}
use muxomucota.Ip.Arp.{int_ltb}
use muxomucota.Tcp.{
  tcp_fin, tcp_syn, tcp_rst, tcp_ack, has_flag, default_window, rtt, TcpHeader, segment_bytes,
  pseudo_header, tcp_checksum, TcpStatus, closed, listen, syn_rcvd, syn_sent, open_, fin_rcvd,
  fin_sent, Segment, size_of, header_size, not_before, Connection,
}

-- The loop of `handle_outqueue`: what is thrown of the segments in the window.
pub due : ℕ → ℕ → ℕ → ℕ → List Segment → List (ℕ × List ℕ)
due now dest_ip window seq_start [] = []
due now dest_ip window seq_start (p ∷ ps) =
    let later = due now dest_ip window seq_start ps in
    let late = int_ltb rtt ((now + 2 ^ 32 - p.last_time_sent) % 2 ^ 32) in
    if not (leb ((p.seq_end + 2 ^ 32 - seq_start) % 2 ^ 32) window)
    then []
    else if late
    then (dest_ip, segment_bytes p.header p.rest) ∷ later
    else later

-- `handle_outqueue`
unfoldable pub handle_outqueue : ℕ → Connection → Connection
unfolding due
handle_outqueue now c =
    let seq_start : ℕ = elim c.outqueue [ [] ↦ 0 | p ∷ ps ↦ p.header.seq ] in
    record c { thrown = c.thrown ++ due now c.dest_ip c.window seq_start c.outqueue }

-- The loop of `tcp_acked`.
unfoldable pub drop_acked : ℕ → List Segment → List Segment
drop_acked ack [] = []
drop_acked ack (p ∷ ps) =
    let later = drop_acked ack ps in if not_before ack p.seq_end then later else p ∷ ps

-- `tcp_acked`
abbrev pub tcp_acked : ℕ → Connection → Connection
tcp_acked ack c = record c { outqueue = drop_acked ack c.outqueue }

-- `flush_all_queues`
abbrev pub flush_all_queues : Connection → Connection
flush_all_queues c = record c { inqueue = []; outqueue = [] }

-- A segment is put behind those that do not begin after it.
unfoldable pub enqueue : Segment → List Segment → List Segment
enqueue p [] = p ∷ []
enqueue p (q ∷ qs) = if leb q.header.seq p.header.seq then q ∷ enqueue p qs else p ∷ q ∷ qs

-- How much of the sequence a segment takes.
abbrev pub seq_size : ℕ → ℕ → ℕ
seq_size flags n = if n == 0 && (has_flag tcp_syn flags || has_flag tcp_fin flags) then 1 else n

-- The segment that `send_tcp_packet` makes.
unfoldable pub make_segment : ℕ → List ℕ → Connection → Segment
make_segment flags content c =
    let blank : TcpHeader = record {
      src_port = c.port;
      dest_port = c.dest_port;
      seq = c.seq;
      ack = c.ack;
      hdrlen = 0x50;
      flags = flags;
      window = default_window;
      checksum = 0;
      urgentptr = 0;
    } in
    let psip = pseudo_header c.ip c.dest_ip ((20 + length content) % 2 ^ 16) in
    record {
      last_time_sent = 0;
      seq_end = (c.seq + seq_size flags (length content)) % 2 ^ 32;
      read_offset = 0;
      header = record blank { checksum = tcp_checksum psip (segment_bytes blank content) };
      rest = content;
    }

-- `send_tcp_packet`
unfoldable pub send_tcp_packet : ℕ → ℕ → List ℕ → Connection → Connection
unfolding handle_outqueue enqueue make_segment
send_tcp_packet now flags content c = handle_outqueue now (record c {
  seq = (c.seq + seq_size flags (length content)) % 2 ^ 32;
  outqueue = enqueue (make_segment flags content c) c.outqueue;
})

-- What TCP_SYN does to a connection in a state.
abbrev pub synchronise : ℕ → TcpStatus → Connection → Connection
synchronise now listen c =
    send_tcp_packet now (tcp_syn + tcp_ack) [] (record c { status = syn_rcvd })
synchronise now closed c = send_tcp_packet now tcp_rst [] c
synchronise now syn_rcvd c = record c { status = open_ }
synchronise now syn_sent c = record c { status = open_ }
synchronise now open_ c = record c { status = open_ }
synchronise now fin_rcvd c = record c { status = open_ }
synchronise now fin_sent c = record c { status = open_ }

-- The state behind TCP_FIN.
abbrev pub status_fin : TcpStatus → TcpStatus
status_fin fin_sent = closed
status_fin closed = closed
status_fin listen = fin_rcvd
status_fin syn_rcvd = fin_rcvd
status_fin syn_sent = fin_rcvd
status_fin open_ = fin_rcvd
status_fin fin_rcvd = fin_rcvd

-- What `handle_inqueue` does for the flags of a segment other than TCP_RST, and whether it is the end of the
-- other side's data.
abbrev pub reaction : ℕ → ℕ → Bool → Connection → Bool × Connection
reaction now flags fin c =
    if has_flag tcp_syn flags
    then (fin, synchronise now c.status c)
    else if has_flag tcp_fin flags
    then (true, record c { status = status_fin c.status })
    else (fin, c)

-- For TCP_RST it waits for a lock that it has, which fails an assertion.
pub react : ℕ → ℕ → Bool → Connection → Outcome (Bool × Connection)
react now flags fin c = if has_flag tcp_rst flags then panic else ok (reaction now flags fin c)

-- The segment begins in what is acknowledged, and ends behind it.
abbrev pub is_next : Segment → Connection → Bool
is_next p c =
    not_before c.ack p.header.seq && not (c.ack == p.seq_end) && not_before p.seq_end c.ack

-- The loop of `handle_inqueue`: the queue, whether the other side's data ended, and the rest of the
-- connection. Behind a segment that it takes out, it steps over the next one.
pub scan_inqueue : ℕ → List Segment → Bool → Connection → Outcome (List Segment × Bool × Connection)
unfolding react
scan_inqueue now [] fin c = ok ([], fin, c)
scan_inqueue now (p ∷ []) fin c =
    let taken = react now p.header.flags fin (record c { ack = p.seq_end }) >>= λ r.
    ok (if size_of p == header_size p.header then [] else p ∷ [], r.0, r.1) in
    if is_next p c then taken else ok (p ∷ [], fin, c)
scan_inqueue now (p ∷ n ∷ ps) fin c =
    let taken = react now p.header.flags fin (record c { ack = p.seq_end }) >>= λ r.
    elim (size_of p == header_size p.header) [
      | true ↦ scan_inqueue now ps r.0 r.1 >>= λ s. ok (n ∷ s.0, s.1, s.2)
      | false ↦ scan_inqueue now (n ∷ ps) r.0 r.1 >>= λ s. ok (p ∷ s.0, s.1, s.2)
    ] in
    let behind = scan_inqueue now (n ∷ ps) fin c >>= λ s. ok (p ∷ s.0, s.1, s.2) in
    if is_next p c
    then taken
    else if not_before p.header.seq c.ack
    then ok (p ∷ n ∷ ps, fin, c)
    else behind

-- A connection in this state acknowledges what comes in.
abbrev pub acknowledges : TcpStatus → Bool
acknowledges open_ = true
acknowledges syn_sent = true
acknowledges syn_rcvd = true
acknowledges fin_rcvd = true
acknowledges closed = false
acknowledges listen = false
acknowledges fin_sent = false

-- `handle_inqueue`
pub handle_inqueue : ℕ → Connection → Outcome Connection
unfolding scan_inqueue
handle_inqueue now c = scan_inqueue now c.inqueue false c >>= λ s.
    let c' : Connection = record s.2 { inqueue = s.0 } in
    ok (if acknowledges c'.status || s.1 then send_tcp_packet now tcp_ack [] c' else c')

-- What `tcp_receive` reads of a segment of which `unread` bytes are left: the bytes that it copies.
-- They are always those from the start of the data on.
abbrev pub copied : Segment → ℕ → Outcome (List ℕ)
copied p n = read_block (header_size p.header) n (segment_bytes p.header p.rest)

-- The bytes of a segment that `tcp_receive` takes for unread, behind a segment that ends at `last`.
abbrev pub unread : Segment → ℕ → ℕ
unread p last =
    (size_of p
      - header_size p.header
      + 2 ^ 33
      - p.read_offset
      - (last + 2 ^ 32 - p.header.seq) % 2 ^ 32)
    % 2 ^ 32

-- The loop of `tcp_receive`, for `size` bytes, behind a segment that ends at `last`: the bytes, and
-- the queue. Behind a segment that it takes out, it steps over the next one.
pub receive_from : ℕ → ℕ → ℕ → List Segment → Outcome (List ℕ × List Segment)
receive_from ack size last [] = ok ([], [])
receive_from ack size last (p ∷ []) =
    let n = if ltb size (unread p last) then size else unread p last in
    let p' : Segment = record p { read_offset = (p.read_offset + n) % 2 ^ 32 } in
    let read = copied p n >>= λ bytes. ok (bytes, if unread p' last == 0 then [] else p' ∷ []) in
    if not (p.seq_end == ack) && not_before p.seq_end ack
    then ok ([], p ∷ [])
    else kassert (leb (header_size p.header) (size_of p))
      >> (if size_of p == header_size p.header then ok ([], p ∷ []) else read)
receive_from ack size last (p ∷ q ∷ ps) =
    let n = if ltb size (unread p last) then size else unread p last in
    let p' : Segment = record p { read_offset = (p.read_offset + n) % 2 ^ 32 } in
    let read = copied p n >>= λ bytes. elim (unread p' last == 0) [
      | true ↦ receive_from ack (size - n) p.seq_end ps >>= λ r. ok (bytes ++ r.0, q ∷ r.1)
      | false ↦ receive_from ack (size - n) p.seq_end (q ∷ ps) >>= λ r. ok (bytes ++ r.0, p' ∷ r.1)
    ] in
    let skipped = receive_from ack size p.seq_end (q ∷ ps) >>= λ r. ok (r.0, p ∷ r.1) in
    if not (p.seq_end == ack) && not_before p.seq_end ack
    then ok ([], p ∷ q ∷ ps)
    else kassert (leb (header_size p.header) (size_of p))
      >> (if size_of p == header_size p.header then skipped else read)

-- `tcp_receive`: the bytes, and the connection.
pub tcp_receive : ℕ → Connection → Outcome (List ℕ × Connection)
unfolding receive_from
tcp_receive size c =
    let last : ℕ = elim c.inqueue [ [] ↦ 0 | p ∷ ps ↦ p.header.seq ] in
    receive_from c.ack size last c.inqueue >>= λ r. ok (r.0, record c { inqueue = r.1 })
