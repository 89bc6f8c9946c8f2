-- ===== src/Tcp/Queues/Reading.antt =====
-- Reads of segments in parts, of several segments, and of segments that are too short.
use muxomucota.Base.{
  ℕ, ◌+◌, ◌-◌, ◌%◌, ◌^◌, ◌<◌, ◌≡◌, true, false, not, ◌&&◌, List, [], ◌∷◌, length, arith, refl, ◌==◌,
  ltb, leb, if◌then◌else◌, ◌⊎◌,
}
use muxomucota.Base.Outcome.{ok, panic, fault}
use muxomucota.Ip.{take}
use muxomucota.Tcp.{Segment, size_of, header_size, not_before, Connection}
use muxomucota.Tcp.Queues.{unread, receive_from, tcp_receive}
use muxomucota.Tcp.Queues.Receive.{
  IsData, header_size-IsData, copied-take, copied_short, unread_first, receive_part,
}

-- A segment is read in two parts that leave some of it unread. The second call of `tcp_receive` returns the
-- first bytes of the segment again, instead of those behind what was read.
pub tcp_receive_again :
    (n m : ℕ) (p : Segment) (c : Connection)
    → IsData p
    → c.inqueue ≡ p ∷ []
    → c.ack ≡ p.seq_end
    → p.read_offset ≡ 0
    → n + m < length p.rest
    → (c' c'' : Connection) × (tcp_receive n c ≡ ok (take n p.rest, c'))
      × (tcp_receive m c' ≡ ok (take m p.rest, c''))
tcp_receive_again n m p c d one acked fresh less =
    let p' : Segment = record p { read_offset = p.read_offset + n } in
    let c' : Connection = record c { inqueue = p' ∷ [] } in
    let d' : IsData p' = record {
      seq = d.seq;
      hdrlen = d.hdrlen;
      some_bytes = d.some_bytes;
      short = d.short;
      ends = d.ends;
    } in
    (
      c',
      record c' { inqueue = record p' { read_offset = p'.read_offset + m } ∷ [] },
      receive_part n p c d one acked (omega (arith, fresh)),
      receive_part m p' c' d' refl acked (omega (arith, fresh)),
    )

-- Three segments of data lie one behind the other in a queue, all acknowledged and unread, and more
-- is asked for than the first and the third have. `tcp_receive` steps over the second one, takes its
-- bytes for part of the third, and reads behind the end of that.
pub tcp_receive_overread :
    (size : ℕ) (p q r : Segment) (c : Connection)
    → IsData p
    → IsData q
    → IsData r
    → c.inqueue ≡ p ∷ q ∷ r ∷ []
    → q.header.seq ≡ p.seq_end
    → r.header.seq ≡ q.seq_end
    → c.ack ≡ r.seq_end
    → p.read_offset ≡ 0
    → r.read_offset ≡ 0
    → length p.rest + length r.rest < size
    → size < 2 ^ 32
    → tcp_receive size c ≡ fault
unfolding tcp_receive receive_from
tcp_receive_overread size p q r c dp dq dr three pq qr acked fresh fresh' much small =
    let hp = header_size-IsData p dp in
    let hr = header_size-IsData r dr in
    let all : unread p p.header.seq ≡ length p.rest =
      omega (arith, unread_first p dp (omega arith), fresh) in
    let not_last : (p.seq_end == c.ack) ≡ false = ground (arith, dp, dq, dr) in
    let before : not_before p.seq_end c.ack ≡ false = ground (arith, dp, dq, dr) in
    let last : (r.seq_end == c.ack) ≡ true = ground (arith, acked) in
    let sound : leb (header_size p.header) (size_of p) ≡ true = ground (arith, hp) in
    let more : (size_of p == header_size p.header) ≡ false = ground (arith, hp, dp.some_bytes) in
    let big : ltb size (length p.rest) ≡ false = ground arith in
    let fits : (p.read_offset + length p.rest) % 2 ^ 32 ≡ length p.rest =
      omega (arith, dp.short, fresh) in
    let none_left : (unread (record p { read_offset = length p.rest }) p.header.seq == 0) ≡ true =
      ground (arith, hp, dp.short, dp.seq) in
    let whole = copied-take p (length p.rest) dp (omega arith) in
    let over : unread r p.seq_end ≡ length q.rest + length r.rest =
      omega (arith, hr, dp.ends, dq.ends, dr.seq, dq.short, dr.short) in
    let n =
      if ltb (size - length p.rest) (unread r p.seq_end)
      then size - length p.rest
      else unread r p.seq_end in
    let behind = copied_short r n dr (ground (arith, over, dq.some_bytes)) in
    let sound' : leb (header_size r.header) (size_of r) ≡ true = ground (arith, hr) in
    let more' : (size_of r == header_size r.header) ≡ false = ground (arith, hr, dr.some_bytes) in
    rw
      (
        three, not_last, before, sound, more, all, big, fits, whole, none_left, last, sound', more',
        all, big, behind,
      )
      refl

-- The first segment in a queue is shorter than its header says, and no later one is waited for:
-- `tcp_receive` fails an assertion.
pub tcp_receive_panics :
    (size : ℕ) (p : Segment) (ps : List Segment) (c : Connection)
    → c.inqueue ≡ p ∷ ps
    → (p.seq_end ≡ c.ack) ⊎ (not_before p.seq_end c.ack ≡ false)
    → size_of p < header_size p.header
    → tcp_receive size c ≡ panic
unfolding tcp_receive receive_from
tcp_receive_panics size p [] c some_segments reached short =
    let t : (not (p.seq_end == c.ack) && not_before p.seq_end c.ack) ≡ false =
      ground (arith, reached) in
    let u : leb (header_size p.header) (size_of p) ≡ false = ground arith in
    rw (some_segments, t, u) refl
tcp_receive_panics size p (q ∷ ps) c some_segments reached short =
    let t : (not (p.seq_end == c.ack) && not_before p.seq_end c.ack) ≡ false =
      ground (arith, reached) in
    let u : leb (header_size p.header) (size_of p) ≡ false = ground arith in
    rw (some_segments, t, u) refl
