-- ===== src/Tcp/Queues/Receive.antt =====
-- What `tcp_receive` makes of the segments in a queue.
use muxomucota.Base.{
  ℕ, zero, suc, ◌+◌, ◌-◌, ◌%◌, ◌^◌, ◌≤◌, ◌<◌, ◌≡◌, true, false, List, [], ◌∷◌, length, arith, refl,
  ◌==◌, ltb, leb, ◌∙◌,
}
use muxomucota.Base.Outcome.{ok, fault}
use muxomucota.Ip.{read_block, take}
use muxomucota.Ip.Transfer.{read_block_short}
use muxomucota.Tcp.{TcpHeader, segment_bytes, Segment, size_of, header_size, Connection}
use muxomucota.Tcp.Queues.{copied, unread, receive_from, tcp_receive}

read_block-take : (n : ℕ) (bs : List ℕ) → n ≤ length bs → read_block 0 n bs ≡ ok (take n bs)
unfolding read_block
read_block-take zero bs h = refl
read_block-take (suc n) [] h = absurd (omega arith)
read_block-take (suc n) (b ∷ bs) h = ground (arith, read_block-take n bs (omega arith))

-- A segment with data behind a header of 20 bytes.
pub record IsData (p : Segment) : Type 0 where
  pub seq : p.header.seq < 2 ^ 32
  pub hdrlen : p.header.hdrlen ≡ 0x50
  pub some_bytes : 0 < length p.rest
  pub short : length p.rest < 2 ^ 16
  pub ends : p.seq_end ≡ (p.header.seq + length p.rest) % 2 ^ 32

pub header_size-IsData : (p : Segment) → IsData p → header_size p.header ≡ 20
header_size-IsData p d = omega (arith, d.hdrlen)

block_behind :
    (h : TcpHeader) (n : ℕ) (r : List ℕ) → read_block 20 n (segment_bytes h r) ≡ read_block 0 n r
unfolding read_block
block_behind h zero r = refl
block_behind h (suc n) r = refl

pub copied-take :
    (p : Segment) (n : ℕ) → IsData p → n ≤ length p.rest → copied p n ≡ ok (take n p.rest)
copied-take p n d h =
    rw (header_size-IsData p d) (block_behind p.header n p.rest ∙ read_block-take n p.rest h)

pub copied_short : (p : Segment) (n : ℕ) → IsData p → length p.rest < n → copied p n ≡ fault
copied_short p n d h =
    rw (header_size-IsData p d)
      (block_behind p.header n p.rest ∙ read_block_short 0 n p.rest (omega arith) (omega arith))

-- How much of the only segment in a queue is unread.
pub unread_first :
    (p : Segment)
    → IsData p
    → p.read_offset ≤ length p.rest
    → unread p p.header.seq ≡ length p.rest - p.read_offset
unread_first p d h = omega (arith, header_size-IsData p d, d.seq, d.short)

-- The only segment in a queue is acknowledged, and not all of it is asked for.
pub receive_part :
    (size : ℕ) (p : Segment) (c : Connection)
    → IsData p
    → c.inqueue ≡ p ∷ []
    → c.ack ≡ p.seq_end
    → p.read_offset + size < length p.rest
    → tcp_receive size c
      ≡ ok (
        take size p.rest,
        record c { inqueue = record p { read_offset = p.read_offset + size } ∷ [] },
      )
unfolding tcp_receive receive_from
receive_part size p c d one acked less =
    let all = unread_first p d (omega arith) in
    let later =
      unread_first (record p { read_offset = p.read_offset + size })
        (record {
          seq = d.seq;
          hdrlen = d.hdrlen;
          some_bytes = d.some_bytes;
          short = d.short;
          ends = d.ends;
        })
        (omega arith) in
    let part = copied-take p size d (omega arith) in
    let h = header_size-IsData p d in
    let fits : (p.read_offset + size) % 2 ^ 32 ≡ p.read_offset + size = omega (arith, d.short) in
    let self : (p.seq_end == p.seq_end) ≡ true = ground arith in
    let sound : leb (header_size p.header) (size_of p) ≡ true = ground (arith, h) in
    let more : (size_of p == header_size p.header) ≡ false = ground (arith, h, d.some_bytes) in
    let little : ltb size (unread p p.header.seq) ≡ true = ground (arith, all) in
    let left : (unread (record p { read_offset = p.read_offset + size }) p.header.seq == 0)
        ≡ false =
      ground (arith, later) in
    rw (one, acked, self, sound, more, little, fits, part, left) refl

-- The only segment in a queue is acknowledged, and all of it is asked for.
pub receive_all_of :
    (size : ℕ) (p : Segment) (c : Connection)
    → IsData p
    → c.inqueue ≡ p ∷ []
    → c.ack ≡ p.seq_end
    → p.read_offset ≡ 0
    → length p.rest ≤ size
    → tcp_receive size c ≡ ok (take (length p.rest) p.rest, record c { inqueue = [] })
unfolding tcp_receive receive_from
receive_all_of size p c d one acked fresh enough =
    let all = unread_first p d (omega (arith, fresh)) in
    let n : unread p p.header.seq ≡ length p.rest = omega (arith, all, fresh) in
    let h = header_size-IsData p d in
    let whole = copied-take p (length p.rest) d (omega arith) in
    let self : (p.seq_end == p.seq_end) ≡ true = ground arith in
    let sound : leb (header_size p.header) (size_of p) ≡ true = ground (arith, h) in
    let more : (size_of p == header_size p.header) ≡ false = ground (arith, h, d.some_bytes) in
    let much : ltb size (length p.rest) ≡ false = ground arith in
    let fits : (p.read_offset + length p.rest) % 2 ^ 32 ≡ length p.rest =
      omega (arith, d.short, fresh) in
    let later =
      unread_first (record p { read_offset = length p.rest })
        (record {
          seq = d.seq;
          hdrlen = d.hdrlen;
          some_bytes = d.some_bytes;
          short = d.short;
          ends = d.ends;
        })
        (omega arith) in
    let none_left : (unread (record p { read_offset = length p.rest }) p.header.seq == 0) ≡ true =
      ground (arith, later) in
    rw (one, acked, self, sound, more, n, much, fits, whole, none_left) refl
