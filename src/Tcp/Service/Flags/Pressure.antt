-- ===== src/Tcp/Service/Flags/Pressure.antt =====
-- F_PRESSURE of a pipe, and reads.
use muxomucota.Base.{
  ℕ, ◌+◌, ◌-◌, ◌%◌, ◌^◌, ◌≤◌, ◌<◌, ◌≡◌, true, false, not, ◌&&◌, none, List, [], ◌∷◌, length, arith,
  refl, ◌==◌, ltb, ◌∙◌, ap,
}
use muxomucota.Base.Outcome.{ok}
use muxomucota.Ip.{take}
use muxomucota.Tcp.{Segment, size_of, header_size, not_before, Connection}
use muxomucota.Tcp.Queues.{tcp_receive}
use muxomucota.Tcp.Queues.Receive.{IsData, receive_part, receive_all_of}
use muxomucota.Tcp.Service.Flags.{f_pressure, pressure_from, pressure, tcp_get_flag}

-- Segments of data, one behind the other from a sequence number on, all acknowledged.
unfoldable pub DataChain : ℕ → ℕ → List Segment → Type 0
DataChain ack start [] = Unit
DataChain ack start (p ∷ ps) =
    (p.header.seq ≡ start)
    × IsData p
    × (not (p.seq_end == ack) && not_before p.seq_end ack ≡ false)
    × DataChain ack p.seq_end ps

-- How many bytes of data there are.
abbrev pub data_length : List Segment → ℕ
data_length [] = 0
data_length (p ∷ ps) = length p.rest + data_length ps

pressure_from-DataChain :
    (ack start : ℕ) (ps : List Segment)
    → DataChain ack start ps
    → data_length ps < 2 ^ 32
    → pressure_from ack start ps ≡ data_length ps
unfolding pressure_from DataChain
pressure_from-DataChain ack start [] chain small = refl
pressure_from-DataChain ack start (p ∷ ps) (begins, d, acked, behind) small =
    let later = pressure_from-DataChain ack p.seq_end ps behind (omega arith) in
    let own : (p.seq_end + 2 ^ 32 - start) % 2 ^ 32 ≡ length p.rest =
      omega (arith, begins, d.ends, d.seq, d.short) in
    let some_bytes : ltb (header_size p.header) (size_of p) ≡ true =
      ground (arith, d.hdrlen, d.some_bytes) in
    rw (acked, some_bytes, later, own) (omega arith)

-- The segments in the queue of a connection are data, one behind the other, all acknowledged. F_PRESSURE
-- is how many bytes of data they have together.
pub tcp_get_flag-DataChain :
    (c : Connection) (p : Segment) (ps : List Segment)
    → c.inqueue ≡ p ∷ ps
    → DataChain c.ack p.header.seq (p ∷ ps)
    → data_length (p ∷ ps) < 2 ^ 32
    → tcp_get_flag f_pressure c ≡ (data_length (p ∷ ps), none)
unfolding tcp_get_flag pressure
tcp_get_flag-DataChain c p ps queue chain small =
    rw (queue, pressure_from-DataChain c.ack p.header.seq (p ∷ ps) chain small) refl

-- A part of the only segment in a queue is read. F_PRESSURE is then still the length of all of its data,
-- as it was before, instead of what is left. When all of it is read instead, F_PRESSURE is 0.
pub tcp_receive-tcp_get_flag :
    (n m : ℕ) (p : Segment) (c : Connection)
    → IsData p
    → c.inqueue ≡ p ∷ []
    → c.ack ≡ p.seq_end
    → p.read_offset ≡ 0
    → n < length p.rest
    → length p.rest ≤ m
    → (c' c'' : Connection) × (tcp_receive n c ≡ ok (take n p.rest, c'))
      × (tcp_get_flag f_pressure c' ≡ (length p.rest, none))
      × (tcp_receive m c ≡ ok (take (length p.rest) p.rest, c''))
      × (tcp_get_flag f_pressure c'' ≡ (0, none))
unfolding DataChain tcp_get_flag pressure pressure_from
tcp_receive-tcp_get_flag n m p c d one acked fresh less enough =
    let p' : Segment = record p { read_offset = p.read_offset + n } in
    let d' : IsData p' = record {
      seq = d.seq;
      hdrlen = d.hdrlen;
      some_bytes = d.some_bytes;
      short = d.short;
      ends = d.ends;
    } in
    let c' : Connection = record c { inqueue = p' ∷ [] } in
    let self : not (p.seq_end == c.ack) && not_before p.seq_end c.ack ≡ false =
      rw acked (ground arith) in
    let sum : length p.rest + 0 ≡ length p.rest = omega arith in
    let press =
      tcp_get_flag-DataChain c' p' [] refl (refl, d', self, tt) (omega (arith, d.short)) in
    (
      c',
      record c { inqueue = [] },
      receive_part n p c d one acked (omega (arith, fresh)),
      press ∙ ap (λ x. (x, none)) sum,
      receive_all_of m p c d one acked fresh enough,
      refl,
    )
