-- ===== src/Tcp/Checksum.antt =====
-- The checksum of a segment with the pseudo header before it.
use muxomucota.Base.{
  ℕ, ◌+◌, ◌-◌, ◌*◌, ◌/◌, ◌%◌, ◌^◌, ◌≤◌, ◌<◌, ◌≡◌, ◌≢◌, true, false, List, [], ◌∷◌, ◌++◌, length,
  All, arith, refl, ltb,
}
use muxomucota.Ip.{sum_words, calculate_network_checksum}
use muxomucota.Ip.Checksum.{words, fold_carries_lem}
use muxomucota.Tcp.{TcpHeader, segment_bytes, pseudo_header, raw_checksum_calc, tcp_checksum}

-- Bytes one by one, or as words.
raw_checksum_calc-sum_words :
    (sum : ℕ) (bs : List ℕ) → raw_checksum_calc true bs sum ≡ sum_words sum bs
unfolding raw_checksum_calc sum_words
raw_checksum_calc-sum_words sum [] = refl
raw_checksum_calc-sum_words sum (a ∷ []) = refl
raw_checksum_calc-sum_words sum (a ∷ b ∷ r) =
    let once : ((sum + a * 256) % 2 ^ 32 + b) % 2 ^ 32 ≡ (sum + (a * 256 + b)) % 2 ^ 32 =
      omega arith in
    rw once (raw_checksum_calc-sum_words ((sum + (a * 256 + b)) % 2 ^ 32) r)

-- The service's own checksum is that of the internet protocol's service, for the segment behind its
-- pseudo header.
pub tcp_checksum-calculate_network_checksum :
    (src_ip dest_ip tcp_length : ℕ) (bytes : List ℕ)
    → tcp_checksum (pseudo_header src_ip dest_ip tcp_length) bytes
      ≡ calculate_network_checksum (pseudo_header src_ip dest_ip tcp_length ++ bytes)
unfolding tcp_checksum calculate_network_checksum
tcp_checksum-calculate_network_checksum src_ip dest_ip tcp_length bytes =
    let psip = pseudo_header src_ip dest_ip tcp_length in
    let long : ltb (length (psip ++ bytes)) 2 ≡ false = ground arith in
    rw
      (
        raw_checksum_calc-sum_words 0 psip,
        raw_checksum_calc-sum_words (sum_words 0 psip) bytes,
        tcp_checksum,
      )
      (rw long refl)

raw_checksum_calc_lem :
    (sum : ℕ) (bs : List ℕ)
    → sum + words bs < 2 ^ 32
    → raw_checksum_calc true bs sum ≡ sum + words bs
unfolding raw_checksum_calc
raw_checksum_calc_lem sum [] h = omega arith
raw_checksum_calc_lem sum (a ∷ []) h = omega arith
raw_checksum_calc_lem sum (a ∷ b ∷ r) h =
    let once : ((sum + a * 256) % 2 ^ 32 + b) % 2 ^ 32 ≡ sum + (a * 256 + b) = omega arith in
    rw once (omega (arith, raw_checksum_calc_lem (sum + (a * 256 + b)) r))

-- The checksum of bytes whose words do not overflow 32 bits.
pub tcp_checksum_lem :
    (psip bytes : List ℕ)
    → words psip + words bytes < 2 ^ 32
    → words psip ≢ 0
    → tcp_checksum psip bytes ≡ 65534 - (words psip + words bytes - 1) % 65535
unfolding tcp_checksum
tcp_checksum_lem psip bytes small nz =
    let a = raw_checksum_calc_lem 0 psip (omega arith) in
    let b = raw_checksum_calc_lem (0 + words psip) bytes (omega arith) in
    let z : 0 + words psip ≡ words psip = omega arith in
    let f = fold_carries_lem (words psip + words bytes) small in rw (a, b, z, f) (ground arith)

pub words_bound : (bs : List ℕ) → All (λ b. b < 256) bs → words bs ≤ 65280 * length bs
words_bound [] h = omega arith
words_bound (a ∷ []) h = omega arith
words_bound (a ∷ b ∷ r) h = omega (arith, words_bound r h.1.1)

-- The fields are as wide as they are in a segment.
pub record SegmentFits (h : TcpHeader) : Type 0 where
  pub src_port : h.src_port < 2 ^ 16
  pub dest_port : h.dest_port < 2 ^ 16
  pub seq : h.seq < 2 ^ 32
  pub ack : h.ack < 2 ^ 32
  pub hdrlen : h.hdrlen < 256
  pub flags : h.flags < 256
  pub window : h.window < 2 ^ 16
  pub checksum : h.checksum < 2 ^ 16
  pub urgentptr : h.urgentptr < 2 ^ 16

abbrev header_words : TcpHeader → ℕ
header_words h =
    h.src_port
    + h.dest_port
    + h.seq / 2 ^ 16
    + h.seq % 2 ^ 16
    + h.ack / 2 ^ 16
    + h.ack % 2 ^ 16
    + h.hdrlen * 256
    + h.flags
    + h.window
    + h.checksum
    + h.urgentptr

words-segment_bytes :
    (h : TcpHeader) (rest : List ℕ)
    → SegmentFits h
    → words (segment_bytes h rest) ≡ header_words h + words rest
words-segment_bytes h rest f = omega arith

-- A segment with the checksum that is calculated for the field 0 has the checksum 0.
pub tcp_checksum-segment :
    (src_ip dest_ip tcp_length : ℕ) (h : TcpHeader) (rest : List ℕ)
    → SegmentFits h
    → h.checksum ≡ 0
    → src_ip < 2 ^ 32
    → dest_ip < 2 ^ 32
    → tcp_length < 2 ^ 16
    → length rest ≤ 2 ^ 16
    → All (λ b. b < 256) rest
    → (tcp_checksum (pseudo_header src_ip dest_ip tcp_length) (segment_bytes h rest) < 2 ^ 16)
      × (tcp_checksum (pseudo_header src_ip dest_ip tcp_length) (
            segment_bytes
              (record h {
                checksum =
                    tcp_checksum (pseudo_header src_ip dest_ip tcp_length) (segment_bytes h rest);
              })
              rest)
          ≡ 0)
tcp_checksum-segment src_ip dest_ip tcp_length h rest f z s d l short bytes =
    let psip = pseudo_header src_ip dest_ip tcp_length in
    let small = words_bound rest bytes in
    let w = words-segment_bytes h rest f in
    let c = tcp_checksum_lem psip (segment_bytes h rest) (omega (arith, w)) (omega arith) in
    let fits : tcp_checksum psip (segment_bytes h rest) < 2 ^ 16 = omega (arith, c) in
    let h' : TcpHeader = record h { checksum = tcp_checksum psip (segment_bytes h rest) } in
    let w' = words-segment_bytes h' rest (ground arith) in
    let c' = tcp_checksum_lem psip (segment_bytes h' rest) (omega (arith, w')) (omega arith) in
    (fits, omega (arith, c, c', w, w'))
