-- ===== src/Ip/Checksum.antt =====
-- The checksum of a header of the internet protocol.
use muxomucota.Base.{
  ℕ, ◌+◌, ◌-◌, ◌*◌, ◌/◌, ◌%◌, ◌^◌, ◌≤◌, ◌<◌, ◌≡◌, ◌≢◌, List, [], ◌∷◌, length, arith, ◌==◌,
  if◌then◌else◌,
}
use muxomucota.Ip.{sum_words, fold_carries, calculate_network_checksum, Header, header_bytes}

-- The sum of the words of a block, without any limit.
abbrev pub words : List ℕ → ℕ
words [] = 0
words (a ∷ []) = a * 256
words (a ∷ b ∷ r) = a * 256 + b + words r

sum_words_lem :
    (sum : ℕ) (bs : List ℕ) → sum + words bs < 2 ^ 32 → sum_words sum bs ≡ sum + words bs
unfolding sum_words
sum_words_lem sum [] h = omega arith
sum_words_lem sum (a ∷ []) h = omega arith
sum_words_lem sum (a ∷ b ∷ r) h =
    let step : (sum + (a * 256 + b)) % 2 ^ 32 ≡ sum + (a * 256 + b) = omega arith in
    rw step (omega (arith, sum_words_lem (sum + (a * 256 + b)) r))

-- One round keeps a sum but for multiples of 2^16 - 1.
fold_round : (s : ℕ) → s ≢ 0 → (s % 2 ^ 16 + s / 2 ^ 16 - 1) % 65535 ≡ (s - 1) % 65535
fold_round s nz = omega arith

-- Three rounds are enough for 32 bits: what is left is the sum modulo 2^16 - 1, from 1 on.
pub fold_carries_lem :
    (s : ℕ) → s < 2 ^ 32 → fold_carries 3 s ≡ (if s == 0 then 0 else (s - 1) % 65535 + 1)
unfolding fold_carries
fold_carries_lem s h =
    let a = fold_round s in
    let b = fold_round (s % 2 ^ 16 + s / 2 ^ 16) in
    let t = s % 2 ^ 16 + s / 2 ^ 16 in
    let c = fold_round (t % 2 ^ 16 + t / 2 ^ 16) in ground (arith, a, b, c)

-- The checksum of a block whose words do not overflow 32 bits.
pub checksum_lem :
    (bs : List ℕ)
    → 2 ≤ length bs
    → words bs < 2 ^ 32
    → words bs ≢ 0
    → calculate_network_checksum bs ≡ 65534 - (words bs - 1) % 65535
unfolding calculate_network_checksum
checksum_lem bs long small nz =
    let s = sum_words_lem 0 bs (omega arith) in
    let e : 0 + words bs ≡ words bs = omega arith in
    let f = fold_carries_lem (words bs) small in rw (s, e, f) (ground arith)

-- The fields are as wide as they are in the header.
pub record Fits (h : Header) : Type 0 where
  pub hdrlen_version : h.hdrlen_version < 256
  pub priority : h.priority < 256
  pub total : h.total < 2 ^ 16
  pub id : h.id < 2 ^ 16
  pub frag_ofs_flags : h.frag_ofs_flags < 2 ^ 16
  pub ttl : h.ttl < 256
  pub proto_type : h.proto_type < 256
  pub checksum : h.checksum < 2 ^ 16
  pub src_ip : h.src_ip < 2 ^ 32
  pub dest_ip : h.dest_ip < 2 ^ 32

abbrev header_sum : Header → ℕ
header_sum h =
    h.hdrlen_version * 256
    + h.priority
    + h.total
    + h.id
    + h.frag_ofs_flags
    + h.ttl * 256
    + h.proto_type
    + h.checksum
    + h.src_ip / 2 ^ 16
    + h.src_ip % 2 ^ 16
    + h.dest_ip / 2 ^ 16
    + h.dest_ip % 2 ^ 16

words-header_bytes : (h : Header) → Fits h → words (header_bytes h []) ≡ header_sum h
words-header_bytes h f = omega arith

pub Fits-checksum : (h : Header) (c : ℕ) → Fits h → c < 2 ^ 16 → Fits (record h { checksum = c })
Fits-checksum h c f small = ground arith

-- A header whose checksum is that of the header with the field 0 has the checksum 0.
pub checksum-header :
    (h : Header)
    → Fits h
    → h.hdrlen_version ≢ 0
    → h.checksum ≡ 0
    → (calculate_network_checksum (header_bytes h []) < 2 ^ 16)
      × (calculate_network_checksum (
            header_bytes
              (record h { checksum = calculate_network_checksum (header_bytes h []) })
              [])
          ≡ 0)
checksum-header h f nz z =
    let w = words-header_bytes h f in
    let c = checksum_lem (header_bytes h []) (omega arith) (omega (arith, w)) (omega (arith, w)) in
    let small : calculate_network_checksum (header_bytes h []) < 2 ^ 16 = omega (arith, c) in
    let h' : Header = record h { checksum = calculate_network_checksum (header_bytes h []) } in
    let f' : Fits h' = Fits-checksum h _ f small in
    let w' = words-header_bytes h' f' in
    let c' =
      checksum_lem (header_bytes h' []) (omega arith) (omega (arith, w')) (omega (arith, w')) in
    (small, omega (arith, c, c', w, w'))
