-- ===== src/Udp/Transfer.antt =====
-- Datagrams on their way from `service_stream_send` to `incoming`.
use muxomucota.Base.{
  ℕ, ◌+◌, ◌-◌, ◌%◌, ◌^◌, ◌≤◌, ◌<◌, ◌≡◌, Bool, true, false, not, ◌&&◌, List, [], ◌∷◌, ◌++◌, length,
  map, All, arith, refl, ◌==◌, ltb, if◌then◌else◌, ap, ◌⊎◌, Bool-cases, inl, inr,
}
use muxomucota.Base.Outcome.{ok, fault}
use muxomucota.Ip.Checksum.{words}
use muxomucota.Ip.Transfer.{read_block_all, read_block_short}
use muxomucota.Tcp.Checksum.{words_bound, tcp_checksum_lem}
use muxomucota.Udp.{
  UdpHeader, UdpPacket, UdpFile, udp_bytes, parse_udp, udp_pseudo_header, udp_checksum,
  make_datagram, udp_stream_send, deliver_datagram, deliver_all, udp_incoming,
}

-- The fields are as wide as they are in a datagram.
pub record UdpFits (h : UdpHeader) : Type 0 where
  pub src_port : h.src_port < 2 ^ 16
  pub dest_port : h.dest_port < 2 ^ 16
  pub length : h.length < 2 ^ 16
  pub checksum : h.checksum < 2 ^ 16

parse_udp-udp_bytes :
    (h : UdpHeader) (r : List ℕ) → UdpFits h → parse_udp (udp_bytes h r) ≡ ok (h, r)
unfolding parse_udp
parse_udp-udp_bytes h r f = ground arith

-- A datagram with the checksum that is calculated for the field 0 has the checksum 0.
udp_checksum-udp_bytes :
    (src_ip dest_ip n : ℕ) (h : UdpHeader) (rest : List ℕ)
    → UdpFits h
    → h.checksum ≡ 0
    → src_ip < 2 ^ 32
    → dest_ip < 2 ^ 32
    → n < 2 ^ 16
    → length rest ≤ 2 ^ 16
    → All (λ b. b < 256) rest
    → (udp_checksum (udp_pseudo_header src_ip dest_ip n) (udp_bytes h rest) < 2 ^ 16)
      × (udp_checksum (udp_pseudo_header src_ip dest_ip n) (
            udp_bytes
              (record h {
                checksum = udp_checksum (udp_pseudo_header src_ip dest_ip n) (udp_bytes h rest);
              })
              rest)
          ≡ 0)
udp_checksum-udp_bytes src_ip dest_ip n h rest f z s d l short bytes =
    let psip = udp_pseudo_header src_ip dest_ip n in
    let small = words_bound rest bytes in
    let w : words (udp_bytes h rest)
        ≡ h.src_port + h.dest_port + h.length + h.checksum + words rest =
      omega arith in
    let c = tcp_checksum_lem psip (udp_bytes h rest) (omega (arith, w)) (omega arith) in
    let fits : udp_checksum psip (udp_bytes h rest) < 2 ^ 16 = omega (arith, c) in
    let h' : UdpHeader = record h { checksum = udp_checksum psip (udp_bytes h rest) } in
    let w' : words (udp_bytes h' rest)
        ≡ h.src_port + h.dest_port + h.length + h'.checksum + words rest =
      omega arith in
    let c' = tcp_checksum_lem psip (udp_bytes h' rest) (omega (arith, w')) (omega arith) in
    (fits, omega (arith, c, c', w, w'))

-- A file behind the arrival of a packet at a port.
abbrev pub arrived : UdpPacket → ℕ → UdpFile → UdpFile
arrived p port f = if port == f.port then record f { inqueue = f.inqueue ++ (p ∷ []) } else f

deliver_all-arrived :
    (src_ip : ℕ) (h : UdpHeader) (rest : List ℕ) (fs : List UdpFile)
    → h.length ≡ 8 + length rest
    → h.length < 2 ^ 16
    → deliver_all src_ip h rest fs
      ≡ ok (
          map
            (arrived
              (record { src_ip = src_ip; src_port = h.src_port; content = rest })
              h.dest_port)
            fs)
unfolding deliver_all deliver_datagram
deliver_all-arrived src_ip h rest [] n small = refl
deliver_all-arrived src_ip h rest (f ∷ fs) n small =
    let size : (h.length + 2 ^ 32 - 8) % 2 ^ 32 ≡ length rest = omega arith in
    let read = read_block_all rest in
    let later = deliver_all-arrived src_ip h rest fs n small in
    elim (Bool-cases (h.dest_port == f.port)) [
      | inl y ↦ rw (y, size, read, later) refl
      | inr m ↦ rw (m, later) refl
    ]

and_false : (a b : Bool) → a && b && false ≡ false
and_false true true = refl
and_false true false = refl
and_false false b = refl

-- A file sends a content that fits into a datagram, all of which the internet protocol's service
-- sends. It was sent as a whole, to the file's address. `incoming` at that address finds nothing wrong
-- with the checksum, and every file at the port gets the content at the end of its queue, with the address and
-- the port of the sender; no other file changes.
pub udp_stream_send-udp_incoming :
    (my_ip : ℕ) (transmit : ℕ → List ℕ → ℕ) (content : List ℕ) (a : UdpFile) (fs : List UdpFile)
    → my_ip < 2 ^ 32
    → a.dest_ip < 2 ^ 32
    → a.port < 2 ^ 16
    → a.dest_port < 2 ^ 16
    → 8 + length content < 2 ^ 16
    → All (λ b. b < 256) content
    → ((bytes : List ℕ) → transmit a.dest_ip bytes ≡ length bytes)
    → (block : List ℕ) × (udp_stream_send my_ip transmit content a
        ≡ (length content, a.dest_ip, block))
      × (udp_incoming my_ip a.dest_ip block fs
          ≡ ok (
              map
                (arrived
                  (record { src_ip = my_ip; src_port = a.port; content = content })
                  a.dest_port)
                fs))
unfolding udp_stream_send make_datagram udp_incoming
udp_stream_send-udp_incoming my_ip transmit content a fs mine to port dest_port short bytes sends =
    let n = (8 + length content) % 2 ^ 16 in
    let blank : UdpHeader = record {
      src_port = a.port;
      dest_port = a.dest_port;
      length = n;
      checksum = 0;
    } in
    let fits : UdpFits blank = omega arith in
    let (small, zeroed) =
      udp_checksum-udp_bytes my_ip a.dest_ip n blank content fits refl mine to (omega arith)
        (omega arith) bytes in
    let h : UdpHeader = record blank {
      checksum = udp_checksum (udp_pseudo_header my_ip a.dest_ip n) (udp_bytes blank content);
    } in
    let block = udp_bytes h content in
    let wide : UdpFits h = ground (arith, small) in
    let whole : (if ltb 8 (length block) then length block - 8 else 0) ≡ length content =
      ground arith in
    let same : length block % 2 ^ 16 ≡ n = omega arith in
    let sound : udp_checksum (udp_pseudo_header my_ip a.dest_ip (length block % 2 ^ 16)) block ≡ 0 =
      rw same zeroed in
    (
      block,
      rw (sends block) (ap (λ k. (k, a.dest_ip, block)) whole),
      rw
          (
            parse_udp-udp_bytes h content wide,
            sound,
            and_false (not (h.checksum == 0)) (not (h.checksum == 0xffff)),
          )
          (deliver_all-arrived my_ip h content fs (omega arith) (omega arith)),
    )

-- A datagram without a checksum comes in for the port of the first file, and the length that it gives is
-- below that of its header, or above its own. `incoming` reads what does not belong to it.
pub udp_incoming_overread :
    (src_ip dest_ip : ℕ) (bytes : List ℕ) (h : UdpHeader) (rest : List ℕ) (f : UdpFile)
    (fs : List UdpFile)
    → parse_udp bytes ≡ ok (h, rest)
    → h.checksum ≡ 0
    → h.dest_port ≡ f.port
    → h.length < 2 ^ 16
    → length rest < 2 ^ 16
    → (h.length < 8) ⊎ (8 + length rest < h.length)
    → udp_incoming src_ip dest_ip bytes (f ∷ fs) ≡ fault
unfolding udp_incoming deliver_all deliver_datagram
udp_incoming_overread src_ip dest_ip bytes h rest f fs parsed unchecked port small short wrong =
    let n = (h.length + 2 ^ 32 - 8) % 2 ^ 32 in
    let more : length rest < n = ground (arith, wrong) in
    let over = read_block_short 0 n rest (omega arith) (omega arith) in
    let same_port : (h.dest_port == f.port) ≡ true = ground arith in
    let none_given : (h.checksum == 0) ≡ true = ground arith in
    rw (parsed, none_given, same_port, over) refl
