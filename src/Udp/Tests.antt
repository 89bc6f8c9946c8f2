-- ===== src/Udp/Tests.antt =====
-- A datagram of two bytes, a path with an address, and a datagram that is too short.
use muxomucota.Base.{
  ℕ, ◌≡◌, false, List, [], ◌∷◌, none, some, length, map, get_or, arith, refl, inr,
}
use muxomucota.Base.Outcome.{ok, fault}
use muxomucota.Ip.Address.{shift}
use muxomucota.Numbers.Decimal.{strtol-Digits, digit_value_lem}
use muxomucota.Tcp.Service.{get_peer_from}
use muxomucota.Udp.{
  UdpHeader, UdpFile, UdpService, udp_bytes, parse_udp, udp_create_pipe, udp_stream_send,
  udp_incoming,
}
use muxomucota.Udp.Transfer.{arrived, udp_stream_send-udp_incoming, udp_incoming_overread}
use muxomucota.Udp.Paths.{udp_create_pipe-none}

abbrev file : ℕ → UdpFile
file p = record {
  id = p;
  dest_ip = 0x0a000002;
  port = p;
  dest_port = 53;
  owner = 0;
  signal = false;
  inqueue = [];
}

udp_stream_send-udp_incoming_example :
    (block : List ℕ) × (udp_stream_send 0x0a000001
        (λ ip bytes. length bytes)
        (104 ∷ 105 ∷ [])
        (file 1024)
      ≡ (2, 0x0a000002, block))
    × (udp_incoming 0x0a000001 0x0a000002 block (file 53 ∷ file 54 ∷ [])
        ≡ ok (
            map
              (arrived
                (record { src_ip = 0x0a000001; src_port = 1024; content = 104 ∷ 105 ∷ [] })
                53)
              (file 53 ∷ file 54 ∷ [])))
udp_stream_send-udp_incoming_example =
    udp_stream_send-udp_incoming 0x0a000001 (λ ip bytes. length bytes) (104 ∷ 105 ∷ []) (file 1024)
      (file 53 ∷ file 54 ∷ []) (omega arith) (omega arith) (omega arith) (omega arith) (omega arith)
      (omega arith, (omega arith, tt)) (λ bytes. refl)

-- A header that gives 40 bytes, before one byte.
abbrev short_datagram : UdpHeader
short_datagram = record { src_port = 1024; dest_port = 53; length = 40; checksum = 0 }

parse_short : parse_udp (udp_bytes short_datagram (9 ∷ [])) ≡ ok (short_datagram, 9 ∷ [])
unfolding parse_udp
parse_short = refl

udp_incoming_overread_example :
    udp_incoming 0x0a000001 0x0a000002 (udp_bytes short_datagram (9 ∷ [])) (file 53 ∷ []) ≡ fault
udp_incoming_overread_example =
    udp_incoming_overread 0x0a000001 0x0a000002 (udp_bytes short_datagram (9 ∷ [])) short_datagram
      (9 ∷ []) (file 53) [] parse_short refl refl (omega arith) (omega arith) (inr (omega arith))

-- "/1.2.3.4:5"
abbrev path : ℕ → ℕ
path i = get_or (b'/' ∷ b'1' ∷ b'.' ∷ b'2' ∷ b'.' ∷ b'3' ∷ b'.' ∷ b'4' ∷ b':' ∷ b'5' ∷ []) i 0

abbrev service : UdpService
service = record { connections = []; port_counter = 1024 }

-- Where the parts of the address begin.
abbrev second : ℕ → ℕ
second = shift 2 (shift 1 path)

abbrev third : ℕ → ℕ
third = shift 2 second

abbrev fourth : ℕ → ℕ
fourth = shift 2 third

path_reads : get_peer_from 4 (shift 1 path) 0 ≡ ok (some (0x01020304, shift 1 fourth))
unfolding get_peer_from
path_reads =
    let a =
      strtol-Digits (shift 1 path) (1 ∷ []) refl (omega arith)
        (refl, digit_value_lem 1 (omega arith), omega arith, tt) refl in
    let b =
      strtol-Digits second (2 ∷ []) refl (omega arith)
        (refl, digit_value_lem 2 (omega arith), omega arith, tt) refl in
    let c =
      strtol-Digits third (3 ∷ []) refl (omega arith)
        (refl, digit_value_lem 3 (omega arith), omega arith, tt) refl in
    let d =
      strtol-Digits fourth (4 ∷ []) refl (omega arith)
        (refl, digit_value_lem 4 (omega arith), omega arith, tt) refl in
    rw (a.0, a.1, b.0, b.1, c.0, c.1, d.0, d.1) refl

udp_create_pipe-none_example : udp_create_pipe 1 path service ≡ ok (none, service)
udp_create_pipe-none_example =
    udp_create_pipe-none 1 path service (some (0x01020304, shift 1 fourth)) (omega arith) path_reads
