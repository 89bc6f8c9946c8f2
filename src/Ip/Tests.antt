-- ===== src/Ip/Tests.antt =====
-- The service of the internet protocol at concrete packets, tables and addresses.
use muxomucota.Base.{ℕ, ◌≡◌, false, some, List, [], ◌∷◌, arith, refl}
use muxomucota.Base.Outcome.{ok, fault}
use muxomucota.Ip.{
  calculate_network_checksum, Header, header_bytes, VfsFile, make_packet, incoming, flush,
  stream_recv,
}
use muxomucota.Ip.Checksum.{Fits}
use muxomucota.Ip.Transfer.{incoming-make_packet}

-- A file that is connected to an address.
abbrev connected : ℕ → VfsFile
connected to = record {
  id = 0x1000;
  ifc_fixed = false;
  ifc = some 1;
  mac = 0;
  dest = to;
  protocol = 1;
  ttl = 128;
  owner = 0;
  signal = false;
  inqueue = [];
}

abbrev three_bytes : List ℕ
three_bytes = 1 ∷ 2 ∷ 3 ∷ []

incoming-make_packet_example :
    incoming 0x0a000002
      (make_packet 0x0a000001 (connected 0x0a000002) three_bytes)
      (connected 0x0a000001 ∷ connected 0x0a000007 ∷ [])
    ≡ ok (
        record (connected 0x0a000001) {
          inqueue =
              record {
                src = 0x0a000001;
                dest = 0x0a000002;
                protocol = 1;
                ttl = 128;
                content = three_bytes;
              }
              ∷ [];
        }
        ∷ connected 0x0a000007
        ∷ [])
incoming-make_packet_example =
    incoming-make_packet 0x0a000001 0x0a000002 (connected 0x0a000002) three_bytes
      (connected 0x0a000001 ∷ connected 0x0a000007 ∷ []) (omega arith) (omega arith) refl
      (omega arith) (omega arith) (omega arith)

-- A header for 10.0.0.2 from 10.0.0.1, with a length and a number of words.
abbrev header : ℕ → ℕ → ℕ → Header
header version size sum = record {
  hdrlen_version = version;
  priority = 0;
  total = size;
  id = 0;
  frag_ofs_flags = 0x4000;
  ttl = 128;
  proto_type = 1;
  checksum = sum;
  src_ip = 0x0a000001;
  dest_ip = 0x0a000002;
}

header-Fits : Fits (header 0x45 10 0)
header-Fits = omega arith

-- The checksum of the header.
sum_zero : calculate_network_checksum (header_bytes (header 0x45 10 0xe6f0) []) ≡ 0
unfolding calculate_network_checksum
sum_zero = refl

flush-empty : flush 1 (connected 5) ≡ fault
unfolding flush
flush-empty = refl

recv-empty : stream_recv 10 (connected 5) ≡ ([], connected 5)
unfolding stream_recv
recv-empty = refl
