-- ===== src/Tcp/Queues/Tests.antt =====
-- Connections with one segment and with three in their queues.
use muxomucota.Base.{ℕ, ◌+◌, ◌^◌, ◌<◌, ◌≡◌, false, List, [], ◌∷◌, arith, refl}
use muxomucota.Base.Outcome.{ok, fault}
use muxomucota.Tcp.{TcpHeader, open_, Segment, Connection, pseudo_header, tcp_checksum}
use muxomucota.Ip.{calculate_network_checksum}
use muxomucota.Tcp.Checksum.{tcp_checksum-calculate_network_checksum}
use muxomucota.Tcp.Queues.{tcp_receive}
use muxomucota.Tcp.Queues.Receive.{IsData}
use muxomucota.Tcp.Queues.Reading.{tcp_receive_again, tcp_receive_overread}

abbrev header : ℕ → TcpHeader
header s = record {
  src_port = 80;
  dest_port = 1024;
  seq = s;
  ack = 0;
  hdrlen = 0x50;
  flags = 16;
  window = 512;
  checksum = 0;
  urgentptr = 0;
}

-- Four bytes from a sequence number on.
abbrev data_at : ℕ → Segment
data_at s = record {
  last_time_sent = 0;
  seq_end = s + 4;
  read_offset = 0;
  header = header s;
  rest = 5 ∷ 6 ∷ 7 ∷ 8 ∷ [];
}

abbrev connection : ℕ → List Segment → Connection
connection n q = record {
  id = 1;
  ip = 1;
  dest_ip = 2;
  port = 1024;
  dest_port = 80;
  status = open_;
  seq = 1;
  ack = n;
  owner = 0;
  signal = false;
  window = 512;
  inqueue = q;
  outqueue = [];
  thrown = [];
}

data_at-IsData : (s : ℕ) → s < 2 ^ 31 → IsData (data_at s)
data_at-IsData s small = record {
  seq = omega arith;
  hdrlen = refl;
  some_bytes = omega arith;
  short = omega arith;
  ends = omega arith;
}

tcp_receive_again_example :
    (c' c'' : Connection) × (tcp_receive 2 (connection 104 (data_at 100 ∷ []))
      ≡ ok (5 ∷ 6 ∷ [], c'))
    × (tcp_receive 1 c' ≡ ok (5 ∷ [], c''))
tcp_receive_again_example =
    tcp_receive_again 2 1 (data_at 100) (connection 104 (data_at 100 ∷ []))
      (data_at-IsData 100 (omega arith)) refl refl refl (omega arith)

tcp_receive_overread_example :
    tcp_receive 64 (connection 112 (data_at 100 ∷ data_at 104 ∷ data_at 108 ∷ [])) ≡ fault
tcp_receive_overread_example =
    tcp_receive_overread 64 (data_at 100) (data_at 104) (data_at 108)
      (connection 112 (data_at 100 ∷ data_at 104 ∷ data_at 108 ∷ []))
      (data_at-IsData 100 (omega arith)) (data_at-IsData 104 (omega arith))
      (data_at-IsData 108 (omega arith)) refl refl refl refl refl refl (omega arith) (omega arith)

tcp_checksum-calculate_network_checksum_example :
    tcp_checksum (pseudo_header 1 2 3) (7 ∷ 8 ∷ 9 ∷ [])
    ≡ calculate_network_checksum (0 ∷ 0 ∷ 0 ∷ 1 ∷ 0 ∷ 0 ∷ 0 ∷ 2 ∷ 0 ∷ 6 ∷ 0 ∷ 3 ∷ 7 ∷ 8 ∷ 9 ∷ [])
tcp_checksum-calculate_network_checksum_example =
    tcp_checksum-calculate_network_checksum 1 2 3 (7 ∷ 8 ∷ 9 ∷ [])
