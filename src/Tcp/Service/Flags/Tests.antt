-- ===== src/Tcp/Service/Flags/Tests.antt =====
-- A connection with two segments of data, of four bytes and of one.
use muxomucota.Base.{ℕ, ◌+◌, ◌%◌, ◌^◌, ◌≡◌, false, List, [], ◌∷◌, none, length, arith, refl}
use muxomucota.Tcp.{open_, Segment, Connection}
use muxomucota.Tcp.Service.Flags.{tcp_get_flag, f_pressure}
use muxomucota.Tcp.Service.Flags.Pressure.{DataChain, tcp_get_flag-DataChain}

abbrev segment : ℕ → List ℕ → Segment
segment s bytes = record {
  last_time_sent = 0;
  seq_end = (s + length bytes) % 2 ^ 32;
  read_offset = 0;
  header = record {
    src_port = 80;
    dest_port = 1024;
    seq = s;
    ack = 0;
    hdrlen = 0x50;
    flags = 16;
    window = 512;
    checksum = 0;
    urgentptr = 0;
  };
  rest = bytes;
}

abbrev four : Segment
four = segment 100 (5 ∷ 6 ∷ 7 ∷ 8 ∷ [])

abbrev one : Segment
one = segment 104 (9 ∷ [])

abbrev connection : Connection
connection = record {
  id = 1;
  ip = 1;
  dest_ip = 2;
  port = 1024;
  dest_port = 80;
  status = open_;
  seq = 1;
  ack = 105;
  owner = 0;
  signal = false;
  window = 512;
  inqueue = four ∷ one ∷ [];
  outqueue = [];
  thrown = [];
}

queue-DataChain : DataChain 105 100 (four ∷ one ∷ [])
unfolding DataChain
queue-DataChain = (
  refl,
  record {
    seq = omega arith;
    hdrlen = refl;
    some_bytes = omega arith;
    short = omega arith;
    ends = refl;
  },
  refl,
  (
    refl,
    record {
      seq = omega arith;
      hdrlen = refl;
      some_bytes = omega arith;
      short = omega arith;
      ends = refl;
    },
    refl,
    tt,
  ),
)

tcp_get_flag-DataChain_example : tcp_get_flag f_pressure connection ≡ (5, none)
tcp_get_flag-DataChain_example =
    tcp_get_flag-DataChain connection four (one ∷ []) refl queue-DataChain (omega arith)
