-- ===== src/Tcp.antt =====
-- The transmission control protocol's service, src/progs/common/tcp/tcp.c: segments, their checksum, and
-- connections. Its children model the queues of a connection and the service.
pub mod Queues
pub mod Service
pub mod Checksum
use muxomucota.Base.{
  ℕ, zero, suc, ◌+◌, ◌-◌, ◌*◌, ◌/◌, ◌%◌, ◌^◌, Bool, true, false, not, ◌&&◌, ◌||◌, List, [], ◌∷◌,
  length, ◌==◌, ltb, leb, if◌then◌else◌,
}
use muxomucota.Base.Outcome.{Outcome, ok, fault}
use muxomucota.Ip.{be16, be32, fold_carries}

-- TCP_FIN, TCP_SYN, TCP_RST, TCP_PSH, TCP_ACK
abbrev pub tcp_fin : ℕ
tcp_fin = 1

abbrev pub tcp_syn : ℕ
tcp_syn = 2

abbrev pub tcp_rst : ℕ
tcp_rst = 4

abbrev pub tcp_psh : ℕ
tcp_psh = 8

abbrev pub tcp_ack : ℕ
tcp_ack = 16

-- `flags & flag`
abbrev pub has_flag : ℕ → ℕ → Bool
has_flag flag flags = flags / flag % 2 == 1

-- DEFAULT_WINDOW, RTT, MSS
abbrev pub default_window : ℕ
default_window = 16384

abbrev pub rtt : ℕ
rtt = 1000

abbrev pub mss : ℕ
mss = 1300

-- `struct tcp_header`, with the values that `ntohs` and `ntohl` give.
pub record TcpHeader : Type 0 where
  pub src_port : ℕ
  pub dest_port : ℕ
  pub seq : ℕ
  pub ack : ℕ
  pub hdrlen : ℕ
  pub flags : ℕ
  pub window : ℕ
  pub checksum : ℕ
  pub urgentptr : ℕ

-- The bytes of a header, before those that follow it.
abbrev pub segment_bytes : TcpHeader → List ℕ → List ℕ
segment_bytes h r = be16 h.src_port (
    be16 h.dest_port (
      be32 h.seq
        (be32 h.ack (h.hdrlen ∷ h.flags ∷ be16 h.window (be16 h.checksum (be16 h.urgentptr r))))))

-- The header of a segment, and what follows it; there is none in a shorter block.
pub parse_segment : List ℕ → Outcome (TcpHeader × List ℕ)
parse_segment
      (a ∷ b ∷ c ∷ d ∷ e ∷ f ∷ g ∷ h ∷ i ∷ j ∷ k ∷ l ∷ m ∷ n ∷ o ∷ p ∷ q ∷ r ∷ s ∷ t ∷ rest) =
    ok (
      record {
        src_port = a * 256 + b;
        dest_port = c * 256 + d;
        seq = e * 2 ^ 24 + f * 2 ^ 16 + g * 256 + h;
        ack = i * 2 ^ 24 + j * 2 ^ 16 + k * 256 + l;
        hdrlen = m;
        flags = n;
        window = o * 256 + p;
        checksum = q * 256 + r;
        urgentptr = s * 256 + t;
      },
      rest,
    )
parse_segment short = fault

-- `struct pseudo_ip_header`
abbrev pub pseudo_header : ℕ → ℕ → ℕ → List ℕ
pseudo_header src_ip dest_ip tcp_length = be32 src_ip (be32 dest_ip (0 ∷ 6 ∷ be16 tcp_length []))

-- `raw_checksum_calc`, from a byte on that is the high one of a word or not
pub raw_checksum_calc : Bool → List ℕ → ℕ → ℕ
raw_checksum_calc hi_byte [] initial = initial
raw_checksum_calc hi_byte (b ∷ buffer) initial =
    raw_checksum_calc (not hi_byte) buffer ((initial + (if hi_byte then b * 256 else b)) % 2 ^ 32)

-- `calculate_network_checksum`; the loop that adds the carries is that of the internet protocol's
-- service.
pub tcp_checksum : List ℕ → List ℕ → ℕ
unfolding raw_checksum_calc
tcp_checksum psip tcph =
    2 ^ 16 - 1 - fold_carries 3 (raw_checksum_calc true tcph (raw_checksum_calc true psip 0))

-- `enum tcp_status`
pub data TcpStatus : Type 0 where
  closed listen syn_rcvd syn_sent open_ fin_rcvd fin_sent : TcpStatus

-- `struct packet`: a segment in a queue, by its header and what follows that.
pub record Segment : Type 0 where
  pub last_time_sent : ℕ
  pub seq_end : ℕ
  pub read_offset : ℕ
  pub header : TcpHeader
  pub rest : List ℕ

-- `p->size`
abbrev pub size_of : Segment → ℕ
size_of p = 20 + length p.rest

-- `(p->packet->hdrlen >> 4) * 4`
abbrev pub header_size : TcpHeader → ℕ
header_size h = h.hdrlen / 16 * 4

-- `a - b < 0x40000000U`: the sequence number `a` is not before `b`.
abbrev pub not_before : ℕ → ℕ → Bool
not_before a b = ltb ((a + 2 ^ 32 - b) % 2 ^ 32) (2 ^ 30)

-- `struct tcp_connection` at the address `id`, without its locks. `thrown` lists what
-- `throw_tcp_packet` passed on, the latest last: the address and the bytes.
pub record Connection : Type 0 where
  pub id : ℕ
  pub ip : ℕ
  pub dest_ip : ℕ
  pub port : ℕ
  pub dest_port : ℕ
  pub status : TcpStatus
  pub seq : ℕ
  pub ack : ℕ
  pub owner : ℕ
  pub signal : Bool
  pub window : ℕ
  pub inqueue : List Segment
  pub outqueue : List Segment
  pub thrown : List (ℕ × List ℕ)
