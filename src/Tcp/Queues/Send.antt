-- ===== src/Tcp/Queues/Send.antt =====
-- The segments that a connection sends.
use muxomucota.Base.{
  ℕ, ◌+◌, ◌-◌, ◌%◌, ◌^◌, ◌≤◌, ◌<◌, ◌≡◌, ◌≢◌, List, [], ◌∷◌, ◌++◌, length, All, arith, refl,
}
use muxomucota.Tcp.{TcpHeader, segment_bytes, pseudo_header, tcp_checksum, Connection}
use muxomucota.Tcp.Queues.{due, make_segment, send_tcp_packet}
use muxomucota.Tcp.Checksum.{SegmentFits, tcp_checksum-segment}

-- The fields of a connection are as wide as they are in the code.
pub record ConnectionFits (c : Connection) : Type 0 where
  pub ip : c.ip < 2 ^ 32
  pub dest_ip : c.dest_ip < 2 ^ 32
  pub port : c.port < 2 ^ 16
  pub dest_port : c.dest_port < 2 ^ 16
  pub seq : c.seq < 2 ^ 32
  pub ack : c.ack < 2 ^ 32

-- The header that a connection sends, and that its bytes have the checksum 0.
pub make_segment_lem :
    (flags : ℕ) (content : List ℕ) (c : Connection)
    → ConnectionFits c
    → flags < 256
    → 20 + length content < 2 ^ 16
    → All (λ b. b < 256) content
    → SegmentFits (make_segment flags content c).header
      × (tcp_checksum
            (pseudo_header c.ip c.dest_ip
              (length (segment_bytes (make_segment flags content c).header content) % 2 ^ 16))
            (segment_bytes (make_segment flags content c).header content)
          ≡ 0)
unfolding make_segment
make_segment_lem flags content c f l short bytes =
    let blank : TcpHeader = record {
      src_port = c.port;
      dest_port = c.dest_port;
      seq = c.seq;
      ack = c.ack;
      hdrlen = 0x50;
      flags = flags;
      window = 16384;
      checksum = 0;
      urgentptr = 0;
    } in
    let n = (20 + length content) % 2 ^ 16 in
    let fits : SegmentFits blank = omega arith in
    let (small, zeroed) =
      tcp_checksum-segment c.ip c.dest_ip n blank content fits refl f.ip f.dest_ip (omega arith)
        (omega arith) bytes in
    let same : length (segment_bytes blank content) % 2 ^ 16 ≡ n = omega arith in
    (ground (arith, small), rw same zeroed)

-- A segment that a connection with nothing else under way sends is thrown at once.
pub send_tcp_packet-thrown :
    (now flags : ℕ) (content : List ℕ) (c : Connection)
    → 1000 < now
    → now < 2 ^ 31
    → c.outqueue ≡ []
    → c.seq < 2 ^ 32
    → length content ≤ c.window
    → length content ≢ 0
    → length content < 2 ^ 16
    → (send_tcp_packet now flags content c).thrown
      ≡ c.thrown ++ ((c.dest_ip, segment_bytes (make_segment flags content c).header content) ∷ [])
unfolding send_tcp_packet due
send_tcp_packet-thrown now flags content c late small idle fits window some_bytes short =
    let n : ((c.seq + length content) % 2 ^ 32 + 2 ^ 32 - c.seq) % 2 ^ 32 ≡ length content =
      omega arith in
    rw idle (ground (arith, n))

pub send_tcp_packet_keeps :
    (now flags : ℕ) (content : List ℕ) (c : Connection)
    → ((send_tcp_packet now flags content c).inqueue ≡ c.inqueue)
      × ((send_tcp_packet now flags content c).ack ≡ c.ack)
      × ((send_tcp_packet now flags content c).status ≡ c.status)
      × ((send_tcp_packet now flags content c).port ≡ c.port)
      × ((send_tcp_packet now flags content c).seq ≡ (make_segment flags content c).seq_end)
unfolding send_tcp_packet make_segment
send_tcp_packet_keeps now flags content c = (refl, refl, refl, refl, refl)
