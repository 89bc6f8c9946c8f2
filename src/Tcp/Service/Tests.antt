-- ===== src/Tcp/Service/Tests.antt =====
-- Two bytes from one host to another, the start of a connection, and datagrams that come in.
use muxomucota.Base.{ℕ, ◌-◌, ◌≡◌, ◌≢◌, ◌++◌, false, List, [], ◌∷◌, All, map, arith, refl}
use muxomucota.Base.Outcome.{ok, panic}
use muxomucota.Tcp.{
  tcp_ack, tcp_rst, has_flag, TcpHeader, TcpStatus, closed, listen, syn_rcvd, open_, Connection,
  segment_bytes, pseudo_header, raw_checksum_calc, tcp_checksum,
}
use muxomucota.Ip.{fold_carries}
use muxomucota.Tcp.Queues.{tcp_receive}
use muxomucota.Tcp.Queues.Send.{ConnectionFits}
use muxomucota.Tcp.Service.{tcp_connect, tcp_stream_send}
use muxomucota.Tcp.Service.Incoming.{Datagram, receive_segment, tcp_incoming, tcp_incoming_all}
use muxomucota.Tcp.Service.Transfer.{tcp_stream_send-tcp_incoming}
use muxomucota.Tcp.Service.Arrivals.{tcp_incoming_all-NoReset, listener_never_opens}
use muxomucota.Tcp.Service.Handshake.{tcp_connect-receive_segment}
use muxomucota.Tcp.Service.Malformed.{receive_segment-tcp_receive}

abbrev here : Connection
here = record {
  id = 1;
  ip = 0x0a000001;
  dest_ip = 0x0a000002;
  port = 1024;
  dest_port = 80;
  status = open_;
  seq = 100;
  ack = 7;
  owner = 0;
  signal = false;
  window = 16384;
  inqueue = [];
  outqueue = [];
  thrown = [];
}

abbrev there : TcpStatus → Connection
there s = record {
  id = 2;
  ip = 0x0a000002;
  dest_ip = 0x0a000001;
  port = 80;
  dest_port = 1024;
  status = s;
  seq = 7;
  ack = 100;
  owner = 0;
  signal = false;
  window = 16384;
  inqueue = [];
  outqueue = [];
  thrown = [];
}

here-ConnectionFits : ConnectionFits here
here-ConnectionFits = record {
  ip = omega arith;
  dest_ip = omega arith;
  port = omega arith;
  dest_port = omega arith;
  seq = omega arith;
  ack = omega arith;
}

tcp_stream_send-tcp_incoming_example :
    (bytes : List ℕ) × (b' : Connection) × ((tcp_stream_send 5000 (104 ∷ 105 ∷ []) here).1.thrown
      ≡ [] ++ ((0x0a000002, bytes) ∷ []))
    × (tcp_incoming 5000 0x0a000001 0x0a000002 bytes (there open_ ∷ []) ≡ ok (b' ∷ []))
    × (b'.ack ≡ (tcp_stream_send 5000 (104 ∷ 105 ∷ []) here).1.seq)
    × (tcp_receive 64 b' ≡ ok (104 ∷ 105 ∷ [], record b' { inqueue = [] }))
tcp_stream_send-tcp_incoming_example =
    tcp_stream_send-tcp_incoming 5000 64 (104 ∷ 105 ∷ []) here (there open_) (omega arith)
      (omega arith) refl here-ConnectionFits refl (omega arith) (omega arith) (omega arith)
      (omega arith) (omega arith, (omega arith, tt)) refl refl refl

abbrev header : ℕ → ℕ → ℕ → TcpHeader
header flags s a = record {
  src_port = 1024;
  dest_port = 80;
  seq = s;
  ack = a;
  hdrlen = 0x50;
  flags = flags;
  window = 512;
  checksum = 0;
  urgentptr = 0;
}

-- A datagram with a segment without data.
abbrev datagram : ℕ → Datagram
datagram flags = record {
  proto_type = 6;
  src_ip = 0x0a000001;
  dest_ip = 0x0a000002;
  content = segment_bytes (record (header flags 101 8) { checksum = 38181 - flags }) [];
}

-- The checksum of the datagrams is right.
datagram_sound : tcp_checksum (pseudo_header 0x0a000001 0x0a000002 20) (datagram 4).content ≡ 0
unfolding tcp_checksum raw_checksum_calc fold_carries
datagram_sound = refl

tcp_incoming_all-NoReset_example :
    (cs' : List Connection) × (tcp_incoming_all 5000
        (datagram 4 ∷ datagram 16 ∷ [])
        (there open_ ∷ [])
      ≡ ok cs')
    × All (λ c. All (λ p. has_flag tcp_rst p.header.flags ≡ false) c.inqueue) cs'
tcp_incoming_all-NoReset_example =
    tcp_incoming_all-NoReset 5000 (datagram 4 ∷ datagram 16 ∷ []) (there open_ ∷ [])
      (omega arith, (omega arith, tt)) (tt, tt)

listener_never_opens_example :
    (c' : Connection) × (cs : List Connection) × (receive_segment 5000
        (header 2 100 0)
        []
        (there listen)
      ≡ ok c')
    × (c'.status ≡ syn_rcvd)
    × (tcp_incoming_all 5000 (datagram 16 ∷ datagram 24 ∷ []) (c' ∷ []) ≡ ok cs)
    × All (λ d. d.status ≢ open_) cs
listener_never_opens_example =
    listener_never_opens 5000 (header 2 100 0) (datagram 16 ∷ datagram 24 ∷ []) (there listen) refl
      refl refl refl refl (omega arith) refl ((omega arith, refl), ((omega arith, refl), tt))

tcp_connect-receive_segment_example :
    (c' : Connection) × (receive_segment 5000
        (header 18 300 1)
        []
        (tcp_connect 5000 0x0a000002 (there closed))
      ≡ ok c')
    × (c'.status ≡ open_)
    × (c'.seq ≡ 1)
    × (c'.ack ≡ 301)
    × (c'.inqueue ≡ [])
    × (map (λ p. p.header.flags) c'.outqueue ≡ tcp_ack ∷ [])
tcp_connect-receive_segment_example =
    tcp_connect-receive_segment 5000 0x0a000002 (header 18 300 1) (there closed) refl refl refl refl
      (omega arith) refl refl

-- A header that says 60 bytes.
abbrev long_header : TcpHeader
long_header = record (header 16 100 7) { hdrlen = 0xf0 }

receive_segment-tcp_receive_example :
    (c' : Connection) × (receive_segment 5000 long_header (1 ∷ 2 ∷ []) (there open_) ≡ ok c')
    × (tcp_receive 64 c' ≡ panic)
receive_segment-tcp_receive_example =
    receive_segment-tcp_receive 5000 64 long_header (1 ∷ 2 ∷ []) (there open_) refl refl
      (omega arith) (omega arith) refl (omega arith) refl refl
