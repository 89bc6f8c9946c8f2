-- ===== src/Udp.antt =====
-- The user datagram protocol's service, src/progs/common/udp/udp.c. Its functions raw_checksum_calc,
-- calculate_network_checksum, get_ip and get_user_port are, to the letter, those of the transmission
-- control protocol's service.
pub mod Flags
pub mod Transfer
pub mod Paths
mod Tests
use muxomucota.Base.{
  ℕ, zero, suc, ◌+◌, ◌-◌, ◌*◌, ◌/◌, ◌%◌, ◌^◌, Bool, true, false, not, ◌&&◌, ◌||◌, Option, none,
  some, List, [], ◌∷◌, ◌++◌, length, ◌==◌, ltb, leb, if◌then◌else◌,
}
use muxomucota.Base.Outcome.{Outcome, ok, fault, ◌>>=◌}
use muxomucota.Numbers.{strtoll, strtol}
use muxomucota.Ip.{be16, be32, read_block, take}
use muxomucota.Ip.Address.{shift}
use muxomucota.Tcp.{tcp_checksum}
use muxomucota.Tcp.Service.{get_user_port, get_peer_from}
use muxomucota.Tcp.Service.Incoming.{Datagram}

-- `struct udp_header`, with the values that `ntohs` gives.
pub record UdpHeader : Type 0 where
  pub src_port : ℕ
  pub dest_port : ℕ
  pub length : ℕ
  pub checksum : ℕ

-- The bytes of a header, before those that follow it.
abbrev pub udp_bytes : UdpHeader → List ℕ → List ℕ
udp_bytes h r = be16 h.src_port (be16 h.dest_port (be16 h.length (be16 h.checksum r)))

-- The header in a block, and what follows it. What stands in memory behind a shorter block has no
-- defined value.
pub parse_udp : List ℕ → Outcome (UdpHeader × List ℕ)
parse_udp (a ∷ b ∷ c ∷ d ∷ e ∷ f ∷ g ∷ h ∷ rest) = ok (
  record {
    src_port = a * 256 + b;
    dest_port = c * 256 + d;
    length = e * 256 + f;
    checksum = g * 256 + h;
  },
  rest,
)
parse_udp short = fault

-- `struct pseudo_ip_header`
abbrev pub udp_pseudo_header : ℕ → ℕ → ℕ → List ℕ
udp_pseudo_header src_ip dest_ip udp_length =
    be32 src_ip (be32 dest_ip (0 ∷ 0x11 ∷ be16 udp_length []))

-- `calculate_network_checksum`
abbrev pub udp_checksum : List ℕ → List ℕ → ℕ
udp_checksum psip udph = tcp_checksum psip udph

-- `struct packet`
pub record UdpPacket : Type 0 where
  pub src_ip : ℕ
  pub src_port : ℕ
  pub content : List ℕ

-- `struct vfs_file` at the address `id`, without its lock.
pub record UdpFile : Type 0 where
  pub id : ℕ
  pub dest_ip : ℕ
  pub port : ℕ
  pub dest_port : ℕ
  pub owner : ℕ
  pub signal : Bool
  pub inqueue : List UdpPacket

-- The static variables.
pub record UdpService : Type 0 where
  pub connections : List UdpFile
  pub port_counter : ℕ

-- `htonl`
abbrev pub htonl : ℕ → ℕ
htonl n = n % 256 * 2 ^ 24 + n / 256 % 256 * 2 ^ 16 + n / 2 ^ 16 % 256 * 256 + n / 2 ^ 24 % 256

-- The address and the port in the path of a pipe. The port is read from the colon on.
pub udp_peer : (ℕ → ℕ) → Outcome (Option (ℕ × ℕ))
udp_peer relpath = get_peer_from 4 (shift 1 relpath) 0 >>= λ a. elim a [
  | none ↦ ok none
  | some (ip, rest) ↦
      (strtol rest 10 >>= λ v. strtoll rest 10 >>= λ r.
      let negative = v.1 && not (v.2 == 0) in
      ok (if negative || ltb 0xffff v.2 || not (rest r.2 == 0) then none else some (htonl ip, v.2)))
]

-- `service_create_pipe`, for a file at the address `id`: the file, if there is one.
pub udp_create_pipe : ℕ → (ℕ → ℕ) → UdpService → Outcome (Option UdpFile × UdpService)
unfolding udp_peer
udp_create_pipe id relpath s =
    let peer : Outcome (Option (ℕ × ℕ)) =
      if relpath 0 == 0 then ok (some (0, 0)) else udp_peer relpath in
    peer >>= λ o. elim o [
      | none ↦ ok (none, s)
      | some (dest_ip, dest_port) ↦
          let (port, counter) = get_user_port s.port_counter in
          let f : UdpFile = record {
            id = id;
            dest_ip = dest_ip;
            port = port;
            dest_port = dest_port;
            owner = 2 ^ 32 - 1;
            signal = false;
            inqueue = [];
          } in
          ok (some f, record { connections = f ∷ s.connections; port_counter = counter })
    ]

-- The file at an address is taken out of the list.
pub remove_file : ℕ → List UdpFile → List UdpFile
remove_file id [] = []
remove_file id (f ∷ fs) = let rest = remove_file id fs in if f.id == id then fs else f ∷ rest

-- `service_destroy_pipe`
pub udp_destroy_pipe : ℕ → UdpService → UdpService
unfolding remove_file
udp_destroy_pipe id s = record s { connections = remove_file id s.connections }

-- `service_stream_recv` where it does not wait: the bytes, and the file.
pub udp_stream_recv : ℕ → UdpFile → List ℕ × UdpFile
udp_stream_recv size f = elim f.inqueue [
  | [] ↦ ([], f)
  | p ∷ ps ↦ (take size p.content, record f { inqueue = ps })
]

-- The block that `service_stream_send` makes of a content; `my_ip` is the address of the interface.
pub make_datagram : ℕ → List ℕ → UdpFile → List ℕ
make_datagram my_ip content f =
    let n = (8 + length content) % 2 ^ 16 in
    let blank : UdpHeader = record {
      src_port = f.port;
      dest_port = f.dest_port;
      length = n;
      checksum = 0;
    } in
    let psip = udp_pseudo_header my_ip f.dest_ip n in
    udp_bytes (record blank { checksum = udp_checksum psip (udp_bytes blank content) }) content

-- `service_stream_send`; `transmit` says how much of a block the internet protocol's service sends.
-- How much of the content was sent, and the block with its address.
pub udp_stream_send : ℕ → (ℕ → List ℕ → ℕ) → List ℕ → UdpFile → ℕ × ℕ × List ℕ
unfolding make_datagram
udp_stream_send my_ip transmit content f =
    let block = make_datagram my_ip content f in
    let sent = transmit f.dest_ip block in (if ltb 8 sent then sent - 8 else 0, f.dest_ip, block)

-- What `incoming` makes of a datagram for one file. The length that the header gives is read.
pub deliver_datagram : ℕ → UdpHeader → List ℕ → UdpFile → Outcome UdpFile
deliver_datagram src_ip h rest f =
    let taken = read_block 0 ((h.length + 2 ^ 32 - 8) % 2 ^ 32) rest >>= λ content. ok (record f {
      inqueue =
          f.inqueue ++ (record { src_ip = src_ip; src_port = h.src_port; content = content } ∷ []);
    }) in
    if h.dest_port == f.port then taken else ok f

-- The loop of `incoming` over the files.
pub deliver_all : ℕ → UdpHeader → List ℕ → List UdpFile → Outcome (List UdpFile)
unfolding deliver_datagram
deliver_all src_ip h rest [] = ok []
deliver_all src_ip h rest (f ∷ fs) = do
  f' ← deliver_datagram src_ip h rest f
  fs' ← deliver_all src_ip h rest fs
  ok (f' ∷ fs')

-- `incoming`, for one block between two addresses; the signals to owners are left out.
pub udp_incoming : ℕ → ℕ → List ℕ → List UdpFile → Outcome (List UdpFile)
unfolding deliver_all
udp_incoming src_ip dest_ip bytes fs = parse_udp bytes >>= λ s.
    let wrong =
      not (udp_checksum (udp_pseudo_header src_ip dest_ip (length bytes % 2 ^ 16)) bytes == 0) in
    let received = deliver_all src_ip s.0 s.1 fs in
    if not (s.0.checksum == 0) && not (s.0.checksum == 0xffff) && wrong then ok fs else received

-- The loop of `incoming`, for the blocks that there are.
pub udp_incoming_all : List Datagram → List UdpFile → Outcome (List UdpFile)
unfolding udp_incoming
udp_incoming_all [] fs = ok fs
udp_incoming_all (d ∷ ds) fs = do
  fs' ← if d.proto_type == 0x11 then udp_incoming d.src_ip d.dest_ip d.content fs else ok fs
  udp_incoming_all ds fs'
