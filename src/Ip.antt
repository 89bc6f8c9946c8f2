-- ===== src/Ip.antt =====
-- The internet protocol's service, src/progs/common/ip/ip.c: the checksum, the packets that it sends,
-- and those that come in. A block of memory is the list of its bytes.
pub mod Checksum
pub mod Transfer
pub mod Routing
pub mod Arp
pub mod Address
pub mod Pipes
mod Tests
use muxomucota.Base.{
  ℕ, zero, suc, ◌+◌, ◌-◌, ◌*◌, ◌/◌, ◌%◌, ◌^◌, Bool, true, false, not, ◌&&◌, ◌||◌, Option, none,
  some, List, [], ◌∷◌, ◌++◌, length, ◌==◌, ltb, leb, if◌then◌else◌,
}
use muxomucota.Base.Outcome.{Outcome, ok, fault, ◌>>=◌}

-- The loop that adds the words of a block up, with the sum so far.
unfoldable pub sum_words : ℕ → List ℕ → ℕ
sum_words sum [] = sum
sum_words sum (a ∷ []) = (sum + a * 256) % 2 ^ 32
sum_words sum (a ∷ b ∷ r) = sum_words ((sum + (a * 256 + b)) % 2 ^ 32) r

-- The loop that adds the carries; the fuel is given for its rounds.
unfoldable pub fold_carries : ℕ → ℕ → ℕ
fold_carries zero sum = sum
fold_carries (suc fuel) sum =
    let more = fold_carries fuel (sum % 2 ^ 16 + sum / 2 ^ 16) in
    if sum / 2 ^ 16 == 0 then sum else more

-- `calculate_network_checksum`
unfoldable pub calculate_network_checksum : List ℕ → ℕ
unfolding sum_words fold_carries
calculate_network_checksum buffer =
    if ltb (length buffer) 2 then 0 else 2 ^ 16 - 1 - fold_carries 3 (sum_words 0 buffer)

-- `struct ip_header`, with the values that `ntohs` and `ntohl` give.
pub record Header : Type 0 where
  pub hdrlen_version : ℕ
  pub priority : ℕ
  pub total : ℕ
  pub id : ℕ
  pub frag_ofs_flags : ℕ
  pub ttl : ℕ
  pub proto_type : ℕ
  pub checksum : ℕ
  pub src_ip : ℕ
  pub dest_ip : ℕ

-- A number of 16 or 32 bits in the order of the network.
abbrev pub be16 : ℕ → List ℕ → List ℕ
be16 n r = n / 256 % 256 ∷ n % 256 ∷ r

abbrev pub be32 : ℕ → List ℕ → List ℕ
be32 n r = n / 2 ^ 24 % 256 ∷ n / 2 ^ 16 % 256 ∷ n / 256 % 256 ∷ n % 256 ∷ r

-- The bytes of a header, before those that follow it.
abbrev pub header_bytes : Header → List ℕ → List ℕ
header_bytes h r =
    h.hdrlen_version
    ∷ h.priority
    ∷ be16 h.total (
        be16 h.id (
          be16 h.frag_ofs_flags
            (h.ttl ∷ h.proto_type ∷ be16 h.checksum (be32 h.src_ip (be32 h.dest_ip r)))))

-- The header of a packet; there is none in a shorter block.
pub parse_header : List ℕ → Outcome Header
parse_header
      (a ∷ b ∷ c ∷ d ∷ e ∷ f ∷ g ∷ h ∷ i ∷ j ∷ k ∷ l ∷ m ∷ n ∷ o ∷ p ∷ q ∷ r ∷ s ∷ t ∷ rest) =
    ok (record {
      hdrlen_version = a;
      priority = b;
      total = c * 256 + d;
      id = e * 256 + f;
      frag_ofs_flags = g * 256 + h;
      ttl = i;
      proto_type = j;
      checksum = k * 256 + l;
      src_ip = m * 2 ^ 24 + n * 2 ^ 16 + o * 256 + p;
      dest_ip = q * 2 ^ 24 + r * 2 ^ 16 + s * 256 + t;
    })
parse_header short = fault

-- The `n` bytes of a block from `i` on: a copy that reads behind the block has no defined result.
unfoldable pub read_block : ℕ → ℕ → List ℕ → Outcome (List ℕ)
read_block i zero bytes = ok []
read_block i (suc n) [] = fault
read_block zero (suc n) (b ∷ bytes) = read_block zero n bytes >>= λ r. ok (b ∷ r)
read_block (suc i) (suc n) (b ∷ bytes) = read_block i (suc n) bytes

-- `struct packet`, without its length, which is that of its data.
pub record Packet : Type 0 where
  pub src : ℕ
  pub dest : ℕ
  pub protocol : ℕ
  pub ttl : ℕ
  pub content : List ℕ

-- `struct vfs_file`: the interface, if there is one, is its number; `id` is the file's address.
pub record VfsFile : Type 0 where
  pub id : ℕ
  pub ifc_fixed : Bool
  pub ifc : Option ℕ
  pub mac : ℕ
  pub dest : ℕ
  pub protocol : ℕ
  pub ttl : ℕ
  pub owner : ℕ
  pub signal : Bool
  pub inqueue : List Packet

-- The packet that `service_stream_send` makes, for the address of the file's interface.
pub make_packet : ℕ → VfsFile → List ℕ → List ℕ
make_packet my_ip f content =
    let blank : Header = record {
      hdrlen_version = 0x45;
      priority = 0;
      total = (20 + length content) % 2 ^ 16;
      id = 0;
      frag_ofs_flags = 0x4000;
      ttl = f.ttl % 256;
      proto_type = f.protocol % 256;
      checksum = 0;
      src_ip = my_ip;
      dest_ip = f.dest;
    } in
    header_bytes (record blank { checksum = calculate_network_checksum (header_bytes blank []) })
      content

-- `(iph->hdrlen_version & 0xf) * 4`
abbrev pub header_length : Header → ℕ
header_length h = h.hdrlen_version % 16 * 4

-- What `incoming` makes of a packet for one file.
pub deliver_one : Header → List ℕ → VfsFile → Outcome VfsFile
unfolding read_block
deliver_one h bytes f =
    let size = (h.total + 2 ^ 32 - header_length h) % 2 ^ 32 in
    let copied = read_block (header_length h) size bytes >>= λ d. ok (record f {
      inqueue =
          f.inqueue
          ++ (record {
            src = h.src_ip;
            dest = h.dest_ip;
            protocol = h.proto_type;
            ttl = h.ttl;
            content = d;
          }
              ∷ []);
    }) in
    if not (f.dest == h.src_ip) && not (f.dest == 2 ^ 32 - 1) then ok f else copied

-- The loop of `incoming` over the files.
pub deliver : Header → List ℕ → List VfsFile → Outcome (List VfsFile)
unfolding deliver_one
deliver h bytes [] = ok []
deliver h bytes (f ∷ fs) = do f' ← deliver_one h bytes f; fs' ← deliver h bytes fs; ok (f' ∷ fs')

-- `incoming`, for one packet at an interface with the given address; the signals to the files'
-- owners are left out.
pub incoming : ℕ → List ℕ → List VfsFile → Outcome (List VfsFile)
incoming my_ip bytes fs = parse_header bytes >>= λ h.
    if not (h.dest_ip == 2 ^ 32 - 1) && not (h.dest_ip == my_ip)
    then ok fs
    else read_block 0 (header_length h) bytes
      >>= (λ b. if not (calculate_network_checksum b == 0) then ok fs else deliver h bytes fs)

-- `take` of the library, over the native numbers.
abbrev pub take : ℕ → List ℕ → List ℕ
take zero bytes = []
take (suc n) [] = []
take (suc n) (b ∷ bytes) = b ∷ take n bytes

-- `service_stream_recv` that does not wait: the bytes that are copied, and the file.
pub stream_recv : ℕ → VfsFile → List ℕ × VfsFile
stream_recv size f = elim f.inqueue [
  | [] ↦ ([], f)
  | p ∷ ps ↦ (take size p.content, record f { inqueue = ps })
]

-- `service_pipe_set_flag` with F_FLUSH: an empty queue makes it read through the null pointer.
pub flush : ℕ → VfsFile → Outcome VfsFile
flush value f =
    let popped : Outcome VfsFile = elim f.inqueue [
      | [] ↦ fault
      | p ∷ ps ↦ ok (record f { inqueue = ps })
    ] in
    if not (value == 1) then ok f else popped
