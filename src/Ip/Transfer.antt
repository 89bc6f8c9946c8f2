-- ===== src/Ip/Transfer.antt =====
-- Packets on their way from `service_stream_send` to `incoming`.
use muxomucota.Base.{
  ℕ, zero, suc, ◌+◌, ◌-◌, ◌%◌, ◌^◌, ◌<◌, ◌≡◌, ◌≢◌, ◌||◌, List, [], ◌∷◌, ◌++◌, length, map, arith,
  refl, ◌==◌, if◌then◌else◌, ◌∙◌, ap, ◌⊎◌,
}
use muxomucota.Base.Outcome.{ok, fault}
use muxomucota.Ip.{
  calculate_network_checksum, Header, header_bytes, parse_header, read_block, Packet, VfsFile,
  make_packet, header_length, deliver_one, deliver, incoming,
}
use muxomucota.Ip.Checksum.{Fits, Fits-checksum, checksum-header}

parse_header-header_bytes :
    (h : Header) (r : List ℕ) → Fits h → parse_header (header_bytes h r) ≡ ok h
unfolding parse_header
parse_header-header_bytes h r f = ground arith

pub read_block_all : (bs : List ℕ) → read_block 0 (length bs) bs ≡ ok bs
unfolding read_block
read_block_all [] = refl
read_block_all (b ∷ bs) = ground (arith, read_block_all bs)

read_block_header :
    (h : Header) (r : List ℕ) → read_block 0 20 (header_bytes h r) ≡ ok (header_bytes h [])
unfolding read_block
read_block_header h r = refl

read_block_behind :
    (h : Header) (n : ℕ) (r : List ℕ) → read_block 20 n (header_bytes h r) ≡ read_block 0 n r
unfolding read_block
read_block_behind h zero r = refl
read_block_behind h (suc n) r = refl

-- The packet that comes out of a header and data.
abbrev pub packet_of : Header → List ℕ → Packet
packet_of h d = record {
  src = h.src_ip;
  dest = h.dest_ip;
  protocol = h.proto_type;
  ttl = h.ttl;
  content = d;
}

-- A file behind the arrival of a packet: one that is connected to the source, or to all, has it at
-- the end of its queue.
abbrev pub received : Packet → VfsFile → VfsFile
received p f =
    if f.dest == p.src || f.dest == 2 ^ 32 - 1
    then record f { inqueue = f.inqueue ++ (p ∷ []) }
    else f

deliver-received :
    (h : Header) (bytes d : List ℕ) (fs : List VfsFile)
    → read_block (header_length h) ((h.total + 2 ^ 32 - header_length h) % 2 ^ 32) bytes ≡ ok d
    → deliver h bytes fs ≡ ok (map (received (packet_of h d)) fs)
unfolding deliver deliver_one
deliver-received h bytes d [] e = refl
deliver-received h bytes d (f ∷ fs) e = ground (arith, e, deliver-received h bytes d fs e)

incoming-header :
    (my_ip : ℕ) (h : Header) (content : List ℕ) (fs : List VfsFile)
    → Fits h
    → h.hdrlen_version ≡ 0x45
    → h.dest_ip ≡ my_ip
    → calculate_network_checksum (header_bytes h []) ≡ 0
    → incoming my_ip (header_bytes h content) fs ≡ deliver h (header_bytes h content) fs
unfolding incoming
incoming-header my_ip h content fs f v d c =
    let e : header_length h ≡ 20 = omega arith in
    rw (parse_header-header_bytes h content f, e, read_block_header h content, c) (ground arith)

-- A file is connected to the address of an interface, and sends data that fits into a packet:
-- `incoming` at that interface accepts the packet. Every file there that is connected to the
-- sender, or to all, gets the data at the end of its queue, with the addresses, the protocol and the
-- time to live of the sender; no other file changes.
pub incoming-make_packet :
    (my_ip their_ip : ℕ) (f : VfsFile) (content : List ℕ) (fs : List VfsFile)
    → my_ip < 2 ^ 32
    → their_ip < 2 ^ 32
    → f.dest ≡ their_ip
    → f.ttl < 256
    → f.protocol < 256
    → 20 + length content < 2 ^ 16
    → incoming their_ip (make_packet my_ip f content) fs
      ≡ ok (
          map
            (received (record {
              src = my_ip;
              dest = their_ip;
              protocol = f.protocol;
              ttl = f.ttl;
              content = content;
            }))
            fs)
unfolding make_packet
incoming-make_packet my_ip their_ip f content fs a b to t p l =
    let blank : Header = record {
      hdrlen_version = 0x45;
      priority = 0;
      total = (20 + length content) % 2 ^ 16;
      id = 0;
      frag_ofs_flags = 0x4000;
      ttl = f.ttl % 256;
      proto_type = f.protocol % 256;
      checksum = 0;
      src_ip = my_ip;
      dest_ip = f.dest;
    } in
    let fits : Fits blank = omega arith in
    let (small, zeroed) = checksum-header blank fits (omega arith) refl in
    let h : Header = record blank {
      checksum = calculate_network_checksum (header_bytes blank []);
    } in
    let fits' : Fits h = Fits-checksum blank _ fits small in
    let size : (h.total + 2 ^ 32 - 20) % 2 ^ 32 ≡ length content = omega arith in
    let read : read_block 20 ((h.total + 2 ^ 32 - 20) % 2 ^ 32) (header_bytes h content)
        ≡ ok content =
      rw size (read_block_behind h (length content) content ∙ read_block_all content) in
    let same : packet_of h content ≡ record {
      src = my_ip;
      dest = their_ip;
      protocol = f.protocol;
      ttl = f.ttl;
      content = content;
    } =
      ground arith in
    incoming-header their_ip h content fs fits' refl to zeroed
    ∙ deliver-received h (header_bytes h content) content fs read
    ∙ ap (λ (q : Packet). ok (map (received q) fs)) same

pub read_block_short :
    (i n : ℕ) (bs : List ℕ) → n ≢ 0 → length bs < i + n → read_block i n bs ≡ fault
unfolding read_block
read_block_short i zero bs nz h = absurd (nz refl)
read_block_short zero (suc n) [] nz h = refl
read_block_short (suc i) (suc n) [] nz h = refl
read_block_short zero (suc zero) (b ∷ bs) nz h = absurd (omega arith)
read_block_short zero (suc (suc n)) (b ∷ bs) nz h =
    ground (arith, read_block_short zero (suc n) bs (λ z. omega arith))
read_block_short (suc i) (suc n) (b ∷ bs) nz h = read_block_short i (suc n) bs nz (omega arith)

deliver_fault :
    (h : Header) (bytes : List ℕ) (fs gs : List VfsFile) (f : VfsFile)
    → read_block (header_length h) ((h.total + 2 ^ 32 - header_length h) % 2 ^ 32) bytes ≡ fault
    → f.dest ≡ h.src_ip
    → deliver h bytes (fs ++ (f ∷ gs)) ≡ fault
unfolding deliver deliver_one
deliver_fault h bytes [] gs f e to = ground (arith, e)
deliver_fault h bytes (g ∷ fs) gs f e to = ground (arith, e, deliver_fault h bytes fs gs f e to)

-- A packet with a sound header for the interface, from an address that a file is connected to,
-- whose length field is below the length of the header or above that of the packet: `incoming` reads
-- behind the packet.
pub incoming_overread :
    (my_ip : ℕ) (h : Header) (content : List ℕ) (fs gs : List VfsFile) (f : VfsFile)
    → Fits h
    → h.hdrlen_version ≡ 0x45
    → h.dest_ip ≡ my_ip
    → calculate_network_checksum (header_bytes h []) ≡ 0
    → f.dest ≡ h.src_ip
    → length content < 2 ^ 31
    → (h.total < 20) ⊎ (20 + length content < h.total)
    → incoming my_ip (header_bytes h content) (fs ++ (f ∷ gs)) ≡ fault
incoming_overread my_ip h content fs gs f fits v d c to l wrong =
    let e : header_length h ≡ 20 = omega arith in
    let size : (h.total + 2 ^ 32 - 20) % 2 ^ 32 ≢ 0 = λ z. omega arith in
    let far : length content < (h.total + 2 ^ 32 - 20) % 2 ^ 32 = omega arith in
    let r : read_block (header_length h) ((h.total + 2 ^ 32 - header_length h) % 2 ^ 32)
          (header_bytes h content)
        ≡ fault =
      rw e
        (read_block_behind h _ content ∙ read_block_short 0 _ content size (omega (arith, far))) in
    incoming-header my_ip h content (fs ++ (f ∷ gs)) fits v d c
    ∙ deliver_fault h (header_bytes h content) fs gs f r to

-- A packet whose header says that it has no words is accepted whatever its checksum is: the checksum
-- of no bytes is 0. The header itself is taken for data.
pub incoming_unchecked :
    (my_ip : ℕ) (h : Header) (content : List ℕ) (fs : List VfsFile)
    → Fits h
    → h.hdrlen_version % 16 ≡ 0
    → h.dest_ip ≡ my_ip
    → h.total ≡ 20 + length content
    → incoming my_ip (header_bytes h content) fs
      ≡ ok (map (received (packet_of h (header_bytes h content))) fs)
unfolding incoming read_block calculate_network_checksum
incoming_unchecked my_ip h content fs fits v d t =
    let e : header_length h ≡ 0 = omega arith in
    let size : (h.total + 2 ^ 32 - 0) % 2 ^ 32 ≡ length (header_bytes h content) = omega arith in
    let r : read_block (header_length h) ((h.total + 2 ^ 32 - header_length h) % 2 ^ 32)
          (header_bytes h content)
        ≡ ok (header_bytes h content) =
      rw e (rw size (read_block_all (header_bytes h content))) in
    let p = parse_header-header_bytes h content fits in
    rw (p, e)
      (ground (arith, deliver-received h (header_bytes h content) (header_bytes h content) fs r))
