-- ===== src/Heap/Aligned.antt =====
-- `aligned_alloc` of src/lib/common/stdlib/malloc.c, for an alignment that is a power of two.
use muxomucota.Base.{
  ℕ, ◌+◌, ◌-◌, ◌%◌, ◌^◌, ◌≤◌, ◌<◌, ◌≡◌, not, ◌&&◌, Option, none, some, List, [], ◌∷◌, leb, ltb,
  ◌==◌, if◌then◌else◌, arith,
}
use muxomucota.Base.Outcome.{Outcome, ok, ◌>>=◌, ◌>>◌, kassert}
use muxomucota.Heap.{Block, Heap, round_up, take_fit, malloc, free}

-- A difference of sizes, in 32 bits.
abbrev pub minus : ℕ → ℕ → ℕ
minus a b = (a + 2 ^ 32 - b) % 2 ^ 32

-- What lies between the header of the block at `t` and the aligned memory, and another alignment
-- if a header and 16 bytes do not fit in between.
abbrev pub align_space : ℕ → ℕ → ℕ
align_space align t =
    let a = align - t % align in if not (a == 16) && ltb a 48 then (a + align) % 2 ^ 32 else a

-- A place for the memory: the block to hand out, what becomes of the list of free blocks, and the
-- blocks that go back to it afterwards.
pub record Place : Type 0 where
  pub given : Block
  pub kept : List Block
  pub back : List Block

-- The block `b`, followed by `bs`, is large enough: it is cut up. If it is aligned it stays in the
-- list all the same.
pub cut_up : ℕ → ℕ → Block → List Block → Place
cut_up align size b bs =
    let a = align_space align b.addr in
    let here : Block = record b { size = size } in
    let start = minus ((b.addr + a) % 2 ^ 32) 16 in
    let before : Block = record b { size = minus a 32 } in
    let behind = (b.addr + 16 + size) % 2 ^ 32 in
    let rest_of_b : Block = record { addr = behind; size = minus (minus b.size size) 16 } in
    let far : Block = record {
      addr = (start + 16 + size) % 2 ^ 32;
      size = minus (minus b.size a) size;
    } in
    if a == 16
    then if leb 32 (minus b.size size)
      then record { given = here; kept = here ∷ bs; back = rest_of_b ∷ [] }
      else record { given = b; kept = b ∷ bs; back = [] }
    else if ltb (minus (minus b.size a) size) 16
    then record {
      given = record { addr = start; size = (minus b.size a + 16) % 2 ^ 32 };
      kept = before ∷ bs;
      back = [];
    }
    else record {
      given = record { addr = start; size = size };
      kept = before ∷ bs;
      back = far ∷ [];
    }

-- The loop for a block that is large enough.
pub find_place : ℕ → ℕ → List Block → Option Place
unfolding cut_up
find_place align size [] = none
find_place align size (b ∷ bs) =
    let later = find_place align size bs in
    if leb ((align_space align b.addr + size) % 2 ^ 32) b.size
    then some (cut_up align size b bs)
    else elim later [ none ↦ none | some p ↦ some (record p { kept = b ∷ p.kept }) ]

-- The memory from `t` on that `sbrk` gave, cut up.
pub new_place : ℕ → ℕ → ℕ → List Block → Place
new_place align size t bs =
    let bsize = (size + 48 + align) % 2 ^ 32 in
    let a = align_space align t in
    let start = minus ((t + a) % 2 ^ 32) 16 in
    let before : Block = record { addr = t; size = minus a 32 } in
    let left = minus (minus bsize a) size in
    let behind : Block = record {
      addr = (t + size + 16) % 2 ^ 32;
      size = minus (minus bsize size) 32;
    } in
    let far : Block = record { addr = (start + size + 16) % 2 ^ 32; size = minus left 16 } in
    if a == 16
    then if leb 48 (minus bsize size)
      then record { given = record { addr = t; size = minus bsize 16 }; kept = bs; back = [] }
      else record { given = record { addr = t; size = size }; kept = bs; back = behind ∷ [] }
    else if ltb left 32
    then record {
      given = record { addr = start; size = minus bsize a };
      kept = bs;
      back = before ∷ [];
    }
    else record {
      given = record { addr = start; size = size };
      kept = bs;
      back = before ∷ far ∷ [];
    }

-- The header of a block gets its size.
abbrev pub label : Block → Heap → Heap
label b h = record h { sizes = λ a. if b.addr == a then b.size else h.sizes a }

-- The calls of `free` at the end.
pub give_back : List Block → Heap → Outcome Heap
unfolding free
give_back [] h = ok h
give_back (b ∷ bs) h = free ((b.addr + 16) % 2 ^ 32) (label b h) >>= λ h'. give_back bs h'

-- `aligned_alloc`
pub aligned_alloc : ℕ → ℕ → Heap → Outcome (ℕ × Heap)
unfolding find_place new_place give_back
aligned_alloc alignment sz h =
    let align = if ltb alignment 16 then 16 else alignment in
    let size = round_up sz in
    let finish = λ (p : Place) (g : Heap).
      give_back p.back (label p.given (record g { free_blocks = p.kept }))
      >>= (λ h'. ok ((p.given.addr + 16) % 2 ^ 32, h')) in
    let grown = record h { heap_end = (h.heap_end + (size + 48 + align)) % 2 ^ 32 } in
    elim (find_place align size h.free_blocks) [
      | some p ↦ finish p h
      | none ↦
          kassert (not (h.heap_end == 0))
          >> finish (new_place align size h.heap_end h.free_blocks) grown
    ]

-- A first free block whose memory is aligned already, and that is large enough but not by 32 bytes,
-- is handed out by `aligned_alloc` and by the next `malloc` of the size once more: the same memory
-- has two owners. The size is a multiple of 16 here, and not 0.
pub malloc-aligned_alloc :
    (align sz : ℕ) (h : Heap) (b : Block) (bs : List Block)
    → h.free_blocks ≡ b ∷ bs
    → 16 ≤ align
    → align - b.addr % align ≡ 16
    → sz % 16 ≡ 0
    → 0 < sz
    → sz + 16 ≤ b.size
    → b.size - sz < 32
    → b.addr + b.size + 16 < 2 ^ 32
    → (h' h'' : Heap) × (aligned_alloc align sz h ≡ ok (b.addr + 16, h'))
      × (malloc sz h' ≡ ok (b.addr + 16, h''))
unfolding aligned_alloc malloc take_fit
malloc-aligned_alloc align sz h b bs first_block large_align aligned unit some_size large whole
      fits =
    let h' = label b h in
    let exact : round_up sz ≡ sz = ground arith in
    let found : find_place align sz (b ∷ bs)
        ≡ some (record { given = b; kept = b ∷ bs; back = [] }) =
      ground arith in
    let again : take_fit sz (b ∷ bs) ≡ some (b, bs) = ground arith in
    (
      h',
      label b (record h' { free_blocks = bs }),
      ground (arith, first_block, exact, found),
      ground (arith, exact, again),
    )
