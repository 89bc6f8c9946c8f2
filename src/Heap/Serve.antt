-- ===== src/Heap/Serve.antt =====
-- `malloc` hands out a block, and `free` takes it back.
use muxomucota.Base.{
  ℕ, ◌+◌, ◌-◌, ◌%◌, ◌^◌, ◌≤◌, ◌<◌, ◌≡◌, ◌≢◌, ◌↔◌, none, some, List, [], ◌∷◌, ◌==◌, if◌then◌else◌,
  arith, All, inl, inr, ◌⊎◌, subst, sym,
}
use muxomucota.Base.Outcome.{ok}
use muxomucota.Heap.{Block, Heap, round_up, take_fit, malloc, free}
use muxomucota.Heap.Free.{InBlock, Covers, Fits, Apart, Clear, block_at, free_lem}
use muxomucota.Heap.Malloc.{Taken, take_fit_lem}

-- The block ends at or before `top`.
abbrev pub Below : ℕ → List Block → Type 0
Below top bs = All (λ b. b.addr + b.size + 16 ≤ top) bs

-- A heap: free blocks in order with gaps between them, below its end.
pub record IsHeap (h : Heap) : Type 0 where
  pub apart : Apart 0 h.free_blocks
  pub below : Below h.heap_end h.free_blocks
  pub begun : h.heap_end ≢ 0

-- The bytes that are free or that the end of the heap moves over.
abbrev pub Available : Heap → Heap → ℕ → Type 0
Available h h' a = Covers h.free_blocks a ⊎ ((h.heap_end ≤ a) × (a < h'.heap_end))

-- What `malloc` did when it returned `p`.
pub record Served (sz : ℕ) (h : Heap) (p : ℕ) (h' : Heap) : Type 0 where
  pub block : Block
  pub named : block_at p h' ≡ block
  pub large : round_up sz ≤ block.size
  pub behind_header : (16 < p) × (p < 2 ^ 32)
  pub fits : Fits block
  pub clear : Clear block h'.free_blocks
  pub apart : Apart 0 h'.free_blocks
  pub same : (a : ℕ) → Available h h' a ↔ (InBlock block a ⊎ Covers h'.free_blocks a)

Clear-Below : (t : Block) (bs : List Block) → Below t.addr bs → Clear t bs
Clear-Below t [] h = tt
Clear-Below t (b ∷ bs) h = (inr h.0, Clear-Below t bs h.1)

-- The state after a block of the list was handed out.
abbrev reused : Heap → Block → List Block → Heap
reused h g bs' = record h {
  free_blocks = bs';
  sizes = λ a. if g.addr == a then g.size else h.sizes a;
}

Served-reused :
    (sz : ℕ) (h : Heap) (g : Block) (bs' : List Block)
    → Taken (round_up sz) 0 h.free_blocks g bs'
    → Served sz h (g.addr + 16) (reused h g bs')
Served-reused sz h g bs' t =
    let e : g.addr + 16 - 16 ≡ g.addr = omega arith in
    record {
      block = g;
      named = ground (arith, e);
      large = t.large;
      behind_header = omega (arith, t.above, t.fits);
      fits = t.fits;
      clear = t.clear;
      apart = t.apart;
      same = λ a. (
        λ x. elim x [ inl i ↦ (t.same a).0 i | inr j ↦ absurd (omega arith) ],
        λ x. inl ((t.same a).1 x),
      );
    }

-- The state after the end of the heap moved.
abbrev grown : Heap → ℕ → Heap
grown h size = record h {
  sizes = λ a. if h.heap_end == a then size else h.sizes a;
  heap_end = (h.heap_end + (size + 16)) % 2 ^ 32;
}

Served-grown :
    (sz : ℕ) (h : Heap)
    → IsHeap h
    → h.heap_end + round_up sz + 16 < 2 ^ 32
    → Served sz h (h.heap_end + 16) (grown h (round_up sz))
Served-grown sz h v room =
    let size = round_up sz in
    let e : h.heap_end + 16 - 16 ≡ h.heap_end = omega arith in
    record {
      block = record { addr = h.heap_end; size = size };
      named = ground (arith, e);
      large = omega arith;
      behind_header = omega arith;
      fits = room;
      clear = Clear-Below (record { addr = h.heap_end; size = size }) h.free_blocks v.below;
      apart = v.apart;
      same = λ a. (
        λ x. elim x [ inl i ↦ inr i | inr j ↦ inl (omega arith) ],
        λ x. elim x [ inl i ↦ inr (omega arith) | inr j ↦ inl j ],
      );
    }

from_end :
    (sz : ℕ) (h : Heap)
    → take_fit (round_up sz) h.free_blocks ≡ none
    → h.heap_end ≢ 0
    → h.heap_end + 16 < 2 ^ 32
    → malloc sz h ≡ ok (h.heap_end + 16, grown h (round_up sz))
unfolding malloc
from_end sz h e begun room =
    let pointer : (h.heap_end + 16) % 2 ^ 32 ≡ h.heap_end + 16 = omega arith in
    ground (arith, e, pointer, begun)

from_list :
    (sz : ℕ) (h : Heap) (g : Block) (bs' : List Block)
    → take_fit (round_up sz) h.free_blocks ≡ some (g, bs')
    → g.addr + 16 < 2 ^ 32
    → malloc sz h ≡ ok (g.addr + 16, reused h g bs')
unfolding malloc
from_list sz h g bs' e room =
    let pointer : (g.addr + 16) % 2 ^ 32 ≡ g.addr + 16 = omega arith in ground (arith, e, pointer)

round_up-overflow : (sz : ℕ) → 2 ^ 32 - 16 < sz → sz < 2 ^ 32 → round_up sz ≡ 0
round_up-overflow sz lo hi = ground arith

-- From a heap with room at its end `malloc` returns.
pub malloc-Served :
    (sz : ℕ) (h : Heap)
    → IsHeap h
    → h.heap_end + round_up sz + 16 < 2 ^ 32
    → (p : ℕ) × (h' : Heap) × (malloc sz h ≡ ok (p, h')) × Served sz h p h'
unfolding malloc
malloc-Served sz h v room = elim (take_fit_lem (round_up sz) 0 h.free_blocks v.apart) [
  | inl (e, _) ↦ (
    h.heap_end + 16,
    grown h (round_up sz),
    from_end sz h e v.begun (omega arith),
    Served-grown sz h v room,
  )
  | inr (g, bs', e, t) ↦ (
    g.addr + 16,
    reused h g bs',
    from_list sz h g bs' e (omega (arith, t.fits)),
    Served-reused sz h g bs' t,
  )
]

-- From a heap with room at its end `malloc` returns, for a size of at most 2^32 - 16, which its
-- rounding to a multiple of 16 does not wrap around. The block behind the pointer has the size
-- asked for or more, overlaps no free block, and the free blocks lie in order with gaps between
-- them; the bytes that were free or that the end of the heap moved over are those of the block and
-- those still free.
pub malloc_lem :
    (sz : ℕ) (h : Heap)
    → IsHeap h
    → sz ≤ 2 ^ 32 - 16
    → h.heap_end + round_up sz + 16 < 2 ^ 32
    → (p : ℕ) × (h' : Heap) × (malloc sz h ≡ ok (p, h'))
      × Served sz h p h'
      × (sz ≤ (block_at p h').size)
malloc_lem sz h v fits room =
    let (p, h', e, s) = malloc-Served sz h v room in
    let rounded : sz ≤ round_up sz = ground arith in
    let size : sz ≤ s.block.size = omega (arith, s.large) in
    (p, h', e, s, subst (λ (b : Block). sz ≤ b.size) (sym s.named) size)

-- What `malloc` handed out `free` takes back: the bytes that are free are then those that were free
-- before, and those that the end of the heap moved over.
pub free-malloc :
    (sz : ℕ) (h : Heap)
    → IsHeap h
    → h.heap_end + round_up sz + 16 < 2 ^ 32
    → (p : ℕ) × (h' h'' : Heap) × (malloc sz h ≡ ok (p, h'))
      × (free p h' ≡ ok h'')
      × Apart 0 h''.free_blocks
      × ((a : ℕ) → Covers h''.free_blocks a ↔ Available h h' a)
free-malloc sz h v room =
    let (p, h', e, s) = malloc-Served sz h v room in
    let (h'', e', a', cov) =
      free_lem p h' s.behind_header.0 s.behind_header.1 (subst Fits (sym s.named) s.fits)
        (subst (λ (b : Block). Clear b h'.free_blocks) (sym s.named) s.clear) s.apart in
    (
      p,
      h',
      h'',
      e,
      e',
      a',
      λ a. (
        λ x.
            (s.same a).1
              (subst (λ (b : Block). InBlock b a ⊎ Covers h'.free_blocks a) s.named ((cov a).0 x)),
        λ x. (cov a).1 (
            subst (λ (b : Block). InBlock b a ⊎ Covers h'.free_blocks a) (sym s.named)
              ((s.same a).0 x)),
      ),
    )

-- The rounding of a size wraps: `malloc` of a size above 2 ^ 32 - 16 with no free blocks hands out a
-- block of no bytes.
pub malloc_overflow :
    (sz : ℕ) (h : Heap)
    → 2 ^ 32 - 16 < sz
    → sz < 2 ^ 32
    → h.free_blocks ≡ []
    → h.heap_end ≢ 0
    → h.heap_end + 16 < 2 ^ 32
    → (h' : Heap) × (malloc sz h ≡ ok (h.heap_end + 16, h')) × (h'.sizes h.heap_end ≡ 0)
unfolding take_fit
malloc_overflow sz h lo hi none_free begun room =
    let none_fits : take_fit (round_up sz) h.free_blocks ≡ none = rw (none_free, take_fit) in
    (
      grown h (round_up sz),
      from_end sz h none_fits begun room,
      ground (arith, round_up-overflow sz lo hi),
    )
