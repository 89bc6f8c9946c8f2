-- ===== src/Heap/Tests.antt =====
-- Runs of the heap of a user process, and its theorems at concrete heaps.
use muxomucota.Base.{
  ℕ, ◌%◌, ◌≤◌, ◌≡◌, ◌↔◌, [], ◌∷◌, arith, ◌==◌, if◌then◌else◌, refl, ◌⊎◌, inl, inr,
}
use muxomucota.Base.Outcome.{ok, fault}
use muxomucota.Heap.{Heap, malloc, join_memory, insert, free}
use muxomucota.Heap.Free.{InBlock, Covers, Apart, Clear, block_at, free_lem}
use muxomucota.Heap.Realloc.{realloc}
use muxomucota.Heap.Realloc.Moves.{InUse, bytes_at, realloc_lem}
use muxomucota.Heap.Serve.{IsHeap, Available, Served, malloc_lem, free-malloc}

-- Free blocks of 64 and 16 bytes, and a used one of 32 bytes right behind the first.
abbrev sample : Heap
sample = record {
  free_blocks = record { addr = 0x1000; size = 64 } ∷ record { addr = 0x1080; size = 16 } ∷ [];
  sizes = λ a. if a == 0x1050 then 32 else 0;
  heap_end = 0x2000;
}

sample-IsHeap : IsHeap sample
sample-IsHeap = record {
  apart = (omega arith, omega arith, (omega arith, omega arith, tt));
  below = (omega arith, (omega arith, tt));
  begun = omega arith;
}

-- The block that is freed closes the gap between the two others.
free-joins :
    free 0x1060 sample
    ≡ ok (record sample { free_blocks = record { addr = 0x1000; size = 144 } ∷ [] })
unfolding free insert join_memory
free-joins = refl

free_twice : free 0x1010 sample ≡ fault
unfolding free insert
free_twice = refl

malloc_lem_example :
    (p : ℕ) × (h' : Heap) × (malloc 10 sample ≡ ok (p, h'))
    × Served 10 sample p h'
    × (10 ≤ (block_at p h').size)
malloc_lem_example = malloc_lem 10 sample sample-IsHeap (omega arith) (omega arith)

free-malloc_example :
    (p : ℕ) × (h' h'' : Heap) × (malloc 100 sample ≡ ok (p, h'))
    × (free p h' ≡ ok h'')
    × Apart 0 h''.free_blocks
    × ((a : ℕ) → Covers h''.free_blocks a ↔ Available sample h' a)
free-malloc_example = free-malloc 100 sample sample-IsHeap (omega arith)

free_lem_example :
    (h' : Heap) × (free 0x1060 sample ≡ ok h')
    × Apart 0 h'.free_blocks
    × ((a : ℕ)
        → Covers h'.free_blocks a
          ↔ (InBlock (block_at 0x1060 sample) a ⊎ Covers sample.free_blocks a))
free_lem_example =
    free_lem 0x1060 sample (omega arith) (omega arith) (omega arith)
      (inr (omega arith), (inl (omega arith), tt)) sample-IsHeap.apart

-- The used block gets twice its size.
used-InUse : InUse (block_at 0x1060 sample) sample
used-InUse = record {
  above = omega arith;
  fits = omega arith;
  clear = (inr (omega arith), (inl (omega arith), tt));
  below = omega arith;
}

realloc_lem_example :
    (p : ℕ) × (h' : Heap) × (m' : ℕ → ℕ) × (realloc 0x1060 64 sample (λ a. a % 256)
      ≡ ok (p, h', m'))
    × (64 ≤ (block_at p h').size)
    × Clear (block_at p h') h'.free_blocks
    × Apart 0 h'.free_blocks
    × (bytes_at m' p 32 ≡ bytes_at (λ a. a % 256) 0x1060 32)
    × ((p ≡ 0x1060) ⊎ ((a : ℕ) → InBlock (block_at 0x1060 sample) a → Covers h'.free_blocks a))
realloc_lem_example =
    realloc_lem 0x1060 64 sample (λ a. a % 256) sample-IsHeap (omega arith) used-InUse (omega arith)
      (omega arith)
