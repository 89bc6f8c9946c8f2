-- ===== src/Heap.antt =====
-- The heap of a user process: src/lib/common/stdlib/malloc.c, free.c and realloc.c. Addresses and
-- sizes are 32 bits wide.
pub mod Free
pub mod Malloc
pub mod Serve
pub mod Aligned
pub mod Realloc
mod Tests
use muxomucota.Base.{
  ℕ, zero, suc, ◌+◌, ◌-◌, ◌*◌, ◌/◌, ◌%◌, ◌^◌, not, Option, none, some, List, [], ◌∷◌, leb, ltb,
  ◌==◌, if◌then◌else◌,
}
use muxomucota.Base.Outcome.{Outcome, ok, fault, ◌>>=◌, ◌>>◌, kassert}

-- `struct free_block` at the address `addr`: a header of 16 bytes, and `size` bytes behind it. The
-- list of free blocks is that of the `next` pointers from `__first_free` on.
pub record Block : Type 0 where
  pub addr : ℕ
  pub size : ℕ

-- The list of free blocks, the `size` fields of the headers in use, and the end of the heap, from
-- which `sbrk` takes.
pub record Heap : Type 0 where
  pub free_blocks : List Block
  pub sizes : ℕ → ℕ
  pub heap_end : ℕ

-- `(uintptr_t)b + b->size + 16`
abbrev pub end_of : Block → ℕ
end_of b = (b.addr + b.size + 16) % 2 ^ 32

-- The size that `malloc` looks for.
abbrev pub round_up : ℕ → ℕ
round_up sz = if sz == 0 then 16 else if sz % 16 == 0 then sz else (sz + 15) % 2 ^ 32 / 16 * 16

-- The loop of `malloc`: the first block that is large enough, with its size then, and the list
-- without it. What is left of a block of 32 bytes or more over stays in the list.
pub take_fit : ℕ → List Block → Option (Block × List Block)
take_fit sz [] = none
take_fit sz (b ∷ bs) =
    let later = take_fit sz bs in
    let part : Block = record { addr = b.addr; size = sz } in
    let remains : Block = record { addr = (b.addr + sz + 16) % 2 ^ 32; size = b.size - sz - 16 } in
    if leb sz b.size
    then if ltb (b.size - sz) 32 then some (b, bs) else some (part, remains ∷ bs)
    else elim later [ none ↦ none | some r ↦ some (r.0, b ∷ r.1) ]

-- `malloc`. Where no block fits, `sbrk` moves the end of the heap and gives the old one; the
-- assertion stops at the null pointer.
pub malloc : ℕ → Heap → Outcome (ℕ × Heap)
malloc sz h =
    let size = round_up sz in
    let new = record h {
      sizes = λ a. if h.heap_end == a then size else h.sizes a;
      heap_end = (h.heap_end + (size + 16)) % 2 ^ 32;
    } in
    elim (take_fit size h.free_blocks) [
      | some r ↦ ok (
        (r.0.addr + 16) % 2 ^ 32,
        record h { free_blocks = r.1; sizes = λ a. if r.0.addr == a then r.0.size else h.sizes a },
      )
      | none ↦ kassert (not (h.heap_end == 0)) >> ok ((h.heap_end + 16) % 2 ^ 32, new)
    ]

-- The loop of `join_memory` at the block `c`: overlapping blocks are a fault (the code writes to
-- the null pointer), adjacent ones are joined.
pub join_from : Block → List Block → Outcome (List Block)
join_from c [] = ok (c ∷ [])
join_from c (n ∷ r) =
    let joined = join_from (record c { size = (c.size + (n.size + 16)) % 2 ^ 32 }) r in
    let apart = join_from n r >>= λ l. ok (c ∷ l) in
    if ltb n.addr (end_of c) then fault else if end_of c == n.addr then joined else apart

-- `join_memory`
pub join_memory : List Block → Outcome (List Block)
unfolding join_from
join_memory [] = ok []
join_memory (c ∷ r) = join_from c r

-- The search of `free` for the place of the block `t`; that it is free already is a fault.
pub insert : Block → List Block → Outcome (List Block)
insert t [] = ok (t ∷ [])
insert t (b ∷ bs) =
    let later = insert t bs >>= λ l. ok (b ∷ l) in
    if ltb b.addr t.addr then later else if b.addr == t.addr then fault else ok (t ∷ b ∷ bs)

-- `free`
pub free : ℕ → Heap → Outcome Heap
free ptr h =
    let a = (ptr + 2 ^ 32 - 16) % 2 ^ 32 in
    if ptr == 0
    then ok h
    else insert (record { addr = a; size = h.sizes a }) h.free_blocks >>= λ l.
        join_memory l >>= λ l'. ok (record h { free_blocks = l' })
