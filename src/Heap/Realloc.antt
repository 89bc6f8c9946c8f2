-- ===== src/Heap/Realloc.antt =====
-- Blocks that are moved or cleared: src/lib/common/stdlib/realloc.c and calloc.c. The bytes behind the
-- headers are a memory of their own.
pub mod Moves
use muxomucota.Base.{ℕ, ◌+◌, ◌-◌, ◌*◌, ◌%◌, ◌^◌, leb, ◌==◌, if◌then◌else◌}
use muxomucota.Base.Outcome.{Outcome, ok, ◌>>=◌}
use muxomucota.Strings.{memcpy, memset}
use muxomucota.Heap.{Heap, malloc, free}

-- The part of `realloc` behind the comparison of the sizes: another block, unless `malloc` gives
-- none.
pub move : ℕ → ℕ → ℕ → Heap → (ℕ → ℕ) → Outcome (ℕ × Heap × (ℕ → ℕ))
move ptr osize size h m = malloc size h >>= λ r.
    let moved = free ptr r.1 >>= λ h'. ok (r.0, h', memcpy m r.0 ptr osize) in
    if r.0 == 0 then ok (0, r.1, m) else moved

-- `realloc`
pub realloc : ℕ → ℕ → Heap → (ℕ → ℕ) → Outcome (ℕ × Heap × (ℕ → ℕ))
unfolding move
realloc ptr size h m =
    let osize = h.sizes ((ptr + 2 ^ 32 - 16) % 2 ^ 32) in
    if ptr == 0
    then malloc size h >>= (λ r. ok (r.0, r.1, m))
    else if size == 0
    then free ptr h >>= (λ h'. ok (0, h', m))
    else if leb size osize
    then ok (ptr, h, m)
    else move ptr osize size h m

-- `calloc`
pub calloc : ℕ → ℕ → Heap → (ℕ → ℕ) → Outcome (ℕ × Heap × (ℕ → ℕ))
calloc nmemb size h m =
    let all = nmemb * size % 2 ^ 32 in malloc all h >>= λ r. ok (r.0, r.1, memset m r.0 0 all)
