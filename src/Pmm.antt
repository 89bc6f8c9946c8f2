-- ===== src/Pmm.antt =====
-- The allocator of physical page frames, src/kernel/common/memory/pmm.c: one byte for each frame,
-- with the number of its users in the low seven bits and the copy-on-write flag in the eighth.
pub mod Inv
pub mod Alloc
pub mod Share
pub mod Users
pub mod Leak
pub mod Boot
mod Tests
pub mod Advanced
use muxomucota.Base.{
  ℕ, zero, suc, ◌+◌, ◌-◌, ◌*◌, ◌/◌, ◌%◌, ◌^◌, Bool, true, false, ◌&&◌, not, List, [], ◌∷◌, ltb, leb,
  ◌==◌, if◌then◌else◌, none, some, get_elem?, get_or, set,
}
use muxomucota.Base.Outcome.{Outcome, ok, panic, fault, ◌>>=◌, ◌>>◌, kassert}

abbrev pub page_size : ℕ
page_size = 4096

-- BITMAP_COW_FLAG
abbrev pub cow_flag : ℕ
cow_flag = 128

-- `b & BITMAP_USERS`
abbrev pub users : ℕ → ℕ
users b = b % 128

-- `!!(b & BITMAP_COW_FLAG)`, for a byte `b`
abbrev pub cow : ℕ → Bool
cow b = leb 128 b

-- The file's static variables.
pub record Pmm : Type 0 where
  pub mem_base : ℕ
  pub mem_entries : ℕ
  pub bitmap : List ℕ
  pub look_from_here : ℕ

-- `(paddr - mem_base) >> PAGE_SHIFT`, the difference in 32 bits.
abbrev pub frame_index : Pmm → ℕ → ℕ
frame_index s paddr = (paddr + 2 ^ 32 - s.mem_base) % 2 ^ 32 / page_size

-- `mem_base + ((uintptr_t)i << PAGE_SHIFT)` in 32 bits.
abbrev pub frame_addr : Pmm → ℕ → ℕ
frame_addr s i = (s.mem_base + i * page_size) % 2 ^ 32

-- A read of `bitmap[i]`.
abbrev pub entry : List ℕ → ℕ → Outcome ℕ
entry bm i = elim (get_elem? bm i) [ none ↦ fault | some b ↦ ok b ]

-- A run of the allocator is given what other processors do: the head of the list says whether one
-- of them takes the frame between the test of its byte and `__sync_fetch_and_add`.
abbrev pub lost : List Bool → Bool
lost [] = false
lost (b ∷ race) = b

abbrev pub rest : List Bool → List Bool
rest [] = []
rest (b ∷ race) = race

-- `__sync_fetch_and_add(&bitmap[i], 1)`: the old byte, the races to come, and the bytes after it.
pub fetch_add : List Bool → List ℕ → ℕ → ℕ × List Bool × List ℕ
fetch_add race bm i =
    let b = get_or bm i 0 in
    let old = if lost race then (b + 1) % 256 else b in (old, rest race, set bm i ((old + 1) % 256))

-- `bitmap[i]--` on a `uint8_t`
pub decrement : List ℕ → ℕ → List ℕ
decrement bm i = set bm i ((get_or bm i 0 + 255) % 256)

-- The loop of `pmm_alloc` with `n` entries to go, at index `i`.
pub alloc_loop : ℕ → ℕ → Bool → List Bool → Pmm → Outcome (ℕ × Pmm)
unfolding fetch_add decrement
alloc_loop zero i first race s = panic
alloc_loop (suc n) i first race s =
    let taken = λ (b : ℕ). alloc_loop n (suc i) first race s in
    let (old, race', bm) = fetch_add race s.bitmap i in
    let won = ok (
      frame_addr s i,
      record s { bitmap = bm; look_from_here = if first then i else s.look_from_here },
    ) in
    let again = alloc_loop n (suc i) false race' (record s { bitmap = decrement bm i }) in
    entry s.bitmap i >>= λ b. if b == 0 then if old == 0 then won else again else taken b

-- `pmm_alloc`
unfoldable pub alloc : List Bool → Pmm → Outcome (ℕ × Pmm)
unfolding alloc_loop
alloc race s = alloc_loop (s.mem_entries - s.look_from_here) s.look_from_here true race s

-- The test of the address that the functions below begin with.
abbrev pub aligned : ℕ → Bool
aligned paddr = paddr % page_size == 0

-- `pmm_free`
pub free : ℕ → Pmm → Outcome Pmm
free paddr s = do
  kassert (aligned paddr)
  let base = frame_index s paddr
  b ← entry s.bitmap base
  kassert (not (users b == 0))
  ok (record s {
    bitmap = set s.bitmap base (b - 1);
    look_from_here = if b - 1 == 0 && ltb base s.look_from_here then base else s.look_from_here;
  })

-- `pmm_use`; the second assertion keeps the increment out of the flag.
pub pmm_use : ℕ → Pmm → Outcome Pmm
pmm_use paddr s = do
  kassert (aligned paddr)
  let base = frame_index s paddr
  b ← entry s.bitmap base
  kassert (not (users b == 0))
  kassert (ltb (users b) 127)
  ok (record s { bitmap = set s.bitmap base (b + 1) })

-- `pmm_user_count`
pub user_count : ℕ → Pmm → Outcome ℕ
user_count paddr s = do
  kassert (aligned paddr)
  b ← entry s.bitmap (frame_index s paddr)
  ok (users b)

-- `pmm_alloced`
pub alloced : ℕ → Pmm → Outcome Bool
unfolding user_count
alloced paddr s = do n ← user_count paddr s; ok (not (n == 0) && ltb n 127)

-- `pmm_mark_cow`
pub mark_cow : ℕ → Bool → Pmm → Outcome Pmm
mark_cow paddr flag s = do
  kassert (aligned paddr)
  let base = frame_index s paddr
  b ← entry s.bitmap base
  kassert (not (users b == 0))
  ok (record s { bitmap = set s.bitmap base (if flag then users b + cow_flag else users b) })

-- `pmm_is_cow`
pub is_cow : ℕ → Pmm → Outcome Bool
is_cow paddr s = do
  kassert (aligned paddr)
  b ← entry s.bitmap (frame_index s paddr)
  kassert (not (users b == 0))
  ok (cow b)
