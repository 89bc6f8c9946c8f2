-- ===== src/Pmm/Advanced.antt =====
-- `pmm_alloc_advanced`: consecutive frames at an aligned address.
pub mod Run
pub mod Limits
use muxomucota.Base.{
  ℕ, zero, suc, ◌+◌, ◌-◌, ◌*◌, ◌/◌, ◌%◌, ◌^◌, ◌≤◌, ◌<◌, ◌≡◌, ◌≢◌, Bool, true, false, not, ◌&&◌,
  List, [], get_or, set, get_or-set, length, length-set, arith, if◌then◌else◌, ◌==◌, ltb,
  Bool-cases, inl, inr, ◌⊎◌, refl, ap, ◌∙◌, ℕ_discrete, dec_lt, subst,
}
use muxomucota.Base.Outcome.{Outcome, ok, panic, fault, ◌>>=◌, ok-injective}
use muxomucota.Pmm.{Pmm, page_size, frame_addr, entry, fetch_add, decrement}

-- The test of `bitmap[k]` and the `n - 1` bytes after it.
pub all_free : ℕ → ℕ → List ℕ → Outcome Bool
all_free zero k bm = ok true
all_free (suc n) k bm = entry bm k >>= λ b. if b == 0 then all_free n (suc k) bm else ok false

-- Whether the frames from `i` on are free; the first is tested whatever their number.
pub open_run : ℕ → ℕ → List ℕ → Outcome Bool
unfolding all_free
open_run frames i bm =
    entry bm i >>= λ b. if b == 0 then all_free (frames - 1) (suc i) bm else ok false

-- `bitmap[i + k]--` for the `n` bytes from the index `k` on
pub release : ℕ → ℕ → List ℕ → List ℕ
unfolding decrement
release zero k bm = bm
release (suc n) k bm = release n (suc k) (decrement bm k)

-- The loop that takes the frames from `i` on, `j` of them already taken and `n` to go. If another
-- processor was faster it gives all back.
pub take_all : ℕ → ℕ → ℕ → List Bool → List ℕ → Bool × List Bool × List ℕ
unfolding fetch_add release
take_all zero j i race bm = (true, race, bm)
take_all (suc n) j i race bm =
    let (old, race', bm') = fetch_add race bm (i + j) in
    let more = take_all n (suc j) i race' bm' in
    if old == 0 then more else (false, race', release (suc j) i bm')

-- The loop over the frames, with `n` to go, for `frames` frames at a multiple of `unit`.
pub advanced_loop : ℕ → ℕ → ℕ → ℕ → List Bool → Pmm → Outcome (ℕ × Pmm)
unfolding open_run take_all
advanced_loop zero i frames unit race s = ok (0, s)
advanced_loop (suc n) i frames unit race s =
    let (won, race', bm) = take_all frames 0 i race s.bitmap in
    let t = record s { bitmap = bm } in
    let taken = ok (frame_addr s i, t) in
    let beaten = advanced_loop n (suc i) frames unit race' t in
    let next = advanced_loop n (suc i) frames unit race s in
    if frame_addr s i % unit == 0
    then open_run frames i s.bitmap
      >>= (λ is_free. if is_free then if won then taken else beaten else next)
    else next

-- `end`, which the comparison with a negative number makes 0.
abbrev pub end_index : ℕ → ℕ → Pmm → ℕ
end_index max_addr frames s =
    let end = max_addr / page_size - frames in if ltb s.mem_entries end then s.mem_entries else end

abbrev pub frame_count : ℕ → ℕ
frame_count length = (length + page_size - 1) % 2 ^ 32 / page_size

-- `pmm_alloc_advanced`
unfoldable pub alloc_advanced : List Bool → ℕ → ℕ → ℕ → Pmm → Outcome (ℕ × Pmm)
unfolding advanced_loop
alloc_advanced race length max_addr alignment s =
    let frames = frame_count length in
    if length == 0
    then ok (0, s)
    else advanced_loop (end_index max_addr frames s - s.look_from_here) s.look_from_here frames
        (2 ^ alignment) race s
