-- ===== src/Pmm/Tests.antt =====
-- Runs of the allocator of page frames, and its theorems at concrete states.
use muxomucota.Base.{ℕ, zero, suc, ◌<◌, ◌≡◌, ◌≢◌, Bool, true, false, List, [], ◌∷◌, arith, refl}
use muxomucota.Base.Outcome.{ok, panic, fault}
use muxomucota.Pmm.{Pmm, frame_index, alloc, free, pmm_use, user_count, alloced, mark_cow}
use muxomucota.Pmm.Inv.{byte, IsValid, get_or-lt}
use muxomucota.Pmm.Alloc.{Claimed, alloc-Claimed}
use muxomucota.Pmm.Users.{free-alloc}
use muxomucota.Pmm.Leak.{free-cow_leak, PmmSteps, here, next, claims, uses, frees}
use muxomucota.Pmm.Advanced.{alloc_advanced}

-- Memory from 1 MB on, with a kernel frame, a shared frame, and two free frames.
abbrev memory : List ℕ → Pmm
memory bm = record { mem_base = 0x100000; mem_entries = 5; bitmap = bm; look_from_here = 1 }

abbrev sample : Pmm
sample = memory (127 ∷ 129 ∷ 0 ∷ 2 ∷ 0 ∷ [])

abbrev full : Pmm
full = memory (127 ∷ 129 ∷ 1 ∷ 2 ∷ 1 ∷ [])

below_hint : (bm : List ℕ) (i : ℕ) → i < 1 → byte (memory (127 ∷ bm)) i ≢ 0
below_hint bm zero h = omega arith
below_hint bm (suc i) h = absurd (omega arith)

sample-IsValid : IsValid sample
sample-IsValid = record {
  size = refl;
  bytes = get_or-lt sample.bitmap 256 (omega arith) (omega arith);
  hint_in = omega arith;
  hint = below_hint (129 ∷ 0 ∷ 2 ∷ 0 ∷ []);
  base_aligned = refl;
  in_memory = omega arith;
}

full-IsValid : IsValid full
full-IsValid = record {
  size = refl;
  bytes = get_or-lt full.bitmap 256 (omega arith) (omega arith);
  hint_in = omega arith;
  hint = below_hint (129 ∷ 1 ∷ 2 ∷ 1 ∷ []);
  base_aligned = refl;
  in_memory = omega arith;
}

full_used : (j : ℕ) → j < 5 → byte full j ≢ 0
full_used zero h = omega arith
full_used (suc zero) h = omega arith
full_used (suc (suc zero)) h = omega arith
full_used (suc (suc (suc zero))) h = omega arith
full_used (suc (suc (suc (suc zero)))) h = omega arith
full_used (suc (suc (suc (suc (suc j))))) h = absurd (omega arith)

sample_used : (j : ℕ) → j < 2 → byte sample j ≢ 0
sample_used zero h = omega arith
sample_used (suc zero) h = omega arith
sample_used (suc (suc j)) h = absurd (omega arith)

-- Another processor takes the frame 2, so the frame 4 is handed out.
alloc-race : alloc (true ∷ []) sample ≡ ok (0x104000, full)
unfolding alloc
alloc-race = refl

alloc_then_shared : pmm_use 0x103000 sample ≡ ok (memory (127 ∷ 129 ∷ 0 ∷ 3 ∷ 0 ∷ []))
unfolding pmm_use
alloc_then_shared = refl

shared_then_free : free 0x103000 sample ≡ ok (memory (127 ∷ 129 ∷ 0 ∷ 1 ∷ 0 ∷ []))
unfolding free
shared_then_free = refl

free_unused :
    (free 0x102000 sample ≡ panic) × (free 0x103001 sample ≡ panic) × (free 0x105000 sample ≡ fault)
unfolding free
free_unused = (refl, refl, refl)

alloced-sample : (alloced 0x100000 sample ≡ ok false) × (alloced 0x103000 sample ≡ ok true)
unfolding alloced
alloced-sample = (refl, refl)

marked : mark_cow 0x103000 true sample ≡ ok (memory (127 ∷ 129 ∷ 0 ∷ 130 ∷ 0 ∷ []))
unfolding mark_cow
marked = refl

-- One frame at a multiple of 8192.
advanced_sample :
    alloc_advanced [] 4096 0xffffffff 13 sample ≡ ok (0x102000, memory (127 ∷ 129 ∷ 1 ∷ 2 ∷ 0 ∷ []))
unfolding alloc_advanced
advanced_sample = refl

alloc-Claimed_example : Claimed sample 0x104000 full
alloc-Claimed_example = alloc-Claimed (true ∷ []) sample-IsValid alloc-race

free-alloc_example :
    (t : Pmm) × (free 0x104000 full ≡ ok t)
    × IsValid t
    × (byte t (frame_index sample 0x104000) ≡ 0)
    × ((j : ℕ) → j ≢ frame_index sample 0x104000 → byte t j ≡ byte full j)
free-alloc_example = free-alloc (true ∷ []) sample-IsValid alloc-race

-- The last process frees the shared frame, and then the next frame is allocated, used and freed.
abbrev leaked : Pmm
leaked = memory (127 ∷ 128 ∷ 0 ∷ 2 ∷ 0 ∷ [])

abbrev leaked_shared : Pmm
leaked_shared = record (memory (127 ∷ 128 ∷ 2 ∷ 2 ∷ 0 ∷ [])) { look_from_here = 2 }

abbrev leaked_later : Pmm
leaked_later = record (memory (127 ∷ 128 ∷ 1 ∷ 2 ∷ 0 ∷ [])) { look_from_here = 2 }

leak_steps : PmmSteps leaked leaked_later
unfolding alloc pmm_use free
leak_steps =
    next {t = leaked_shared}
      (next {t = leaked_later} (next here (claims [] 0x102000 refl)) (uses 0x102000 refl))
      (frees 0x102000 refl)

free-cow_leak_example :
    (free 0x101000 sample ≡ ok leaked)
    × IsValid leaked_later
    × (user_count 0x101000 leaked_later ≡ ok 0)
    × ((race : List Bool) (q : ℕ) (v : Pmm)
        → alloc race leaked_later ≡ ok (q, v)
        → frame_index leaked_later q ≢ frame_index leaked_later 0x101000)
    × (free 0x101000 leaked_later ≡ panic)
    × (pmm_use 0x101000 leaked_later ≡ panic)
    × ((flag : Bool) → mark_cow 0x101000 flag leaked_later ≡ panic)
free-cow_leak_example = free-cow_leak sample 0x101000 sample-IsValid (omega arith) leak_steps

-- All five frames are free.
abbrev fresh : Pmm
fresh = record (memory (0 ∷ 0 ∷ 0 ∷ 0 ∷ 0 ∷ [])) { look_from_here = 0 }

fresh-IsValid : IsValid fresh
fresh-IsValid = record {
  size = refl;
  bytes = get_or-lt fresh.bitmap 256 (omega arith) (omega arith);
  hint_in = omega arith;
  hint = λ i h. absurd (omega arith);
  base_aligned = refl;
  in_memory = omega arith;
}

-- Only the last frame is free, and the search begins there.
abbrev last_free : Pmm
last_free = record (memory (1 ∷ 1 ∷ 1 ∷ 1 ∷ 0 ∷ [])) { look_from_here = 4 }

last_free_hint : (i : ℕ) → i < 4 → byte last_free i ≢ 0
last_free_hint zero h = omega arith
last_free_hint (suc zero) h = omega arith
last_free_hint (suc (suc zero)) h = omega arith
last_free_hint (suc (suc (suc zero))) h = omega arith
last_free_hint (suc (suc (suc (suc i)))) h = absurd (omega arith)

last_free-IsValid : IsValid last_free
last_free-IsValid = record {
  size = refl;
  bytes = get_or-lt last_free.bitmap 256 (omega arith) (omega arith);
  hint_in = omega arith;
  hint = last_free_hint;
  base_aligned = refl;
  in_memory = omega arith;
}
