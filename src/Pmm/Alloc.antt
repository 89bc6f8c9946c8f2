-- ===== src/Pmm/Alloc.antt =====
-- `pmm_alloc` takes a free frame, whatever other processors take meanwhile.
use muxomucota.Base.{
  ℕ, zero, suc, ◌+◌, ◌-◌, ◌≤◌, ◌<◌, ◌≡◌, ◌≢◌, Bool, true, false, List, [], set, get_or-set, set-set,
  length, arith, if◌then◌else◌, ◌==◌, Bool-cases, inl, inr, ◌⊎◌, refl, ◌∙◌, ℕ_discrete, dec_lt,
  subst, ◌*◌,
}
use muxomucota.Base.Outcome.{ok, panic, ok-injective}
use muxomucota.Pmm.{Pmm, page_size, frame_addr, lost, rest, alloc_loop, alloc}
use muxomucota.Pmm.Inv.{byte, IsValid, entry-eq-ok, IsValid-set, frame_index-frame_addr}

module _ (n i : ℕ) (first : Bool) (race : List Bool) (s : Pmm) (h : i < length s.bitmap) where
  step_used : byte s i ≢ 0 → alloc_loop (suc n) i first race s ≡ alloc_loop n (suc i) first race s
  unfolding alloc_loop
  step_used used = ground (arith, entry-eq-ok s.bitmap i h)

  step_won :
      byte s i ≡ 0
      → lost race ≡ false
      → alloc_loop (suc n) i first race s
        ≡ ok (
          frame_addr s i,
          record s {
            bitmap = set s.bitmap i 1;
            look_from_here = if first then i else s.look_from_here;
          },
        )
  unfolding alloc_loop
  step_won free won = ground (arith, entry-eq-ok s.bitmap i h)

  step_lost :
      byte s i ≡ 0
      → lost race ≡ true
      → alloc_loop (suc n) i first race s
        ≡ alloc_loop n (suc i) false (rest race) (record s { bitmap = set s.bitmap i 1 })
  unfolding alloc_loop
  step_lost free gone =
      ground
        (arith, entry-eq-ok s.bitmap i h, get_or-set s.bitmap i i 2 0 h, set-set s.bitmap i 2 1)

alloc_loop_zero_eq :
    (i : ℕ) (first : Bool) (race : List Bool) (s : Pmm) → alloc_loop 0 i first race s ≡ panic
unfolding alloc_loop
alloc_loop_zero_eq i first race s = refl

alloc_loop_zero :
    (i : ℕ) (first : Bool) (race : List Bool) (s : Pmm) {r : ℕ × Pmm}
    → alloc_loop 0 i first race s ≢ ok r
unfolding alloc_loop
alloc_loop_zero i first race s h = cc

-- No frame below the hint is free.
pub hint-le : {s : Pmm} → IsValid s → (k : ℕ) → byte s k ≡ 0 → s.look_from_here ≤ k
hint-le {s} v k free = elim (dec_lt k s.look_from_here) [
  | yes h ↦ absurd (v.hint k h free)
  | no h ↦ omega arith
]

-- What a successful allocation of the address `p` did to the state.
pub record Claimed (s : Pmm) (p : ℕ) (s' : Pmm) : Type 0 where
  pub frame : ℕ
  pub in_range : frame < s.mem_entries
  pub was_free : byte s frame ≡ 0
  pub now_used : byte s' frame ≡ 1
  pub address : p ≡ frame_addr s frame
  pub others : (j : ℕ) → j ≢ frame → (byte s' j ≡ byte s j) ⊎ ((byte s j ≡ 0) × (byte s' j ≡ 1))
  pub same_base : s'.mem_base ≡ s.mem_base
  pub same_entries : s'.mem_entries ≡ s.mem_entries
  pub valid : IsValid s'

Claimed-won :
    {s : Pmm} (i look : ℕ)
    → IsValid s
    → i < s.mem_entries
    → byte s i ≡ 0
    → look ≤ s.mem_entries
    → ((j : ℕ) → j < look → (if i == j then 1 else byte s j) ≢ 0)
    → Claimed s (frame_addr s i) (record s { bitmap = set s.bitmap i 1; look_from_here = look })
Claimed-won {s} i look v h free hin below = record {
  frame = i;
  in_range = h;
  was_free = free;
  now_used = ground (arith, get_or-set s.bitmap i i 1 0, v.size);
  address = refl;
  others = λ j ne. ground (arith, get_or-set s.bitmap i j 1 0, v.size);
  same_base = refl;
  same_entries = refl;
  valid = IsValid-set v i 1 look h (omega arith) hin below;
}

-- A claim made after another processor took the frame `i`.
Claimed-after :
    {s s' : Pmm} {p : ℕ} (i : ℕ)
    → IsValid s
    → i < s.mem_entries
    → byte s i ≡ 0
    → Claimed (record s { bitmap = set s.bitmap i 1 }) p s'
    → Claimed s p s'
Claimed-after {s} {s'} i v h free c = record {
  frame = c.frame;
  in_range = c.in_range;
  was_free = ground (arith, get_or-set s.bitmap i c.frame 1 0, v.size, c.was_free);
  now_used = c.now_used;
  address = c.address;
  others = λ j ne. ground (arith, get_or-set s.bitmap i j 1 0, v.size, c.others j ne);
  same_base = c.same_base;
  same_entries = c.same_entries;
  valid = c.valid;
}

pub below-suc :
    (s : Pmm) (i : ℕ)
    → ((j : ℕ) → j < i → byte s j ≢ 0)
    → byte s i ≢ 0
    → (j : ℕ) → j < suc i
    → byte s j ≢ 0
below-suc s i below used j h = elim (ℕ_discrete j i) [
  | yes e ↦ rw e used
  | no ne ↦ below j (omega arith)
]

-- What a loop that ends well has done.
alloc_loop-Claimed :
    (n i : ℕ) (first : Bool) (race : List Bool) (s : Pmm) {p : ℕ} {s' : Pmm}
    → n + i ≡ s.mem_entries
    → IsValid s
    → ((j : ℕ) → j < i → byte s j ≢ 0)
    → alloc_loop n i first race s ≡ ok (p, s')
    → Claimed s p s'
alloc_loop-Claimed zero i first race s e v below h = absurd (alloc_loop_zero i first race s h)
alloc_loop-Claimed (suc n) i first race s {p} {s'} e v below h = elim (ℕ_discrete (byte s i) 0) [
  | no used ↦
      alloc_loop-Claimed n (suc i) first race s (omega arith) v (below-suc s i below used)
        (rw (step_used n i first race s (omega (arith, v.size)) used) at h)
  | yes free ↦ elim (Bool-cases (lost race)) [
    | inl gone ↦ Claimed-after i v (omega arith) free (
        alloc_loop-Claimed n (suc i) false (rest race) (record s { bitmap = set s.bitmap i 1 })
          (omega arith)
          (IsValid-set v i 1 s.look_from_here (omega arith) (omega arith) v.hint_in
            (λ j hj. ground (arith, v.hint j hj)))
          (λ j hj. ground (arith, get_or-set s.bitmap i j 1 0, v.size, below j))
          (rw (step_lost n i first race s (omega (arith, v.size)) free gone) at h))
    | inr won ↦
        subst (λ (r : ℕ × Pmm). Claimed s r.0 r.1)
          (ok-injective (rw (step_won n i first race s (omega (arith, v.size)) free won) at h))
          (Claimed-won i (if first then i else s.look_from_here) v (omega arith) free
            (ground (arith, v.hint_in)) (λ j hj. ground (arith, below j, v.hint j)))
  ]
]

-- `pmm_alloc`, whatever frames other processors take meanwhile, returns the address of a frame
-- that was free and now has one user; every other frame is as before or was taken by another
-- processor; and the state stays valid.
pub alloc-Claimed :
    {s : Pmm} (race : List Bool) {p : ℕ} {s' : Pmm}
    → IsValid s
    → alloc race s ≡ ok (p, s')
    → Claimed s p s'
unfolding alloc
alloc-Claimed {s} race v h =
    alloc_loop-Claimed (s.mem_entries - s.look_from_here) s.look_from_here true race s
      (omega (arith, v.hint_in)) v v.hint h

-- With no race the loop takes the first free frame.
alloc_loop_first :
    (n i k : ℕ) (first : Bool) (s : Pmm)
    → n + i ≡ s.mem_entries
    → IsValid s
    → i ≤ k
    → k < s.mem_entries
    → byte s k ≡ 0
    → ((j : ℕ) → j < k → byte s j ≢ 0)
    → alloc_loop n i first [] s
      ≡ ok (
        frame_addr s k,
        record s {
          bitmap = set s.bitmap k 1;
          look_from_here = if first then k else s.look_from_here;
        },
      )
alloc_loop_first zero i k first s e v hi hk free below = absurd (omega arith)
alloc_loop_first (suc n) i k first s e v hi hk free below = elim (ℕ_discrete i k) [
  | yes same ↦ rw same (step_won n k first [] s (omega (arith, v.size)) free refl)
  | no ne ↦
      step_used n i first [] s (omega (arith, v.size)) (below i (omega arith))
      ∙ alloc_loop_first n (suc i) k first s (omega arith) v (omega arith) hk free below
]

-- With no other processor `pmm_alloc` takes the free frame of the lowest address, gives it one
-- user, remembers it as the place to look from, and changes nothing else.
pub alloc_first_fit :
    {s : Pmm} (k : ℕ)
    → IsValid s
    → k < s.mem_entries
    → byte s k ≡ 0
    → ((j : ℕ) → j < k → byte s j ≢ 0)
    → alloc [] s
      ≡ ok (s.mem_base + k * page_size, record s { bitmap = set s.bitmap k 1; look_from_here = k })
unfolding alloc
alloc_first_fit {s} k v hk free below = rw (← (frame_index-frame_addr v k hk).2) (
    alloc_loop_first (s.mem_entries - s.look_from_here) s.look_from_here k true s
      (omega (arith, hint-le v k free)) v (hint-le v k free) hk free below)

alloc_loop_full :
    (n i : ℕ) (first : Bool) (race : List Bool) (s : Pmm)
    → n + i ≡ s.mem_entries
    → IsValid s
    → ((j : ℕ) → j < s.mem_entries → byte s j ≢ 0)
    → alloc_loop n i first race s ≡ panic
alloc_loop_full zero i first race s e v full = alloc_loop_zero_eq i first race s
alloc_loop_full (suc n) i first race s e v full =
    step_used n i first race s (omega (arith, v.size)) (full i (omega arith))
    ∙ alloc_loop_full n (suc i) first race s (omega arith) v full

-- When every frame has a user or its flag set, `pmm_alloc` stops the kernel.
alloc_full :
    {s : Pmm} (race : List Bool)
    → IsValid s
    → ((j : ℕ) → j < s.mem_entries → byte s j ≢ 0)
    → alloc race s ≡ panic
unfolding alloc
alloc_full {s} race v full =
    alloc_loop_full (s.mem_entries - s.look_from_here) s.look_from_here true race s
      (omega (arith, v.hint_in)) v full
