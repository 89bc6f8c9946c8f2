-- ===== src/Pmm/Advanced/Run.antt =====
-- What `pmm_alloc_advanced` hands out.
use muxomucota.Base.{
  ℕ, zero, suc, ◌+◌, ◌-◌, ◌%◌, ◌^◌, ◌≤◌, ◌<◌, ◌≡◌, Bool, true, ◌&&◌, List, [], get_or, set,
  get_or-set, length, length-set, arith, if◌then◌else◌, ltb, leb, inl, inr, ◌⊎◌, refl, ◌∙◌,
  ℕ_discrete, dec_lt, subst,
}
use muxomucota.Base.Outcome.{ok, true-cases}
use muxomucota.Pmm.{Pmm, page_size, frame_addr}
use muxomucota.Pmm.Inv.{byte, IsValid, entry-eq-ok, entry-eq-fault}
use muxomucota.Pmm.Advanced.{
  all_free, open_run, take_all, advanced_loop, alloc_advanced, end_index, frame_count,
}

-- The `n` bytes from `k` on are those of free frames.
abbrev pub Free : List ℕ → ℕ → ℕ → Type 0
Free bm k n = (j : ℕ) → k ≤ j → j < k + n → (j < length bm) × (get_or bm j 0 ≡ 0)

all_free-suc :
    (n k : ℕ) (bm : List ℕ)
    → all_free (suc n) k bm ≡ ok true
    → (k < length bm) × (get_or bm k 0 ≡ 0) × (all_free n (suc k) bm ≡ ok true)
unfolding all_free
all_free-suc n k bm h = elim (dec_lt k (length bm)) [
  | yes p ↦ ground (arith, entry-eq-ok bm k p)
  | no p ↦ absurd (ground (arith, entry-eq-fault bm k (omega arith)))
]

all_free-Free : (n k : ℕ) (bm : List ℕ) → all_free n k bm ≡ ok true → Free bm k n
all_free-Free zero k bm h j lo hi = absurd (omega arith)
all_free-Free (suc n) k bm h j lo hi =
    let (inside, zero_byte, later) = all_free-suc n k bm h in
    elim (ℕ_discrete k j) [
      | yes e ↦ rw (← e) (inside, zero_byte)
      | no ne ↦ all_free-Free n (suc k) bm later j (omega arith) (omega arith)
    ]

open_run-Free :
    (frames i : ℕ) (bm : List ℕ) → 0 < frames → open_run frames i bm ≡ ok true → Free bm i frames
unfolding open_run
open_run-Free frames i bm pos h j lo hi = elim (dec_lt i (length bm)) [
  | yes p ↦ elim (ℕ_discrete i j) [
    | yes e ↦ rw (← e) (ground (arith, entry-eq-ok bm i p))
    | no ne ↦
        all_free-Free (frames - 1) (suc i) bm (ground (arith, entry-eq-ok bm i p)) j (omega arith)
          (omega arith)
  ]
  | no p ↦ absurd (ground (arith, entry-eq-fault bm i (omega arith)))
]

-- The bytes after the frames from `k` on were taken, with no other processor about.
abbrev fill : ℕ → ℕ → List ℕ → List ℕ
fill zero k bm = bm
fill (suc n) k bm = fill n (suc k) (set bm k 1)

length-fill : (n k : ℕ) (bm : List ℕ) → length (fill n k bm) ≡ length bm
length-fill zero k bm = refl
length-fill (suc n) k bm = length-fill n (suc k) (set bm k 1) ∙ length-set bm k 1

get_or-fill_below :
    (n k j : ℕ) (bm : List ℕ) → k + n ≤ length bm → j < k → get_or (fill n k bm) j 0 ≡ get_or bm j 0
get_or-fill_below zero k j bm h lt = refl
get_or-fill_below (suc n) k j bm h lt =
    get_or-fill_below n (suc k) j (set bm k 1) (omega (arith, length-set bm k 1)) (omega arith)
    ∙ ground (arith, get_or-set bm k j 1 0)

get_or-fill_inside :
    (n k j : ℕ) (bm : List ℕ) → k + n ≤ length bm → k ≤ j → j < k + n → get_or (fill n k bm) j 0 ≡ 1
get_or-fill_inside zero k j bm h lo hi = absurd (omega arith)
get_or-fill_inside (suc n) k j bm h lo hi = elim (ℕ_discrete k j) [
  | yes e ↦
      get_or-fill_below n (suc k) j (set bm k 1) (omega (arith, length-set bm k 1)) (omega arith)
      ∙ ground (arith, get_or-set bm k j 1 0)
  | no ne ↦
      get_or-fill_inside n (suc k) j (set bm k 1) (omega (arith, length-set bm k 1)) (omega arith)
        (omega arith)
]

get_or-fill_above :
    (n k j : ℕ) (bm : List ℕ)
    → k + n ≤ length bm
    → k + n ≤ j
    → get_or (fill n k bm) j 0 ≡ get_or bm j 0
get_or-fill_above zero k j bm h lo = refl
get_or-fill_above (suc n) k j bm h lo =
    get_or-fill_above n (suc k) j (set bm k 1) (omega (arith, length-set bm k 1)) (omega arith)
    ∙ ground (arith, get_or-set bm k j 1 0)

Free-suc : (bm : List ℕ) (k n : ℕ) → Free bm k (suc n) → Free (set bm k 1) (suc k) n
Free-suc bm k n f j lo hi = ground (arith, f j, f k, length-set bm k 1, get_or-set bm k j 1 0)

take_all-fill :
    (n j i : ℕ) (bm : List ℕ)
    → Free bm (i + j) n
    → take_all n j i [] bm ≡ (true, [], fill n (i + j) bm)
unfolding take_all
take_all-fill zero j i bm f = refl
take_all-fill (suc n) j i bm f =
    let here = f (i + j) (omega arith) (omega arith) in
    let shift : i + suc j ≡ suc (i + j) = omega arith in
    ground (
      arith,
      here,
      take_all-fill n (suc j) i (set bm (i + j) 1) (rw shift (Free-suc bm (i + j) n f)),
      shift,
    )

take_all_start :
    (n i : ℕ) (bm : List ℕ) → Free bm i n → take_all n 0 i [] bm ≡ (true, [], fill n i bm)
take_all_start n i bm f =
    let e : i + 0 ≡ i = omega arith in rw e at (take_all-fill n 0 i bm (rw e f))

abbrev filled : Pmm → ℕ → ℕ → Pmm
filled s frames i = record s { bitmap = fill frames i s.bitmap }

-- Each byte after the frames were taken.
byte-filled :
    (s : Pmm) (frames i j : ℕ)
    → i + frames ≤ length s.bitmap
    → byte (filled s frames i) j ≡ (if leb i j && ltb j (i + frames) then 1 else byte s j)
byte-filled s frames i j h = elim (dec_lt j i) [
  | yes p ↦ ground (arith, get_or-fill_below frames i j s.bitmap h p)
  | no p ↦ elim (dec_lt j (i + frames)) [
    | yes q ↦ ground (arith, get_or-fill_inside frames i j s.bitmap h)
    | no q ↦ ground (arith, get_or-fill_above frames i j s.bitmap h)
  ]
]

IsValid-filled :
    {s : Pmm} (frames i : ℕ)
    → IsValid s
    → i + frames ≤ length s.bitmap
    → IsValid (filled s frames i)
IsValid-filled {s} frames i v h = record {
  size = length-fill frames i s.bitmap ∙ v.size;
  bytes = λ j. ground (arith, byte-filled s frames i j h, v.bytes j);
  hint_in = v.hint_in;
  hint = λ j hj. ground (arith, byte-filled s frames i j h, v.hint j hj);
  base_aligned = v.base_aligned;
  in_memory = v.in_memory;
}

-- What a successful call for `frames` frames at a multiple of `unit` did.
pub record Granted (s : Pmm) (frames unit p : ℕ) (s' : Pmm) : Type 0 where
  pub start : ℕ
  pub address : p ≡ frame_addr s start
  pub on_unit : p % unit ≡ 0
  pub run : Free s.bitmap start frames
  pub bytes : (j : ℕ) → byte s' j ≡ (if leb start j && ltb j (start + frames) then 1 else byte s j)
  pub same_base : s'.mem_base ≡ s.mem_base
  pub same_entries : s'.mem_entries ≡ s.mem_entries
  pub valid : IsValid s'

Free-fits : (bm : List ℕ) (i n : ℕ) → 0 < n → Free bm i n → i + n ≤ length bm
Free-fits bm i n pos f = omega (arith, (f (i + n - 1) (omega arith) (omega arith)).0)

Granted-here :
    {s : Pmm} (i frames unit : ℕ)
    → IsValid s
    → 0 < frames
    → frame_addr s i % unit ≡ 0
    → Free s.bitmap i frames
    → Granted s frames unit (frame_addr s i) (filled s frames i)
Granted-here {s} i frames unit v pos u f = record {
  start = i;
  address = refl;
  on_unit = u;
  run = f;
  bytes = λ j. byte-filled s frames i j (Free-fits s.bitmap i frames pos f);
  same_base = refl;
  same_entries = refl;
  valid = IsValid-filled frames i v (Free-fits s.bitmap i frames pos f);
}

-- One round of the loop.
advanced_step :
    (n i frames unit : ℕ) (s : Pmm) {r : ℕ × Pmm}
    → 0 < frames
    → advanced_loop (suc n) i frames unit [] s ≡ ok r
    → (advanced_loop n (suc i) frames unit [] s ≡ ok r)
      ⊎ ((frame_addr s i % unit ≡ 0)
          × Free s.bitmap i frames
          × ((frame_addr s i, filled s frames i) ≡ r))
unfolding advanced_loop
advanced_step n i frames unit s pos h = elim (true-cases (open_run frames i s.bitmap)) [
  | inl e ↦
      let f = open_run-Free frames i s.bitmap pos e in
      elim (ℕ_discrete (frame_addr s i % unit) 0) [
        | yes u ↦ inr (u, f, ground (arith, take_all_start frames i s.bitmap f, e))
        | no nu ↦ inl (ground (arith, e))
      ]
  | inr ne ↦ inl (ground arith)
]

advanced_loop_zero :
    (i frames unit : ℕ) (race : List Bool) (s : Pmm)
    → advanced_loop 0 i frames unit race s ≡ ok (0, s)
unfolding advanced_loop
advanced_loop_zero i frames unit race s = refl

advanced_loop-Granted :
    (n i frames unit : ℕ) (s : Pmm) {p : ℕ} {s' : Pmm}
    → IsValid s
    → 0 < frames
    → advanced_loop n i frames unit [] s ≡ ok (p, s')
    → ((p ≡ 0) × (s' ≡ s)) ⊎ Granted s frames unit p s'
advanced_loop-Granted zero i frames unit s v pos h =
    inl (ground (arith, advanced_loop_zero i frames unit [] s))
advanced_loop-Granted (suc n) i frames unit s {p} {s'} v pos h =
    elim (advanced_step n i frames unit s pos h) [
      | inl later ↦ advanced_loop-Granted n (suc i) frames unit s v pos later
      | inr (u, f, e) ↦ inr (
          subst (λ (r : ℕ × Pmm). Granted s frames unit r.0 r.1) e
            (Granted-here i frames unit v pos u f))
    ]

-- With no other processor, `pmm_alloc_advanced` either returns 0 and changes nothing, or it returns
-- the address of the first of as many free frames as hold `length` bytes, at a multiple of
-- 2 ^ alignment: these frames then have one user each, no other frame changes, and the state stays
-- valid.
pub alloc_advanced-Granted :
    {s s' : Pmm} (length max_addr alignment : ℕ) {p : ℕ}
    → IsValid s
    → length + page_size ≤ 2 ^ 32
    → alloc_advanced [] length max_addr alignment s ≡ ok (p, s')
    → ((p ≡ 0) × (s' ≡ s)) ⊎ Granted s (frame_count length) (2 ^ alignment) p s'
unfolding alloc_advanced
alloc_advanced-Granted {s} {s'} length max_addr alignment {p} v hl h = elim (ℕ_discrete length 0) [
  | yes e ↦ inl (ground arith)
  | no ne ↦
      advanced_loop-Granted (end_index max_addr (frame_count length) s - s.look_from_here)
        s.look_from_here (frame_count length) (2 ^ alignment) s v (omega arith) (ground arith)
]
