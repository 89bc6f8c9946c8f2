-- ===== src/Paging/Clone/Step.antt =====
-- What `vmmc_clone` makes of one entry of a table.
use muxomucota.Base.{
  ℕ, zero, suc, ◌+◌, ◌<◌, ◌≡◌, ◌≢◌, true, false, ◌&&◌, ◌==◌, if◌then◌else◌, arith, refl, ◌∙◌, ap,
  ◌⊎◌, set, get_or-set, length, length-set, set-set, List,
}
use muxomucota.Base.Outcome.{ok}
use muxomucota.Pmm.{Pmm, users, cow_flag, frame_index, pmm_use, mark_cow}
use muxomucota.Pmm.Inv.{byte, IsValid}
use muxomucota.Pmm.Share.{Names, use_named, mark_cow_named}
use muxomucota.Pmm.Users.{use-IsValid, mark_cow_lem}
use muxomucota.Paging.{Entry, mapped, Vm, set_entry}
use muxomucota.Paging.Clone.{clone_page}

-- How many of the `n` entries from `i` on map the frame `k`.
abbrev pub shares : Pmm → ℕ → ℕ → ℕ → (ℕ → Entry) → ℕ
shares s k zero i pt = 0
shares s k (suc n) i pt =
    (if (pt i).present && frame_index s (pt i).frame == k then 1 else 0) + shares s k n (suc i) pt

abbrev pub protect : Entry → Entry
protect e = if e.present then record e { writable = false } else e

abbrev pub shared : Entry → Entry
shared e = if e.present then mapped e.frame false else e

module _ (i t u : ℕ) (vm : Vm) where
  -- The state after the frame of the entry `i`, with the byte `b`, got its new user.
  abbrev counted : ℕ → Pmm
  counted b = record vm.pmm {
    bitmap =
        set vm.pmm.bitmap (frame_index vm.pmm (vm.tables t i).frame) (users (b + 1) + cow_flag);
  }

  abbrev pub stepped : ℕ → Vm
  stepped b = record vm {
    pmm = counted b;
    tables =
        set_entry (set_entry vm.tables t i (record (vm.tables t i) { writable = false })) u i
          (mapped (vm.tables t i).frame false);
  }

  abbrev pub skipped : Vm
  skipped = record vm { tables = set_entry vm.tables u i (vm.tables t i) }

  pub step_absent : (vm.tables t i).present ≡ false → clone_page i t u vm ≡ ok skipped
  unfolding clone_page
  step_absent h = ground arith

  module _ (b : ℕ) (n : Names vm.pmm (vm.tables t i).frame b) (nz : users b ≢ 0)
      (small : users b < 127) where
    abbrev at : ℕ
    at = frame_index vm.pmm (vm.tables t i).frame

    abbrev used : Pmm
    used = record vm.pmm { bitmap = set vm.pmm.bitmap at (b + 1) }

    Names-used : Names used (vm.tables t i).frame (b + 1)
    Names-used = record {
      on_boundary = n.on_boundary;
      managed = omega (arith, n.managed, length-set vm.pmm.bitmap at (b + 1));
      value = ground (arith, get_or-set vm.pmm.bitmap at at (b + 1) 0 n.managed);
    }

    use_step : pmm_use (vm.tables t i).frame vm.pmm ≡ ok used
    use_step = use_named vm.pmm (vm.tables t i).frame b n nz small

    mark_step : mark_cow (vm.tables t i).frame true used ≡ ok (counted b)
    mark_step =
        mark_cow_named used (vm.tables t i).frame true (b + 1) Names-used (omega arith)
        ∙ ap (λ (l : List ℕ). ok (record vm.pmm { bitmap = l }))
            (set-set vm.pmm.bitmap at (b + 1) (users (b + 1) + cow_flag))

    pub step_present : (vm.tables t i).present ≡ true → clone_page i t u vm ≡ ok (stepped b)
    unfolding clone_page
    step_present h = ground (arith, use_step, mark_step)

    counted-IsValid : IsValid vm.pmm → IsValid (counted b)
    counted-IsValid v =
        (mark_cow_lem (vm.tables t i).frame true (use-IsValid (vm.tables t i).frame v use_step)
          mark_step).0

    counted-users :
        (k : ℕ) → users (byte (counted b) k) ≡ users (byte vm.pmm k) + (if at == k then 1 else 0)
    counted-users k =
        ground
          (arith, get_or-set vm.pmm.bitmap at k (users (b + 1) + cow_flag) 0 n.managed, n.value)

    counted-byte :
        (k : ℕ)
        → byte (counted b) k
          ≡ (if at == k then users (byte vm.pmm k) + 1 + cow_flag else byte vm.pmm k)
    counted-byte k =
        ground
          (arith, get_or-set vm.pmm.bitmap at k (users (b + 1) + cow_flag) 0 n.managed, n.value)

-- What the first round of the loop leaves, in the state `vm₁`, for the other rounds.
pub record Step (i t u : ℕ) (vm vm₁ : Vm) : Type 0 where
  pub source : vm₁.tables t i ≡ protect (vm.tables t i)
  pub copy : vm₁.tables u i ≡ shared (vm.tables t i)
  pub others : (t' j : ℕ) → ((t' ≢ t) × (t' ≢ u)) ⊎ (j ≢ i) → vm₁.tables t' j ≡ vm.tables t' j
  pub base : (p : ℕ) → frame_index vm₁.pmm p ≡ frame_index vm.pmm p
  pub counts :
      (k : ℕ) → users (byte vm₁.pmm k) ≡ users (byte vm.pmm k) + shares vm.pmm k 1 i (vm.tables t)
  pub marks :
      (k : ℕ)
      → byte vm₁.pmm k ≡ (
          if shares vm.pmm k 1 i (vm.tables t) == 0
          then byte vm.pmm k
          else users (byte vm.pmm k) + shares vm.pmm k 1 i (vm.tables t) + cow_flag)
  pub same_pmm :
      (vm₁.pmm.mem_base ≡ vm.pmm.mem_base)
      × (vm₁.pmm.mem_entries ≡ vm.pmm.mem_entries)
      × (vm₁.pmm.look_from_here ≡ vm.pmm.look_from_here)
  pub managed : length vm₁.pmm.bitmap ≡ length vm.pmm.bitmap
  pub same_bytes : vm₁.bytes ≡ vm.bytes
  pub same_pd : vm₁.pd ≡ vm.pd
  pub same_end : vm₁.heap_end ≡ vm.heap_end
  pub valid : IsValid vm₁.pmm

pub Step-skipped :
    (i t u : ℕ) (vm : Vm)
    → t ≢ u
    → IsValid vm.pmm
    → (vm.tables t i).present ≡ false
    → Step i t u vm (skipped i t u vm)
Step-skipped i t u vm ne v h = record {
  source = ground arith;
  copy = ground arith;
  others = λ t' j d. ground arith;
  base = λ p. refl;
  counts = λ k. ground arith;
  marks = λ k. ground arith;
  same_pmm = (refl, refl, refl);
  managed = refl;
  same_bytes = refl;
  same_pd = refl;
  same_end = refl;
  valid = v;
}

pub Step-stepped :
    (i t u : ℕ) (vm : Vm) (b : ℕ) (n : Names vm.pmm (vm.tables t i).frame b)
    → users b ≢ 0
    → users b < 127
    → t ≢ u
    → IsValid vm.pmm
    → (vm.tables t i).present ≡ true
    → Step i t u vm (stepped i t u vm b)
Step-stepped i t u vm b n nz small ne v h = record {
  source = ground arith;
  copy = ground arith;
  others = λ t' j d. ground arith;
  base = λ p. refl;
  counts = λ k. ground (arith, counted-users i t u vm b n nz small k);
  marks = λ k. ground (arith, counted-byte i t u vm b n nz small k);
  same_pmm = (refl, refl, refl);
  managed =
      length-set vm.pmm.bitmap (frame_index vm.pmm (vm.tables t i).frame)
        (users (b + 1) + cow_flag);
  same_bytes = refl;
  same_pd = refl;
  same_end = refl;
  valid = counted-IsValid i t u vm b n nz small v;
}
