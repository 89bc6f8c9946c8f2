-- ===== src/Shm/Users.antt =====
-- Every user of shared memory is a user of each of its frames.
use muxomucota.Base.{
  ℕ, ◌+◌, ◌-◌, ◌%◌, ◌≤◌, ◌<◌, ◌≡◌, ◌≢◌, List, [], ◌∷◌, Bool, true, false, some, length, length-set,
  set, get_or-set, All, arith, ◌==◌, if◌then◌else◌, refl,
}
use muxomucota.Base.Outcome.{ok}
use muxomucota.Pmm.{Pmm, page_size, users, frame_index}
use muxomucota.Pmm.Inv.{byte, IsValid}
use muxomucota.Pmm.Share.{Names, use_named, free_named, freed}
use muxomucota.Pmm.Users.{use-IsValid, free-IsValid}
use muxomucota.Paging.{Vm, Rights}
use muxomucota.Shm.{Shm, use_all, free_all, map_shm, open_again, open_shm, unmake_shm}

-- How often the frame `k` is in the list.
abbrev pub occurrences : Pmm → ℕ → List ℕ → ℕ
occurrences s k [] = 0
occurrences s k (p ∷ ps) = (if frame_index s p == k then 1 else 0) + occurrences s k ps

-- The addresses are those of frames in use.
abbrev pub InUse : Pmm → List ℕ → Type 0
InUse s ps =
    All
      (λ p.
        (p % page_size ≡ 0)
        × (frame_index s p < length s.bitmap)
        × (users (byte s (frame_index s p)) ≢ 0))
      ps

occurrences_base :
    (s s' : Pmm) (k : ℕ) (ps : List ℕ)
    → ((p : ℕ) → frame_index s' p ≡ frame_index s p)
    → occurrences s' k ps ≡ occurrences s k ps
occurrences_base s s' k [] e = refl
occurrences_base s s' k (p ∷ ps) e = ground (arith, e p, occurrences_base s s' k ps e)

-- The state after the byte of the frame of `p` became `b`.
abbrev with_byte : Pmm → ℕ → ℕ → Pmm
with_byte s p b = record s { bitmap = set s.bitmap (frame_index s p) b }

InUse-with_byte :
    (s : Pmm) (p b : ℕ) (ps : List ℕ)
    → frame_index s p < length s.bitmap
    → users b ≢ 0
    → InUse s ps
    → InUse (with_byte s p b) ps
InUse-with_byte s p b [] h nz u = tt
InUse-with_byte s p b (q ∷ ps) h nz u = (
  (
    u.0.0,
    omega (arith, u.0.1, length-set s.bitmap (frame_index s p) b),
    ground (arith, u.0.2, get_or-set s.bitmap (frame_index s p) (frame_index s q) b 0 h),
  ),
  InUse-with_byte s p b ps h nz u.1,
)

-- `pmm_use` of every frame of a list that is in use and has room for the new users returns, and the
-- bytes of the frames grow by the times they are in the list.
use_all_lem :
    (ps : List ℕ) (s : Pmm)
    → IsValid s
    → InUse s ps
    → ((k : ℕ) → users (byte s k) + occurrences s k ps ≤ 127)
    → (s' : Pmm) × (use_all ps s ≡ ok s')
      × IsValid s'
      × ((k : ℕ) → byte s' k ≡ byte s k + occurrences s k ps)
      × ((p : ℕ) → frame_index s' p ≡ frame_index s p)
      × (length s'.bitmap ≡ length s.bitmap)
unfolding use_all
use_all_lem [] s v u room = (s, refl, v, λ k. omega arith, λ p. refl, refl)
use_all_lem (p ∷ ps) s v u room =
    let i = frame_index s p in
    let b = byte s i in
    let names : Names s p b = record { on_boundary = u.0.0; managed = u.0.1; value = refl } in
    let small : users b < 127 = ground (arith, room i) in
    let e = use_named s p b names u.0.2 small in
    let s₁ = with_byte s p (b + 1) in
    let at = λ (k : ℕ). get_or-set s.bitmap i k (b + 1) 0 u.0.1 in
    let (s', e', v', counts, base, len) =
      use_all_lem ps s₁ (use-IsValid p v e) (InUse-with_byte s p (b + 1) ps u.0.1 (omega arith) u.1)
        (λ k. ground (arith, room k, at k, occurrences_base s s₁ k ps (λ q. refl))) in
    (
      s',
      ground (arith, e, e'),
      v',
      λ k. ground (arith, counts k, at k, occurrences_base s s₁ k ps (λ q. refl)),
      base,
      omega (arith, len, length-set s.bitmap i (b + 1)),
    )

-- The addresses are those of frames.
abbrev pub Managed : Pmm → List ℕ → Type 0
Managed s ps = All (λ p. (p % page_size ≡ 0) × (frame_index s p < length s.bitmap)) ps

Managed-moved :
    (s s' : Pmm) (ps : List ℕ)
    → ((p : ℕ) → frame_index s' p ≡ frame_index s p)
    → length s'.bitmap ≡ length s.bitmap
    → Managed s ps
    → Managed s' ps
Managed-moved s s' [] base len m = tt
Managed-moved s s' (p ∷ ps) base len m =
    ((m.0.0, omega (arith, m.0.1, base p, len)), Managed-moved s s' ps base len m.1)

Managed-InUse : (s : Pmm) (ps : List ℕ) → InUse s ps → Managed s ps
Managed-InUse s [] u = tt
Managed-InUse s (p ∷ ps) u = ((u.0.0, u.0.1), Managed-InUse s ps u.1)

-- `pmm_free` of every frame of a list returns if each has as many users as it is in the list, and
-- the bytes of the frames fall by that number.
free_all_lem :
    (ps : List ℕ) (s : Pmm)
    → IsValid s
    → Managed s ps
    → ((k : ℕ) → occurrences s k ps ≤ users (byte s k))
    → (s' : Pmm) × (free_all ps s ≡ ok s')
      × IsValid s'
      × ((k : ℕ) → byte s' k + occurrences s k ps ≡ byte s k)
unfolding free_all
free_all_lem [] s v m enough = (s, refl, v, λ k. omega arith)
free_all_lem (p ∷ ps) s v m enough =
    let i = frame_index s p in
    let b = byte s i in
    let names : Names s p b = record { on_boundary = m.0.0; managed = m.0.1; value = refl } in
    let some_user : users b ≢ 0 = ground (arith, enough i) in
    let e = free_named s p b names some_user in
    let s₁ = freed s p b in
    let at = λ (k : ℕ). get_or-set s.bitmap i k (b - 1) 0 m.0.1 in
    let (s', e', v', counts) =
      free_all_lem ps s₁ (free-IsValid p v e)
        (Managed-moved s s₁ ps (λ q. refl) (length-set s.bitmap i (b - 1)) m.1)
        (λ k. ground (arith, enough k, at k, occurrences_base s s₁ k ps (λ q. refl))) in
    (
      s',
      ground (arith, e, e'),
      v',
      λ k. ground (arith, counts k, at k, occurrences_base s s₁ k ps (λ q. refl)),
    )

-- Shared memory that has users, and whose frames take one more, is opened: each frame has a user
-- more, and the memory has one. Once that user leaves, by `vmmc_unmake_shm` with or without the
-- wish to destroy the memory, the structure and the users of every frame are what they were after
-- the mapping.
pub unmake_shm-open_shm :
    (flags : Rights) (destroy : Bool) (sg : Shm) (vm vm₁ : Vm) (a : ℕ)
    → 1 ≤ sg.users
    → sg.kept_alive ≡ false
    → map_shm flags sg vm ≡ ok (a, vm₁)
    → a ≢ 0
    → IsValid vm₁.pmm
    → InUse vm₁.pmm sg.phys
    → ((k : ℕ) → users (byte vm₁.pmm k) + occurrences vm₁.pmm k sg.phys ≤ 127)
    → (sg' : Shm) × (vm₂ vm₃ : Vm) × (open_shm flags sg vm ≡ ok (a, sg', vm₂))
      × ((k : ℕ) → byte vm₂.pmm k ≡ byte vm₁.pmm k + occurrences vm₁.pmm k sg.phys)
      × (unmake_shm destroy sg' vm₂ ≡ ok (some sg, vm₃))
      × ((k : ℕ) → byte vm₃.pmm k ≡ byte vm₁.pmm k)
      × IsValid vm₃.pmm
unfolding open_shm open_again unmake_shm
unmake_shm-open_shm flags destroy sg vm vm₁ a some_user alive e nz v u room =
    let (s, used, v', counts, base, len) = use_all_lem sg.phys vm₁.pmm v u room in
    let count = λ (k : ℕ). occurrences_base vm₁.pmm s k sg.phys base in
    let (s', freed_all, v'', counts') =
      free_all_lem sg.phys s v'
        (Managed-moved vm₁.pmm s sg.phys base len (Managed-InUse vm₁.pmm sg.phys u))
        (λ k. ground (arith, counts k, room k, count k)) in
    let sg' = record sg { users = sg.users + 1 } in
    (
      sg',
      record vm₁ { pmm = s },
      record vm₁ { pmm = s' },
      ground (arith, e, used),
      counts,
      ground (arith, freed_all),
      λ k. omega (arith, counts k, counts' k, count k),
      v'',
    )

-- The last user leaves shared memory that is not to be destroyed: the frames stay as they are, and
-- `vmmc_open_shm` with a place for them finds them there, with the structure as it was.
open_shm-unmake_shm :
    (flags : Rights) (sg : Shm) (vm vm₁ : Vm) (a : ℕ)
    → sg.users ≡ 1
    → sg.kept_alive ≡ false
    → map_shm flags (record sg { users = 0; kept_alive = true }) vm ≡ ok (a, vm₁)
    → a ≢ 0
    → (kept : Shm) × (unmake_shm false sg vm ≡ ok (some kept, vm))
      × (open_shm flags kept vm ≡ ok (a, sg, vm₁))
unfolding open_shm open_again unmake_shm
open_shm-unmake_shm flags sg vm vm₁ a one alive e nz =
    (record sg { users = 0; kept_alive = true }, ground arith, ground (arith, e))
