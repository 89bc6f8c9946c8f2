-- ===== src/Pmm/Boot/Frames.antt =====
-- The page frames after the set-up at boot.
use muxomucota.Base.{
  ℕ, zero, suc, ◌+◌, ◌-◌, ◌%◌, ◌/◌, ◌*◌, ◌^◌, ◌≤◌, ◌<◌, ◌≡◌, Bool, true, false, ◌&&◌, ◌||◌, List,
  [], ◌∷◌, ltb, leb, if◌then◌else◌, set, get_or, get_or-set, length, length-set, All, arith, refl,
  Bool-cases, inl, inr, sym,
}
use muxomucota.Pmm.{Pmm, page_size}
use muxomucota.Pmm.Inv.{byte}
use muxomucota.Pmm.Boot.{
  Region, survey_memory, fill, filled, first_frame, top_frame, free_usable, reserve_kernel,
  init_pmm,
}

pub length-fill : (bm : List ℕ) (i v n : ℕ) → length (fill bm i v n) ≡ length bm
unfolding fill
length-fill bm i v zero = refl
length-fill bm i v (suc n) = omega (arith, length-fill (set bm i v) (suc i) v n, length-set bm i v)

get_or-fill :
    (bm : List ℕ) (i v n k : ℕ)
    → k < length bm
    → i + n ≤ length bm
    → get_or (fill bm i v n) k 0 ≡ (if leb i k && ltb k (i + n) then v else get_or bm k 0)
unfolding fill
get_or-fill bm i v zero k h room = ground arith
get_or-fill bm i v (suc n) k h room =
    let l = length-set bm i v in
    let later = get_or-fill (set bm i v) (suc i) v n k (omega (arith, l)) (omega (arith, l)) in
    ground (arith, later, get_or-set bm i k v 0 (omega arith))

pub length-filled : (v n : ℕ) → length (filled v n) ≡ n
unfolding filled
length-filled v zero = refl
length-filled v (suc n) = omega (arith, length-filled v n)

get_or-filled : (v n k : ℕ) → k < n → get_or (filled v n) k 0 ≡ v
unfolding filled
get_or-filled v zero k h = absurd (omega arith)
get_or-filled v (suc n) zero h = refl
get_or-filled v (suc n) (suc k) h = get_or-filled v n k (omega arith)

-- A byte of the region is in the frame `k` from `mem_base` on.
abbrev pub touches : ℕ → ℕ → Region → Bool
touches mem_base k r =
    r.usable
    && ltb r.base (mem_base + (k + 1) * page_size)
    && ltb (mem_base + k * page_size) (r.base + r.size)

abbrev pub touched : ℕ → ℕ → List Region → Bool
touched mem_base k [] = false
touched mem_base k (r ∷ rs) = touches mem_base k r || touched mem_base k rs

-- No region is empty, or ends in the last page of the address space.
abbrev pub Sound : List Region → Type 0
Sound rs = All (λ r. (0 < r.size) × (r.base + r.size + page_size ≤ 2 ^ 32)) rs

-- No usable region reaches beyond `memsize`.
abbrev Within : ℕ → List Region → Type 0
Within memsize rs = All (λ r. r.usable ≡ true → r.base + r.size ≤ memsize) rs

-- The frames of one region, once it is known that it becomes free.
freed_guard :
    (memsize entries mem_base k : ℕ) (r : Region)
    → k < entries
    → mem_base < 2 ^ 32
    → 0 < r.size
    → r.base + r.size + page_size ≤ 2 ^ 32
    → (r.usable ≡ true → r.base + r.size ≤ memsize)
    → (r.usable
        && ltb r.base memsize
        && ltb mem_base ((r.base + r.size) % 2 ^ 32)
        && leb (first_frame mem_base r) entries)
      ≡ false
    → touches mem_base k r ≡ false
freed_guard memsize entries mem_base k r h b pos small inside g = ground (arith, g, inside)

freed_frames :
    (entries mem_base k : ℕ) (r : Region)
    → k < entries
    → mem_base < r.base + r.size
    → r.base + r.size + page_size ≤ 2 ^ 32
    → r.usable ≡ true
    → (leb (first_frame mem_base r) k
        && ltb k (first_frame mem_base r + (top_frame entries mem_base r - first_frame mem_base r)))
      ≡ touches mem_base k r
freed_frames entries mem_base k r h b small u = ground arith

free_usable_lem :
    (memsize entries mem_base k : ℕ) (rs : List Region) (bm : List ℕ)
    → k < entries
    → entries ≡ length bm
    → mem_base < 2 ^ 32
    → Sound rs
    → Within memsize rs
    → get_or (free_usable memsize entries mem_base rs bm) k 0
      ≡ (if touched mem_base k rs then 0 else get_or bm k 0)
unfolding free_usable
free_usable_lem memsize entries mem_base k [] bm h l b small inside = refl
free_usable_lem memsize entries mem_base k (r ∷ rs) bm h l b small inside =
    let first = first_frame mem_base r in
    let n = top_frame entries mem_base r - first in
    elim (Bool-cases (
      r.usable
      && ltb r.base memsize
      && ltb mem_base ((r.base + r.size) % 2 ^ 32)
      && leb first entries)) [
        | inr other ↦
            let t =
              freed_guard memsize entries mem_base k r h b small.0.0 small.0.1 inside.0 other in
            let later = free_usable_lem memsize entries mem_base k rs bm h l b small.1 inside.1 in
            rw (other, t) later
        | inl fits ↦
            let u : r.usable ≡ true = ground (arith, fits) in
            let low : mem_base < r.base + r.size = ground (arith, fits, small.0.1) in
            let room : first + n ≤ length bm = ground (arith, fits) in
            let frames = freed_frames entries mem_base k r h low small.0.1 u in
            let here = get_or-fill bm first 0 n k (omega arith) room in
            let later =
              free_usable_lem memsize entries mem_base k rs (fill bm first 0 n) h
                (omega (arith, length-fill bm first 0 n)) b small.1 inside.1 in
            rw fits (ground (arith, later, here, frames))
      ]

pub length-free_usable :
    (memsize entries mem_base : ℕ) (rs : List Region) (bm : List ℕ)
    → length (free_usable memsize entries mem_base rs bm) ≡ length bm
unfolding free_usable
length-free_usable memsize entries mem_base [] bm = refl
length-free_usable memsize entries mem_base (r ∷ rs) bm =
    let first = first_frame mem_base r in
    let n = top_frame entries mem_base r - first in
    elim (Bool-cases (
      r.usable
      && ltb r.base memsize
      && ltb mem_base ((r.base + r.size) % 2 ^ 32)
      && leb first entries)) [
        | inr other ↦ rw other (length-free_usable memsize entries mem_base rs bm)
        | inl fits ↦
            let same = length-fill bm first 0 n in
            rw fits (
              omega
                (arith, same, length-free_usable memsize entries mem_base rs (fill bm first 0 n)))
      ]

-- The frame `k` from `mem_base` on is one of the kernel's.
abbrev pub of_kernel : ℕ → ℕ → ℕ → ℕ → Bool
of_kernel mem_base kernel kernel_end k =
    leb kernel (mem_base / page_size + k) && ltb (mem_base / page_size + k) kernel_end

reserve_kernel_lem :
    (entries mem_base kernel kernel_end k : ℕ) (bm : List ℕ)
    → k < entries
    → entries ≡ length bm
    → get_or (reserve_kernel entries mem_base kernel kernel_end bm) k 0
      ≡ (if of_kernel mem_base kernel kernel_end k then 127 else get_or bm k 0)
unfolding reserve_kernel
reserve_kernel_lem entries mem_base kernel kernel_end k bm h l =
    let start = mem_base / page_size in
    let e = if ltb entries (kernel_end - start) then entries else kernel_end - start in
    elim (Bool-cases (ltb start kernel_end && ltb kernel (entries + start))) [
      | inr other ↦ rw other (ground (arith, other))
      | inl fits ↦
          let room : kernel - start + (e - (kernel - start)) ≤ length bm = ground (arith, fits) in
          rw fits (
            ground (
              arith,
              fits,
              get_or-fill bm (kernel - start) 127 (e - (kernel - start)) k (omega arith) room,
            ))
    ]

-- How far the memory reaches with one more region.
abbrev farther : ℕ → Region → ℕ
farther memsize r =
    let size = if ltb ((r.base + r.size) % 2 ^ 32) r.base then 2 ^ 32 - 1 - r.base else r.size in
    if r.usable && ltb memsize ((r.base + size) % 2 ^ 32) then (r.base + size) % 2 ^ 32 else memsize

survey_step :
    (memsize : ℕ) (r : Region)
    → r.base + r.size + page_size ≤ 2 ^ 32
    → memsize < 2 ^ 32
    → (memsize ≤ farther memsize r)
      × (farther memsize r < 2 ^ 32)
      × (r.usable ≡ true → r.base + r.size ≤ farther memsize r)
survey_step memsize r s h = (ground arith, ground arith, λ u. ground (arith, u))

le_trans : {a b c : ℕ} → a ≤ b → b ≤ c → a ≤ c
le_trans h k = omega arith

survey_memory_lem :
    (memsize base : ℕ) (rs : List Region)
    → Sound rs
    → memsize < 2 ^ 32
    → base < 2 ^ 32
    → (memsize ≤ (survey_memory memsize base rs).0)
      × ((survey_memory memsize base rs).0 < 2 ^ 32)
      × Within (survey_memory memsize base rs).0 rs
unfolding survey_memory
survey_memory_lem memsize base [] s h b = (omega arith, h, tt)
survey_memory_lem memsize base (r ∷ rs) s h b =
    let (more, small, reached) = survey_step memsize r s.0.1 h in
    let lowest = if r.usable && ltb r.base base then r.base else base in
    let lower : lowest < 2 ^ 32 = ground (arith, s.0.1) in
    let (more', small', others) = survey_memory_lem (farther memsize r) lowest rs s.1 small lower in
    (omega (arith, more, more'), small', ((λ u. le_trans (reached u) more'), others))

-- The bytes of the frames after both loops.
bytes_lem :
    (memsize entries mem_base kernel last k : ℕ) (memmap : List Region)
    → k < entries
    → mem_base < 2 ^ 32
    → Sound memmap
    → Within memsize memmap
    → get_or
        (reserve_kernel entries mem_base kernel last
          (free_usable memsize entries mem_base memmap (filled 255 entries)))
        k
        0
      ≡ (if of_kernel mem_base kernel last k
          then 127
          else if touched mem_base k memmap
          then 0
          else 255)
bytes_lem memsize entries mem_base kernel last k memmap h b s inside =
    let fresh = filled 255 entries in
    let all = length-filled 255 entries in
    let freed = length-free_usable memsize entries mem_base memmap fresh in
    let free_then =
      free_usable_lem memsize entries mem_base k memmap fresh h (sym all) b s inside in
    let kernel_then =
      reserve_kernel_lem entries mem_base kernel last k
        (free_usable memsize entries mem_base memmap fresh) h (omega (arith, all, freed)) in
    rw (kernel_then, free_then, get_or-filled 255 entries k h) refl

-- The frames of the kernel and of the array of bytes behind it, in the state after `init_pmm`.
abbrev pub is_kernel : ℕ → ℕ → Pmm → ℕ → Bool
is_kernel kernel_paddr kernel_end s k =
    of_kernel s.mem_base (kernel_paddr / page_size)
      ((kernel_end + (page_size - 1)) % 2 ^ 32 / page_size
        + (s.mem_entries + (page_size - 1)) / page_size)
      k

-- The boot loader's memory map has no empty region and none that ends in the last page of the address
-- space. After `init_pmm` a frame is free exactly if it is none of the kernel's and a usable region
-- has a byte in it. The kernel's frames are those from its first to the last one of the array of
-- bytes behind it; they have 127 users. The bytes of all others are 255.
pub init_pmm_lem :
    (kernel_paddr kernel_end : ℕ) (memmap : List Region) (k : ℕ)
    → Sound memmap
    → k < (init_pmm kernel_paddr kernel_end memmap).mem_entries
    → byte (init_pmm kernel_paddr kernel_end memmap) k ≡ (
        if is_kernel kernel_paddr kernel_end (init_pmm kernel_paddr kernel_end memmap) k
        then 127
        else if touched (init_pmm kernel_paddr kernel_end memmap).mem_base k memmap
        then 0
        else 255)
unfolding init_pmm
init_pmm_lem kernel_paddr kernel_end memmap k s h =
    let (more, small, inside) =
      survey_memory_lem 0 (2 ^ 32 - 1) memmap s (omega arith) (omega arith) in
    bytes_lem _ _ _ _ _ k memmap h (omega arith) s inside
