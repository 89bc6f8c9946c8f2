-- ===== src/Pmm/Boot.antt =====
-- The set-up of page frames at boot, `init_pmm` of src/kernel/common/memory/pmm.c. The boot loader's memory
-- map and the place of the kernel are parameters.
pub mod Frames
pub mod Valid
mod Tests
use muxomucota.Base.{
  ℕ, zero, suc, ◌+◌, ◌-◌, ◌%◌, ◌/◌, ◌*◌, ◌^◌, Bool, ◌&&◌, List, [], ◌∷◌, ltb, leb, if◌then◌else◌,
  set,
}
use muxomucota.Pmm.{Pmm, page_size}

-- What `get_memmap_info` gives.
pub record Region : Type 0 where
  pub usable : Bool
  pub base : ℕ
  pub size : ℕ

-- The first loop: how far the usable memory reaches, and where it starts.
pub survey_memory : ℕ → ℕ → List Region → ℕ × ℕ
survey_memory memsize base [] = (memsize, base)
survey_memory memsize base (r ∷ rs) =
    let size = if ltb ((r.base + r.size) % 2 ^ 32) r.base then 2 ^ 32 - 1 - r.base else r.size in
    survey_memory
      (if r.usable && ltb memsize ((r.base + size) % 2 ^ 32)
        then (r.base + size) % 2 ^ 32
        else memsize)
      (if r.usable && ltb r.base base then r.base else base) rs

-- `n` bytes `v` from the index `i` on.
pub fill : List ℕ → ℕ → ℕ → ℕ → List ℕ
fill bitmap i v zero = bitmap
fill bitmap i v (suc n) = fill (set bitmap i v) (suc i) v n

-- `memset` of a fresh array.
pub filled : ℕ → ℕ → List ℕ
filled v zero = []
filled v (suc n) = v ∷ filled v n

-- The first frame of a region, and the one behind its last, in an array of `entries` from `mem_base`
-- on.
abbrev pub first_frame : ℕ → Region → ℕ
first_frame mem_base r = if ltb mem_base r.base then (r.base - mem_base) / page_size else 0

abbrev pub top_frame : ℕ → ℕ → Region → ℕ
top_frame entries mem_base r =
    let top =
      if ltb ((r.base + r.size + (page_size - 1)) % 2 ^ 32) r.base
      then entries
      else (r.base + r.size + (page_size - 1) + 2 ^ 32 - mem_base) % 2 ^ 32 / page_size in
    if ltb entries top then entries else top

-- The second loop: the frames of usable regions become free.
pub free_usable : ℕ → ℕ → ℕ → List Region → List ℕ → List ℕ
unfolding fill
free_usable memsize entries mem_base [] bitmap = bitmap
free_usable memsize entries mem_base (r ∷ rs) bitmap =
    let first = first_frame mem_base r in
    let freed =
      if r.usable
        && ltb r.base memsize
        && ltb mem_base ((r.base + r.size) % 2 ^ 32)
        && leb first entries
      then fill bitmap first 0 (top_frame entries mem_base r - first)
      else bitmap in
    free_usable memsize entries mem_base rs freed

-- The frames of the kernel from `kernel` to `kernel_end` are reserved.
pub reserve_kernel : ℕ → ℕ → ℕ → ℕ → List ℕ → List ℕ
unfolding fill
reserve_kernel entries mem_base kernel kernel_end bitmap =
    let start = mem_base / page_size in
    let e = if ltb entries (kernel_end - start) then entries else kernel_end - start in
    if ltb start kernel_end && ltb kernel (entries + start)
    then fill bitmap (kernel - start) 127 (e - (kernel - start))
    else bitmap

-- `init_pmm`, for a kernel from the physical address `kernel_paddr` to `kernel_end`.
pub init_pmm : ℕ → ℕ → List Region → Pmm
unfolding survey_memory filled free_usable reserve_kernel
init_pmm kernel_paddr kernel_end memmap =
    let (memsize, lowest) = survey_memory 0 (2 ^ 32 - 1) memmap in
    let entries = (memsize + 2 ^ 32 - lowest) % 2 ^ 32 / page_size in
    let kernel = kernel_paddr / page_size in
    let behind = (kernel_end + (page_size - 1)) % 2 ^ 32 / page_size in
    let moved =
      if leb (kernel * page_size) lowest && ltb lowest (behind * page_size)
      then behind * page_size
      else lowest in
    let mem_base = (moved + (page_size - 1)) % 2 ^ 32 / page_size * page_size in
    let last = behind + (entries + (page_size - 1)) / page_size in
    record {
      mem_base = mem_base;
      mem_entries = entries;
      bitmap =
          reserve_kernel entries mem_base kernel last
            (free_usable memsize entries mem_base memmap (filled 255 entries));
      look_from_here = 0;
    }
