-- ===== src/Shm.antt =====
-- Shared memory and the end of the heap, src/kernel/common/memory/vmem.c. The checksum that guards
-- the structure of a piece of shared memory is left out: the functions are given a sound structure.
pub mod Users
pub mod Break
mod Tests
use muxomucota.Base.{
  ℕ, zero, suc, ◌+◌, ◌-◌, ◌*◌, ◌/◌, ◌%◌, ◌^◌, Bool, true, false, not, ◌&&◌, ◌||◌, Option, none,
  some, List, [], ◌∷◌, ◌++◌, length, replicate, ◌==◌, ltb, leb, if◌then◌else◌,
}
use muxomucota.Base.Outcome.{Outcome, ok, panic, ◌>>=◌, ◌>>◌, kassert}
use muxomucota.Pmm.{Pmm, alloc, free, pmm_use, alloced}
use muxomucota.Paging.{Vm, Rights, address_mapped, do_lazy_map}
use muxomucota.Paging.Space.{user_map_sg, user_unmap}

-- `struct shm_sg`
pub record Shm : Type 0 where
  pub size : ℕ
  pub users : ℕ
  pub offset : ℕ
  pub kept_alive : Bool
  pub phys : List ℕ

-- `(sg->size + PAGE_SIZE - 1) / PAGE_SIZE`
abbrev pub page_count : ℕ → ℕ
page_count size = (size + 4095) % 2 ^ 32 / 4096

-- `vmmc_create_shm`; the frames are not set yet.
pub create_shm : ℕ → Shm
create_shm sz = record {
  size = sz;
  users = 0;
  offset = 0;
  kept_alive = false;
  phys = replicate (page_count sz) 0;
}

-- `pmm_use`, `pmm_free` and `pmm_alloc` for every frame
pub use_all : List ℕ → Pmm → Outcome Pmm
use_all [] s = ok s
use_all (p ∷ ps) s = pmm_use p s >>= λ s'. use_all ps s'

pub free_all : List ℕ → Pmm → Outcome Pmm
free_all [] s = ok s
free_all (p ∷ ps) s = free p s >>= λ s'. free_all ps s'

pub alloc_all : ℕ → Pmm → Outcome (List ℕ × Pmm)
alloc_all zero s = ok ([], s)
alloc_all (suc n) s = do r ← alloc [] s; rs ← alloc_all n r.1; ok (r.0 ∷ rs.0, rs.1)

-- The loop of `vmmc_make_shm` over `n` pages from `address` on, which brings in the pages that are
-- only reserved.
pub make_pages : ℕ → ℕ → Vm → Outcome (List ℕ × Vm)
make_pages zero address vm = ok ([], vm)
make_pages (suc n) address vm =
    let brought = do_lazy_map address vm >>= λ r. kassert r.0 >> ok r.1 in
    let there : Outcome Vm = elim (address_mapped address vm) [
      | none ↦ brought
      | some m ↦ kassert (m.1.ur || m.1.uw) >> ok vm
    ] in
    there >>= λ v. elim (address_mapped address v) [
      | none ↦ panic
      | some m ↦ do
        kassert (m.1.ur || m.1.uw)
        kassert (ltb address 0xf0000000)
        a ← alloced m.0 v.pmm
        kassert a
        s ← pmm_use m.0 v.pmm
        r ← make_pages n (address + 4096) (record v { pmm = s })
        ok (m.0 ∷ r.0, r.1)
    ]

-- The areas of `vmmc_make_shm`: an address and a number of pages each.
pub make_areas : List (ℕ × ℕ) → Vm → Outcome (List ℕ × Vm)
unfolding make_pages
make_areas [] vm = ok ([], vm)
make_areas (area ∷ areas) vm = do
  r ← make_pages area.1 (area.0 / 4096 * 4096) vm
  rs ← make_areas areas r.1
  ok (r.0 ++ rs.0, rs.1)

-- `vmmc_make_shm`
pub make_shm : List (ℕ × ℕ) → ℕ → Vm → Outcome (Shm × Vm)
unfolding make_areas
make_shm areas offset vm = do
  kassert (ltb 0 (length areas))
  kassert (ltb offset 4096)
  r ← make_areas areas vm
  ok (
    record {
      size = length r.0 * 4096 % 2 ^ 32;
      users = 1;
      offset = offset;
      kept_alive = false;
      phys = r.0;
    },
    r.1,
  )

-- The address where the frames are mapped, with the offset in the first page; 0 is the null pointer.
pub map_shm : Rights → Shm → Vm → Outcome (ℕ × Vm)
map_shm flags sg vm = do
  r ← user_map_sg sg.phys flags vm
  ok ((elim r.0 [ none ↦ 0 | some a ↦ a ]) + sg.offset, r.1)

-- The first use of shared memory: `vmmc_open_shm` gives it frames.
pub open_first : Rights → Shm → Vm → Outcome (ℕ × Shm × Vm)
unfolding map_shm alloc_all free_all
open_first flags sg vm = do
  f ← alloc_all (page_count sg.size) vm.pmm
  let sg' = record sg { phys = f.0 }
  r ← map_shm flags sg' (record vm { pmm = f.1 })
  if r.0 == 0
      then free_all f.0 r.1.pmm >>= (λ s. ok (0, sg', record r.1 { pmm = s }))
      else ok (r.0, record sg' { users = sg.users + 1 }, r.1)

-- Another use: the frames get one user more, but for the user that kept them alive.
pub open_again : Rights → Shm → Vm → Outcome (ℕ × Shm × Vm)
unfolding map_shm use_all
open_again flags sg vm = map_shm flags sg vm >>= λ r.
    if r.0 == 0
    then ok (0, sg, r.1)
    else if sg.kept_alive
    then ok (r.0, record sg { kept_alive = false; users = sg.users + 1 }, r.1)
    else use_all sg.phys r.1.pmm
      >>= (λ s. ok (r.0, record sg { users = sg.users + 1 }, record r.1 { pmm = s }))

-- `vmmc_open_shm`: the address, 0 where the source returns the null pointer.
pub open_shm : Rights → Shm → Vm → Outcome (ℕ × Shm × Vm)
unfolding open_first open_again
open_shm flags sg vm =
    if sg.kept_alive || not (sg.users == 0) then open_again flags sg vm else open_first flags sg vm

-- `vmmc_unmake_shm`: `none` once the structure is freed. The number of users is an `int`, which the
-- code takes to be positive.
pub unmake_shm : Bool → Shm → Vm → Outcome (Option Shm × Vm)
unfolding free_all
unmake_shm destroy sg vm =
    let last = sg.users - 1 == 0 in
    if last && not destroy
    then ok (some (record sg { users = sg.users - 1; kept_alive = true }), vm)
    else free_all sg.phys vm.pmm >>= (λ s.
      ok (if last then none else some (record sg { users = sg.users - 1 }), record vm { pmm = s }))

-- `vmmc_close_shm` of what is mapped at `virt`
pub close_shm : ℕ → Bool → Shm → Vm → Outcome (Option Shm × Vm)
unfolding unmake_shm
close_shm virt destroy sg vm =
    user_unmap (virt - sg.offset) sg.size vm >>= λ vm'. unmake_shm destroy sg vm'
