-- ===== src/Shm/Break.antt =====
-- `context_sbrk`: the end of the heap moves, and whole pages with it.
use muxomucota.Base.{
  ℕ, zero, suc, ◌+◌, ◌-◌, ◌*◌, ◌/◌, ◌%◌, ◌^◌, false, true, ◌&&◌, not, none, some, [], ◌==◌, ltb,
  if◌then◌else◌,
}
use muxomucota.Base.Outcome.{Outcome, ok, ◌>>=◌}
use muxomucota.Pmm.{alloc, free}
use muxomucota.Paging.{Vm, Rights, address_mapped}
use muxomucota.Paging.Space.{map_page, user_unmap}

-- VMM_UR | VMM_UW
abbrev pub read_write : Rights
read_write = record { pr = false; pw = false; px = false; ur = true; uw = true; ux = false }

-- The loop that maps the `n` pages from `page` on, where none is mapped.
pub grow : ℕ → ℕ → Vm → Outcome Vm
grow zero page vm = ok vm
grow (suc n) page vm =
    let new = alloc [] vm.pmm >>= λ r. map_page page r.0 read_write (record vm { pmm = r.1 }) in
    elim (address_mapped page vm) [
      | none ↦ new >>= λ v. grow n (page + 4096) v
      | some m ↦ grow n (page + 4096) vm
    ]

-- The loop that gives back the `n` pages from `page` on.
pub shrink : ℕ → ℕ → Vm → Outcome Vm
shrink zero page vm = ok vm
shrink (suc n) page vm = elim (address_mapped page vm) [
  | none ↦ shrink n (page + 4096) vm
  | some m ↦ free m.0 vm.pmm >>= λ s.
      user_unmap page 4096 (record vm { pmm = s }) >>= λ v. shrink n (page + 4096) v
]

-- A multiple of the page size: `(a + PAGE_SIZE - 1) & ~(PAGE_SIZE - 1)`
abbrev pub page_up : ℕ → ℕ
page_up a = (a + 4095) % 2 ^ 32 / 4096 * 4096

-- `context_sbrk`, for an increment that is given by its 32 bits: the old end, and the new state.
-- Increments below 16 are not rounded.
pub sbrk : ℕ → Vm → Outcome (ℕ × Vm)
unfolding grow shrink
sbrk inc vm =
    let up =
      if ltb inc (2 ^ 31) && not (inc / 16 == 0) then (inc + 15) / 16 * 16 else inc / 16 * 16 in
    let step = if inc / 16 == 0 then inc else up in
    let old = vm.heap_end in
    let new = (old + step) % 2 ^ 32 in
    let vm' = record vm { heap_end = new } in
    let from = old / 4096 * 4096 in
    if inc == 0
    then ok (old, vm)
    else if ltb step (2 ^ 31)
    then grow ((page_up new - from) / 4096) from vm' >>= (λ v. ok (old, v))
    else shrink ((page_up old - page_up new) / 4096) (page_up new) vm' >>= (λ v. ok (old, v))
