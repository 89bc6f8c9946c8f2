-- ===== src/Paging/Clone.antt =====
-- `vmmc_clone`: a copy of an address space that shares the pages.
pub mod Step
pub mod Shared
pub mod Table
use muxomucota.Base.{ℕ, zero, suc, Bool, true, false, not, [], if◌then◌else◌, update}
use muxomucota.Base.Outcome.{Outcome, ok, ◌>>=◌}
use muxomucota.Pmm.{Pmm, alloc, pmm_use, mark_cow}
use muxomucota.Paging.{Entry, mapped, Vm, set_entry}

-- The entry `i` of the table at `t`, which the table at `u` shares from now on.
pub clone_page : ℕ → ℕ → ℕ → Vm → Outcome Vm
clone_page i t u vm =
    let e = vm.tables t i in
    let protected = set_entry vm.tables t i (record e { writable = false }) in
    let shared = λ (pmm' : Pmm). record vm {
      pmm = pmm';
      tables = set_entry protected u i (mapped e.frame false);
    } in
    if not e.present
    then ok (record vm { tables = set_entry vm.tables u i e })
    else pmm_use e.frame vm.pmm >>= λ s. mark_cow e.frame true s >>= λ s'. ok (shared s')

-- The loop over a table from the index `i` on, with `n` to go.
pub clone_pages : ℕ → ℕ → ℕ → ℕ → Vm → Outcome Vm
unfolding clone_page
clone_pages zero i t u vm = ok vm
clone_pages (suc n) i t u vm = clone_page i t u vm >>= λ vm'. clone_pages n (suc i) t u vm'

-- The round for the directory index `d`, of the copy's directory `dest`.
pub clone_table : ℕ → (ℕ → Entry) → Vm → Outcome ((ℕ → Entry) × Vm)
unfolding clone_pages
clone_table d dest vm =
    let share = λ (r : ℕ × Pmm).
      clone_pages 1024 0 (vm.pd d).frame r.0 (record vm { pmm = r.1 }) >>= λ vm'.
      ok (update dest d (mapped r.0 true), vm') in
    if not (vm.pd d).present then ok (update dest d (vm.pd d), vm) else alloc [] vm.pmm >>= share

-- The loop over the directory from the index `d` on, with `n` to go.
pub clone_loop : ℕ → ℕ → (ℕ → Entry) → Vm → Outcome ((ℕ → Entry) × Vm)
unfolding clone_table
clone_loop zero d dest vm = ok (dest, vm)
clone_loop (suc n) d dest vm = clone_table d dest vm >>= λ r. clone_loop n (suc d) r.0 r.1

-- `vmmc_clone` of the address space to one with the directory `dest`: the copy's directory and the
-- end of its heap, and the state, with the directory of the source.
pub clone : (ℕ → Entry) → Vm → Outcome ((ℕ → Entry) × ℕ × Vm)
unfolding clone_loop
clone dest vm = clone_loop 960 0 dest vm >>= λ r. ok (r.0, r.1.heap_end, r.1)
