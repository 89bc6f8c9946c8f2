-- ===== src/Paging/Area.antt =====
-- `vmmc_lazy_map_area`: pages that get a frame when they are used.
use muxomucota.Base.{
  ℕ, zero, suc, ◌+◌, ◌-◌, ◌/◌, ◌%◌, ◌^◌, Bool, true, ◌&&◌, not, [], leb, ltb, ◌==◌, if◌then◌else◌,
  update,
}
use muxomucota.Base.Outcome.{Outcome, ok, out_of_fuel, ◌>>=◌}
use muxomucota.Pmm.{Pmm, alloc}
use muxomucota.Paging.{Entry, reserved, mapped, Vm, pdi, pti}

-- The `n` entries from `i` on of a table become reserved, if they are not present.
pub reserve : ℕ → ℕ → Bool → (ℕ → Entry) → ℕ → Entry
reserve zero i w pt = pt
reserve (suc n) i w pt =
    reserve n (suc i) w (if (pt i).present then pt else update pt i (reserved w))

-- `memsetptr(pt + pti, …, n)`
pub fill : ℕ → ℕ → Entry → (ℕ → Entry) → ℕ → Entry
fill zero i e pt = pt
fill (suc n) i e pt = fill n (suc i) e (update pt i e)

-- A round of the loop that works on the table of the directory index `d`: `n` pages from `i` on.
-- A table that was not there is not cleared first.
pub area_table : ℕ → ℕ → ℕ → Bool → Vm → Outcome Vm
unfolding reserve fill
area_table d i n w vm =
    let t = (vm.pd d).frame in
    let fresh = λ (r : ℕ × Pmm). ok (record vm {
      pmm = r.1;
      pd = update vm.pd d (mapped r.0 true);
      tables = update vm.tables r.0 (fill n i (reserved w) (vm.tables r.0));
    }) in
    if (vm.pd d).present
    then ok (record vm { tables = update vm.tables t (reserve n i w (vm.tables t)) })
    else alloc [] vm.pmm >>= fresh

-- The loop of `vmmc_lazy_map_area`, with `sz` pages to go.
pub area_loop : ℕ → ℕ → ℕ → ℕ → Bool → Vm → Outcome Vm
unfolding area_table
area_loop zero d i sz w vm = out_of_fuel
area_loop (suc fuel) d i sz w vm =
    let n = if ltb (1024 - i) sz then 1024 - i else sz in
    let whole =
      area_loop fuel (suc d) i (sz - 1024) w (record vm { pd = update vm.pd d (reserved w) }) in
    let part = area_table d i n w vm >>= λ vm'. area_loop fuel (suc d) 0 (sz - n) w vm' in
    if sz == 0
    then ok vm
    else if not (vm.pd d).present && (leb 1024 sz && i == 0)
    then whole
    else part

-- `vmmc_lazy_map_area`, for `sz` bytes.
pub lazy_map_area : ℕ → ℕ → ℕ → Bool → Vm → Outcome Vm
unfolding area_loop
lazy_map_area fuel virt sz w vm =
    let pages = if not (sz % 2 ^ 12 == 0) then sz / 2 ^ 12 + 1 else sz / 2 ^ 12 in
    area_loop fuel (pdi virt) (pti virt) pages w vm
