-- ===== src/Paging/Space.antt =====
-- Pages that are mapped and unmapped one by one: `vmmc_map_user_page_unlocked`,
-- `vmmc_user_map_sg`, `vmmc_user_unmap` and `vmmc_clear_user`.
pub mod Limits
use muxomucota.Base.{
  ℕ, zero, suc, ◌+◌, ◌-◌, ◌*◌, ◌/◌, ◌%◌, ◌^◌, Bool, true, false, ◌&&◌, ◌||◌, not, Option, none,
  some, List, [], ◌∷◌, leb, ltb, ◌==◌, if◌then◌else◌, update, length,
}
use muxomucota.Base.Outcome.{Outcome, ok, ◌>>=◌}
use muxomucota.Pmm.{free}
use muxomucota.Paging.{
  Entry, not_present, reserved, mapped, Vm, pdi, pti, set_entry, new_table, Rights,
}

-- The table of an address that a page is mapped at.
pub map_table : ℕ → Vm → Outcome (ℕ × Vm)
unfolding new_table
map_table address vm =
    let pde = vm.pd (pdi address) in
    if pde.present
    then ok (pde.frame, vm)
    else if pde.user
    then new_table address pde.writable (reserved pde.writable) vm
    else new_table address true not_present vm

-- `vmmc_map_user_page_unlocked`
pub map_page : ℕ → ℕ → Rights → Vm → Outcome Vm
unfolding map_table
map_page address phys flags vm =
    let e : Entry = record {
      frame = phys / 2 ^ 12 * 2 ^ 12;
      present = true;
      writable = flags.uw || flags.pw;
      user = flags.ur || flags.uw || flags.ux;
    } in
    if leb 0xf0000000 address
    then ok vm
    else map_table address vm >>= λ r.
        ok (record r.1 { tables = set_entry r.1.tables r.0 (pti address) e })

-- The loop of `vmmc_user_map_sg` over one table: from the index `i` on, `n` to go, and `size` free
-- pages in a row before it. The index where it stops, and the free pages then.
pub scan_table : ℕ → ℕ → ℕ → ℕ → (ℕ → Entry) → ℕ × ℕ
scan_table zero i size pages pt = (i, size)
scan_table (suc n) i size pages pt =
    let more = scan_table n (suc i) (if (pt i).present then 0 else size + 1) pages pt in
    if ltb size pages then more else (i, size)

-- The loop over the directory from `d` on, with `n` to go: the directory index and table index
-- where it stops, and the free pages before that place.
pub scan : ℕ → ℕ → ℕ → ℕ → ℕ → Vm → ℕ × ℕ × ℕ
unfolding scan_table
scan zero d i size pages vm = (d, i, size)
scan (suc n) d i size pages vm =
    let pde = vm.pd d in
    let r =
      if pde.present
      then scan_table 1024 0 size pages (vm.tables pde.frame)
      else (1024, size + 1024) in
    let more = scan n (suc d) r.0 r.1 pages vm in if leb pages r.1 then (d, r.0, r.1) else more

-- The pages of a list are mapped one after another.
pub map_all : ℕ → List ℕ → Rights → Vm → Outcome Vm
unfolding map_page
map_all address [] flags vm = ok vm
map_all address (p ∷ ps) flags vm =
    map_page address p flags vm >>= λ vm'. map_all (address + 2 ^ 12) ps flags vm'

-- `((uintptr_t)pdi << 22) | ((uintptr_t)pti << 12)`, with `pti` at most 1024: bit 22 is set either
-- way.
abbrev pub end_of_block : ℕ → ℕ → ℕ
end_of_block d i = if i == 1024 && d % 2 == 1 then d * 2 ^ 22 else d * 2 ^ 22 + i * 2 ^ 12

-- `vmmc_user_map_sg`: the address, or `none` where the source returns the null pointer.
unfoldable pub user_map_sg : List ℕ → Rights → Vm → Outcome (Option ℕ × Vm)
unfolding scan map_all
user_map_sg phys flags vm =
    let pages = length phys in
    let (d, i, size) = scan 192 768 0 0 pages vm in
    let start = end_of_block d i - size * 2 ^ 12 in
    if ltb size pages
    then ok (none, vm)
    else map_all start phys flags vm >>= λ vm'. ok (some start, vm')

-- The entries of a table from `i` on, `n` of them, become empty.
pub clear_entries : ℕ → ℕ → (ℕ → Entry) → ℕ → Entry
clear_entries zero i pt = pt
clear_entries (suc n) i pt = clear_entries n (suc i) (update pt i not_present)

-- The round of `vmmc_user_unmap` for the directory index `d`.
pub unmap_table : ℕ → ℕ → ℕ → Vm → Outcome Vm
unfolding clear_entries
unmap_table d from to vm =
    let t = (vm.pd d).frame in
    let vm' = record vm {
      tables = update vm.tables t (clear_entries (to - from) from (vm.tables t));
    } in
    let dropped =
      free t vm'.pmm >>= λ pmm'. ok (record vm' { pmm = pmm'; pd = update vm'.pd d not_present }) in
    if not (vm.pd d).present then ok vm else if from == 0 && to == 1024 then dropped else ok vm'

-- The loop of `vmmc_user_unmap` at the directory index `d`, with `n` to go.
pub unmap_loop : ℕ → ℕ → ℕ → ℕ → Vm → Outcome Vm
unfolding unmap_table
unmap_loop zero d virt length vm = ok vm
unmap_loop (suc n) d virt length vm =
    let from = if ltb (virt / 2 ^ 22) d then 0 else virt / 2 ^ 12 % 1024 in
    let to = if not (n == 0) then 1024 else (virt + length + 4095) % 2 ^ 32 / 2 ^ 12 % 1024 in
    unmap_table d from to vm >>= λ vm'. unmap_loop n (suc d) virt length vm'

-- `vmmc_user_unmap`
pub user_unmap : ℕ → ℕ → Vm → Outcome Vm
unfolding unmap_loop
user_unmap virt length vm =
    let start = virt / 2 ^ 22 in
    let end = (virt + length + 2 ^ 22 - 1) % 2 ^ 32 / 2 ^ 22 in
    unmap_loop (end - start) start virt length vm

-- The pages of a table from `i` on, `n` of them, lose a user.
pub free_pages : ℕ → ℕ → (ℕ → Entry) → Vm → Outcome Vm
free_pages zero i pt vm = ok vm
free_pages (suc n) i pt vm =
    let more = λ (v : Vm). free_pages n (suc i) pt v in
    if (pt i).present
    then free (pt i).frame vm.pmm >>= (λ pmm'. more (record vm { pmm = pmm' }))
    else more vm

-- The round of `vmmc_clear_user` for the directory index `d`: the pages of shared memory, from
-- USER_MAP_BASE on, are not the process's own.
pub clear_table : Bool → ℕ → Vm → Outcome Vm
unfolding free_pages
clear_table preserve_heritage d vm =
    let pde = vm.pd d in
    let own =
      if ltb d 768 || leb 896 d then free_pages 1024 0 (vm.tables pde.frame) vm else ok vm in
    let emptied = own >>= λ v.
    free pde.frame v.pmm >>= λ pmm'. ok (record v { pmm = pmm'; pd = update v.pd d not_present }) in
    if preserve_heritage && (leb 764 d && ltb d 768)
    then ok vm
    else if not pde.present
    then ok (record vm { pd = update vm.pd d not_present })
    else emptied

-- The loop of `vmmc_clear_user` from the directory index `d` on, with `n` to go.
pub clear_loop : ℕ → ℕ → Bool → Vm → Outcome Vm
unfolding clear_table
clear_loop zero d preserve_heritage vm = ok vm
clear_loop (suc n) d preserve_heritage vm =
    clear_table preserve_heritage d vm >>= λ vm'. clear_loop n (suc d) preserve_heritage vm'

-- `vmmc_clear_user`
pub clear_user : Bool → Vm → Outcome Vm
unfolding clear_loop
clear_user preserve_heritage vm = clear_loop 960 0 preserve_heritage vm
