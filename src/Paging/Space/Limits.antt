-- ===== src/Paging/Space/Limits.antt =====
-- Areas at the borders of page tables, where `vmmc_user_unmap` and `vmmc_user_map_sg` go wrong.
use muxomucota.Base.{
  ℕ, zero, suc, ◌+◌, ◌-◌, ◌*◌, ◌/◌, ◌%◌, ◌^◌, ◌≤◌, ◌<◌, ◌≡◌, true, false, some, [], ◌∷◌, leb, arith,
  update, refl, ◌∙◌, ap, ◌||◌,
}
use muxomucota.Base.Outcome.{ok}
use muxomucota.Paging.{Entry, Vm, pdi, set_entry, address_mapped, Rights}
use muxomucota.Paging.Space.{
  scan_table, scan, map_all, map_page, map_table, user_map_sg, clear_entries, unmap_table,
  unmap_loop, user_unmap,
}

-- An area of pages in one table that ends where the table ends: `vmmc_user_unmap` returns, but every
-- address is mapped as it was before, since the index behind the last page is taken to be 0.
pub user_unmap_boundary :
    (virt size : ℕ) (vm : Vm)
    → 0 < size
    → size < 2 ^ 22
    → virt + size < 2 ^ 32 - 2 ^ 22
    → (virt + size) % 2 ^ 22 ≡ 0
    → (vm.pd (pdi virt)).present ≡ true
    → (vm' : Vm) × (user_unmap virt size vm ≡ ok vm')
      × ((a : ℕ) → address_mapped a vm' ≡ address_mapped a vm)
unfolding user_unmap unmap_loop unmap_table clear_entries address_mapped
user_unmap_boundary virt size vm pos short low border there =
    let one : (virt + size + 2 ^ 22 - 1) % 2 ^ 32 / 2 ^ 22 - virt / 2 ^ 22 ≡ suc 0 = omega arith in
    let none_left : (virt + size + 4095) % 2 ^ 32 / 2 ^ 12 % 1024 ≡ 0 = omega arith in
    let t = (vm.pd (pdi virt)).frame in
    (
      record vm { tables = update vm.tables t (vm.tables t) },
      rw one (ground (arith, none_left)),
      λ a. ground arith,
    )

-- In a table with no free page the search of `vmmc_user_map_sg` comes to the end with none.
scan_table_full :
    (n i pages : ℕ) (pt : ℕ → Entry)
    → 0 < pages
    → ((j : ℕ) → (pt j).present ≡ true)
    → scan_table n i 0 pages pt ≡ (i + n, 0)
unfolding scan_table
scan_table_full zero i pages pt pos full = let e : i + 0 ≡ i = omega arith in rw e
scan_table_full (suc n) i pages pt pos full =
    let e : suc i + n ≡ i + suc n = omega arith in
    ground (arith, full i, scan_table_full n (suc i) pages pt pos full, e)

lt→leb : (n : ℕ) → 0 < n → leb n 0 ≡ false
lt→leb n h = ground arith

set_entry_self : (tables : ℕ → ℕ → Entry) (t i : ℕ) (e : Entry) → set_entry tables t i e t i ≡ e
set_entry_self tables t i e = ground arith

round_whole : (p : ℕ) → p % 2 ^ 12 ≡ 0 → p / 2 ^ 12 * 2 ^ 12 ≡ p
round_whole p h = omega arith

scan_on :
    (n d i pages : ℕ) (vm : Vm)
    → 0 < pages
    → (vm.pd d).present ≡ true
    → scan_table 1024 0 0 pages (vm.tables (vm.pd d).frame) ≡ (1024, 0)
    → scan (suc n) d i 0 pages vm ≡ scan n (suc d) 1024 0 pages vm
unfolding scan
scan_on n d i pages vm pos there s =
    let test : leb pages 0 ≡ false = lt→leb pages pos in rw (there, s, test) refl

scan_gap :
    (n d i pages : ℕ) (vm : Vm)
    → pages ≤ 1024
    → (vm.pd d).present ≡ false
    → scan (suc n) d i 0 pages vm ≡ (d, 1024, 1024)
unfolding scan
scan_gap n d i pages vm few gap = rw gap (ground arith)

-- Where the search ends behind the table that is not there, the page is mapped one table too low.
map_low :
    (p : ℕ) (flags : Rights) (vm : Vm)
    → (vm.pd 768).present ≡ true
    → scan 192 768 0 0 1 vm ≡ (769, 1024, 1024)
    → user_map_sg (p ∷ []) flags vm
      ≡ ok (
        some 0xc0000000,
        record vm {
          tables = set_entry vm.tables (vm.pd 768).frame 0 (record {
            frame = p / 2 ^ 12 * 2 ^ 12;
            present = true;
            writable = flags.uw || flags.pw;
            user = flags.ur || flags.uw || flags.ux;
          });
        },
      )
unfolding user_map_sg map_all map_page map_table
map_low p flags vm there e = rw (e, there) refl

-- The first table of the area for such mappings is full, and the second is not there. Then
-- `vmmc_user_map_sg` of one page returns the first address of the full table, and the page that was
-- mapped there is replaced.
pub user_map_sg_overlap :
    (p : ℕ) (flags : Rights) (vm : Vm)
    → (vm.pd 768).present ≡ true
    → ((j : ℕ) → (vm.tables (vm.pd 768).frame j).present ≡ true)
    → (vm.pd 769).present ≡ false
    → p % 2 ^ 12 ≡ 0
    → (vm' : Vm) × (user_map_sg (p ∷ []) flags vm ≡ ok (some 0xc0000000, vm'))
      × ((vm'.tables (vm'.pd 768).frame 0).frame ≡ p)
user_map_sg_overlap p flags vm there full next whole =
    let s = scan_table_full 1024 0 1 (vm.tables (vm.pd 768).frame) (omega arith) full in
    let e =
      scan_on 191 768 0 1 vm (omega arith) there s
      ∙ scan_gap 190 769 1024 1 vm (omega arith) next in
    let e' = map_low p flags vm there e in
    (
      _,
      e',
      ap (λ (x : Entry). x.frame)
            (set_entry_self vm.tables (vm.pd 768).frame 0 (record {
              frame = p / 2 ^ 12 * 2 ^ 12;
              present = true;
              writable = flags.uw || flags.pw;
              user = flags.ur || flags.uw || flags.ux;
            }))
          ∙ round_whole p whole,
    )
