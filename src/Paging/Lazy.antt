-- ===== src/Paging/Lazy.antt =====
-- What page faults do at pages that are reserved: they get a frame, and a table if there is none.
use muxomucota.Base.{
  ℕ, ◌+◌, ◌%◌, ◌^◌, ◌≡◌, ◌≢◌, Bool, true, false, [], if◌then◌else◌, arith, update, refl, some, ◌∙◌,
  ap, inl, inr, ◌⊎◌,
}
use muxomucota.Base.Outcome.{ok}
use muxomucota.Pmm.{Pmm, alloc}
use muxomucota.Pmm.Inv.{IsValid}
use muxomucota.Pmm.Alloc.{alloc-Claimed}
use muxomucota.Paging.{
  Entry, mapped, reserved, Vm, pdi, pti, set_entry, do_cow, do_lazy_map, handle_pagefault,
  address_mapped, Rights, lazy_table, lazy_page, new_table, is_heritage,
}
use muxomucota.Paging.Fault.{page_of}

-- The rights to a page of the user.
abbrev pub user_rights : Bool → Rights
user_rights w = record { pr = true; pw = w; px = true; ur = true; uw = w; ux = true }

-- No copy is made where no page is present.
cow_absent :
    (vm : Vm) (address : ℕ)
    → ((vm.pd (pdi address)).present ≡ false) ⊎ ((page_of vm address).present ≡ false)
    → do_cow address vm ≡ ok (false, vm)
unfolding do_cow
cow_absent vm address h = ground arith

fault_lazy :
    (vm : Vm) (address : ℕ) (is_write : Bool)
    → ((vm.pd (pdi address)).present ≡ false) ⊎ ((page_of vm address).present ≡ false)
    → handle_pagefault is_write address vm ≡ do_lazy_map address vm
unfolding handle_pagefault
fault_lazy vm address is_write h = ground (arith, cow_absent vm address h)

-- What is the same after the page of an address got the frame `q`, with the right to write if `w`.
pub record Given (address q : ℕ) (w : Bool) (vm vm' : Vm) : Type 0 where
  pub usable : address_mapped address vm' ≡ some (q + address % 2 ^ 12, user_rights w)
  pub cleared : is_heritage address ≡ true → (i : ℕ) → vm'.bytes q i ≡ 0
  pub other_bytes : (g : ℕ) → g ≢ q → vm'.bytes g ≡ vm.bytes g
  pub other_tables : (d : ℕ) → d ≢ pdi address → vm'.pd d ≡ vm.pd d
  pub same_end : vm'.heap_end ≡ vm.heap_end
  pub valid : IsValid vm'.pmm

-- The state after the page in the table at `t` got the frame `r.0`.
abbrev given : ℕ → ℕ → Bool → ℕ × Pmm → Vm → Vm
given address t w r vm = record vm {
  pmm = r.1;
  tables = set_entry vm.tables t (pti address) (mapped r.0 w);
  bytes = if is_heritage address then update vm.bytes r.0 (λ i. 0) else vm.bytes;
}

-- A page fault, by a read or a write, at a page that is reserved in a table that there is, with a
-- frame left: `handle_pagefault` gives the page that frame. The address can then be used with the
-- rights that were reserved; a page that processes share is cleared; no other page changes.
pub handle_pagefault-Given :
    (vm : Vm) (address q : ℕ) (w is_write : Bool) {s : Pmm}
    → IsValid vm.pmm
    → (vm.pd (pdi address)).present ≡ true
    → (vm.pd (pdi address)).user ≡ true
    → page_of vm address ≡ reserved w
    → alloc [] vm.pmm ≡ ok (q, s)
    → (vm' : Vm) × (handle_pagefault is_write address vm ≡ ok (true, vm'))
      × Given address q w vm vm'
      × ((t i : ℕ)
          → (t ≢ (vm.pd (pdi address)).frame) ⊎ (i ≢ pti address)
          → vm'.tables t i ≡ vm.tables t i)
unfolding do_lazy_map lazy_page lazy_table address_mapped
handle_pagefault-Given vm address q w is_write {s} v there user page e =
    let t = (vm.pd (pdi address)).frame in
    let c = alloc-Claimed [] v e in
    (
      given address t w (q, s) vm,
      fault_lazy vm address is_write (inr (ap (λ (x : Entry). x.present) page))
          ∙ ground (arith, page, e),
      record {
        usable = ground arith;
        cleared = λ h i. ground (arith, h);
        other_bytes = λ g h. ground (arith, h);
        other_tables = λ d h. refl;
        same_end = refl;
        valid = c.valid;
      },
      λ t' i h. ground (arith, h),
    )

-- A page fault at a page whose whole table is only reserved, with two frames left: one becomes the
-- table, in which every page is reserved with the same rights, and the other one the page's. The
-- address can be used then; the tables of other addresses are as before.
pub handle_pagefault_table :
    (vm : Vm) (address t q : ℕ) (w is_write : Bool) {s s' : Pmm}
    → IsValid vm.pmm
    → vm.pd (pdi address) ≡ reserved w
    → alloc [] vm.pmm ≡ ok (t, s)
    → alloc [] s ≡ ok (q, s')
    → (vm' : Vm) × (handle_pagefault is_write address vm ≡ ok (true, vm'))
      × Given address q w vm vm'
      × ((i : ℕ) → i ≢ pti address → vm'.tables t i ≡ reserved w)
      × ((t' i : ℕ) → t' ≢ t → vm'.tables t' i ≡ vm.tables t' i)
unfolding do_lazy_map lazy_page lazy_table new_table address_mapped
handle_pagefault_table vm address t q w is_write {s} {s'} v table e e' =
    let c = alloc-Claimed [] v e in
    let c' = alloc-Claimed [] c.valid e' in
    let vm₁ = record vm {
      pmm = s;
      pd = update vm.pd (pdi address) (mapped t w);
      tables = update vm.tables t (λ i. reserved w);
    } in
    (
      given address t w (q, s') vm₁,
      fault_lazy vm address is_write (inl (ap (λ (x : Entry). x.present) table))
          ∙ ground (arith, table, e, e'),
      record {
        usable = ground arith;
        cleared = λ h i. ground (arith, h);
        other_bytes = λ g h. ground (arith, h);
        other_tables = λ d h. ground (arith, h);
        same_end = refl;
        valid = c'.valid;
      },
      λ i h. ground (arith, h),
      λ t' i h. ground (arith, h),
    )
