-- ===== src/Paging.antt =====
-- Address spaces and their page tables, src/kernel/arch/i386/mmu/vmem.c, and page faults,
-- src/kernel/arch/i386/mmu/pagefault.c. A word of a table is the frame and the flags in it; what
-- only steers the processor's caches is left out, as is the mapping of a table into the kernel.
pub mod Space
pub mod Area
pub mod Clone
pub mod Fault
pub mod Seen
pub mod Lazy
mod Tests
use muxomucota.Base.{
  ℕ, ◌+◌, ◌*◌, ◌/◌, ◌%◌, ◌^◌, Bool, true, false, ◌&&◌, ◌||◌, not, Option, none, some, [], leb, ltb,
  ◌==◌, if◌then◌else◌, update,
}
use muxomucota.Base.Outcome.{Outcome, ok, ◌>>=◌}
use muxomucota.Pmm.{Pmm, alloc, free, user_count, mark_cow, is_cow}

-- A word of a page directory or table: MAP_PR, MAP_RW and MAP_US, and the address in the rest.
pub record Entry : Type 0 where
  pub frame : ℕ
  pub present : Bool
  pub writable : Bool
  pub user : Bool

-- MAP_NP
abbrev pub not_present : Entry
not_present = record { frame = 0; present = false; writable = false; user = false }

-- A page of the user that is not there yet: it is given a frame when it is used.
abbrev pub reserved : Bool → Entry
reserved w = record { frame = 0; present = false; writable = w; user = true }

abbrev pub mapped : ℕ → Bool → Entry
mapped p w = record { frame = p; present = true; writable = w; user = true }

-- The page frames, the directory and the heap's end of one address space, and what is in the
-- frames: the tables, by frame and index, and the bytes of pages, by frame and offset.
pub record Vm : Type 0 where
  pub pmm : Pmm
  pub pd : ℕ → Entry
  pub tables : ℕ → ℕ → Entry
  pub bytes : ℕ → ℕ → ℕ
  pub heap_end : ℕ

abbrev pub pdi : ℕ → ℕ
pdi address = address / 2 ^ 22

abbrev pub pti : ℕ → ℕ
pti address = address / 2 ^ 12 % 1024

-- `pt[i] = e` in the table at `t`
abbrev pub set_entry : (ℕ → ℕ → Entry) → ℕ → ℕ → Entry → ℕ → ℕ → Entry
set_entry tables t i e = update tables t (update (tables t) i e)

-- A frame for the table of `address`, which is filled with `e`; the directory gets the rights.
pub new_table : ℕ → Bool → Entry → Vm → Outcome (ℕ × Vm)
new_table address w e vm = do
  r ← alloc [] vm.pmm
  ok (
    r.0,
    record vm {
      pmm = r.1;
      pd = update vm.pd (pdi address) (mapped r.0 w);
      tables = update vm.tables r.0 (λ i. e);
    },
  )

-- `vmmc_do_lazy_map`: the table of the address.
pub lazy_table : ℕ → Vm → Outcome (ℕ × Vm)
unfolding new_table
lazy_table address vm =
    let pde = vm.pd (pdi address) in
    if pde.present
    then ok (pde.frame, vm)
    else new_table address pde.writable (reserved pde.writable) vm

-- The addresses that processes share: USER_HERITAGE_BASE to USER_HERITAGE_TOP.
abbrev pub is_heritage : ℕ → Bool
is_heritage address = leb 0xbf000000 address && ltb address 0xc0000000

-- What `vmmc_do_lazy_map` does with the table at `t`.
pub lazy_page : ℕ → ℕ → Vm → Outcome (Bool × Vm)
lazy_page address t vm =
    let e = vm.tables t (pti address) in
    let give = λ (r : ℕ × Pmm). ok (
      true,
      record vm {
        pmm = r.1;
        tables = set_entry vm.tables t (pti address) (mapped r.0 e.writable);
        bytes = if is_heritage address then update vm.bytes r.0 (λ i. 0) else vm.bytes;
      },
    ) in
    if e.present || not e.user then ok (false, vm) else alloc [] vm.pmm >>= give

-- `vmmc_do_lazy_map`
pub do_lazy_map : ℕ → Vm → Outcome (Bool × Vm)
unfolding lazy_table lazy_page
do_lazy_map address vm =
    if not (vm.pd (pdi address)).user
    then ok (false, vm)
    else lazy_table address vm >>= (λ r. lazy_page address r.0 r.1)

-- The end of `vmmc_do_cow`, for a frame `f` with the given number of users.
pub split_page : ℕ → ℕ → ℕ → ℕ → Vm → Outcome (Bool × Vm)
split_page t i f users vm =
    let alone = mark_cow f false vm.pmm >>= λ pmm'. ok (
      true,
      record vm {
        pmm = pmm';
        tables = set_entry vm.tables t i (record (vm.tables t i) { writable = true });
      },
    ) in
    let copied = λ (r : ℕ × Pmm). free f r.1 >>= λ pmm'. ok (
      true,
      record vm {
        pmm = pmm';
        tables = set_entry vm.tables t i (mapped r.0 true);
        bytes = update vm.bytes r.0 (vm.bytes f);
      },
    ) in
    if users == 0 then ok (false, vm) else if users == 1 then alone else alloc [] vm.pmm >>= copied

-- `vmmc_do_cow`
pub do_cow : ℕ → Vm → Outcome (Bool × Vm)
unfolding split_page
do_cow address vm =
    let t = (vm.pd (pdi address)).frame in
    let e = vm.tables t (pti address) in
    let shared = user_count e.frame vm.pmm >>= (λ n. split_page t (pti address) e.frame n vm) in
    if not (vm.pd (pdi address)).present
    then ok (false, vm)
    else if not e.present || e.writable
    then ok (false, vm)
    else is_cow e.frame vm.pmm >>= (λ c. if c then shared else ok (false, vm))

-- `handle_pagefault`, of the current process: whether it was a write, and the address in CR2.
pub handle_pagefault : Bool → ℕ → Vm → Outcome (Bool × Vm)
unfolding do_cow do_lazy_map
handle_pagefault is_write address vm =
    let lazy = λ (v : Vm). do_lazy_map address v in
    if is_write then do_cow address vm >>= (λ r. if r.0 then ok r else lazy r.1) else lazy vm

-- The flags VMM_PR to VMM_UX.
pub record Rights : Type 0 where
  pub pr : Bool
  pub pw : Bool
  pub px : Bool
  pub ur : Bool
  pub uw : Bool
  pub ux : Bool

-- `vmmc_address_mapped`: the physical address and the flags; `none` where the source returns 0.
pub address_mapped : ℕ → Vm → Option (ℕ × Rights)
address_mapped address vm =
    let pde = vm.pd (pdi address) in
    let e = vm.tables pde.frame (pti address) in
    let rights : Rights = record {
      pr = true;
      pw = e.writable;
      px = true;
      ur = e.user;
      uw = e.user && e.writable;
      ux = e.user;
    } in
    if pde.present && e.present then some (e.frame + address % 2 ^ 12, rights) else none
