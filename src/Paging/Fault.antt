-- ===== src/Paging/Fault.antt =====
-- What page faults do: a page that is written to is copied if it is shared, and a page that is
-- reserved gets a frame.
use muxomucota.Base.{
  ℕ, ◌+◌, ◌-◌, ◌%◌, ◌/◌, ◌^◌, ◌≤◌, ◌≡◌, ◌≢◌, true, false, [], ◌==◌, if◌then◌else◌, arith,
  get_or-set, set, update, refl, ◌∙◌, sym, ap, inl, inr, ◌⊎◌,
}
use muxomucota.Base.Outcome.{ok}
use muxomucota.Pmm.{Pmm, users, frame_index, alloc, free}
use muxomucota.Pmm.Inv.{byte, IsValid}
use muxomucota.Pmm.Alloc.{Claimed, alloc-Claimed}
use muxomucota.Pmm.Share.{Names, freed, free_named, is_cow_named, user_count_named, mark_cow_named}
use muxomucota.Pmm.Users.{free-IsValid, mark_cow_lem, Claimed-frame_index}
use muxomucota.Paging.{Entry, mapped, Vm, pdi, pti, set_entry, split_page, do_cow, handle_pagefault}

-- The entry of the table for an address.
abbrev pub page_of : Vm → ℕ → Entry
page_of vm address = vm.tables (vm.pd (pdi address)).frame (pti address)

-- After a write to a shared page: the page has a frame of its own, with the same bytes.
pub record Copied (address f q : ℕ) (vm vm' : Vm) : Type 0 where
  pub own : page_of vm' address ≡ mapped q true
  pub same_bytes : vm'.bytes q ≡ vm.bytes f
  pub other_bytes : (g : ℕ) → g ≢ q → vm'.bytes g ≡ vm.bytes g
  pub other_pages :
      (t i : ℕ)
      → (t ≢ (vm.pd (pdi address)).frame) ⊎ (i ≢ pti address)
      → vm'.tables t i ≡ vm.tables t i
  pub same_pd : vm'.pd ≡ vm.pd
  pub valid : IsValid vm'.pmm
  pub one_less :
      users (byte vm'.pmm (frame_index vm.pmm f)) + 1 ≡ users (byte vm.pmm (frame_index vm.pmm f))
  pub one_user : byte vm'.pmm (frame_index vm.pmm q) ≡ 1
  pub apart : q ≢ f

-- The allocation of a frame leaves the frame `f`, which has users, as it is.
module _ (s s₁ : Pmm) (f q b : ℕ) (v : IsValid s) (n : Names s f b) (used : 2 ≤ users b)
    (e : alloc [] s ≡ ok (q, s₁)) where
  claim : Claimed s q s₁
  claim = alloc-Claimed [] v e

  same_index : (p : ℕ) → frame_index s₁ p ≡ frame_index s p
  same_index p = ap (λ (base : ℕ). (p + 2 ^ 32 - base) % 2 ^ 32 / 4096) claim.same_base

  other_frame : frame_index s f ≢ claim.frame
  other_frame h = omega (arith, claim.was_free, n.value, ap (byte s) h)

  kept : Names s₁ f b
  kept = record {
    on_boundary = n.on_boundary;
    managed = omega (arith, same_index f, n.managed, v.size, claim.valid.size, claim.same_entries);
    value = rw (same_index f) (elim (claim.others (frame_index s f) other_frame) [
      | inl same ↦ same ∙ n.value
      | inr taken ↦ absurd (omega (arith, taken.0, n.value))
    ]);
  }

  abbrev left : Pmm
  left = freed s₁ f b

  free_kept : free f s₁ ≡ ok left
  free_kept = free_named s₁ f b kept (omega arith)

  byte-left : (j : ℕ) → byte left j ≡ (if frame_index s f == j then b - 1 else byte s₁ j)
  byte-left j =
      ground (arith, same_index f, get_or-set s₁.bitmap (frame_index s₁ f) j (b - 1) 0 kept.managed)

  pub alloc-free :
      (free f s₁ ≡ ok left)
      × IsValid left
      × (users (byte left (frame_index s f)) + 1 ≡ users (byte s (frame_index s f)))
      × (byte left (frame_index s q) ≡ 1)
      × (q ≢ f)
  alloc-free =
      let at_q : frame_index s q ≡ claim.frame = (Claimed-frame_index v claim).0 in
      (
        free_kept,
        free-IsValid f claim.valid free_kept,
        ground (arith, byte-left (frame_index s f), n.value),
        ground (arith, byte-left (frame_index s q), at_q, other_frame, claim.now_used),
        λ h. other_frame (ap (frame_index s) (sym h) ∙ at_q),
      )

-- A write fault at a page that is present, but marked copy-on-write instead of writable, comes to
-- the last step of `vmmc_do_cow`.
cow_fault :
    (vm : Vm) (address b : ℕ)
    → (vm.pd (pdi address)).present ≡ true
    → (page_of vm address).present ≡ true
    → (page_of vm address).writable ≡ false
    → Names vm.pmm (page_of vm address).frame b
    → 128 ≤ b
    → users b ≢ 0
    → do_cow address vm
      ≡ split_page (vm.pd (pdi address)).frame (pti address) (page_of vm address).frame (users b) vm
unfolding do_cow
cow_fault vm address b there present ro n marked used = ground (
  arith,
  is_cow_named vm.pmm (page_of vm address).frame b n used,
  user_count_named vm.pmm (page_of vm address).frame b n,
)

-- A write fault at a page that is present, in a table that is present, not writable, and of a frame
-- that is marked copy-on-write and has two users or more, when the allocator's state is valid and
-- `pmm_alloc`, with no other processor, finds a frame for the copy: `handle_pagefault` returns true
-- and gives the page a frame of its own, which it may write to, with the bytes of the shared one;
-- the shared frame has one user less; no other page, and no other byte, changes.
pub handle_pagefault-Copied :
    (vm : Vm) (address b q : ℕ) {s₁ : Pmm}
    → IsValid vm.pmm
    → (vm.pd (pdi address)).present ≡ true
    → (page_of vm address).present ≡ true
    → (page_of vm address).writable ≡ false
    → Names vm.pmm (page_of vm address).frame b
    → 128 ≤ b
    → 2 ≤ users b
    → alloc [] vm.pmm ≡ ok (q, s₁)
    → (vm' : Vm) × (handle_pagefault true address vm ≡ ok (true, vm'))
      × Copied address (page_of vm address).frame q vm vm'
unfolding handle_pagefault split_page
handle_pagefault-Copied vm address b q {s₁} v there present ro n marked several e =
    let f = (page_of vm address).frame in
    let t = (vm.pd (pdi address)).frame in
    let (freed_f, valid, less, one, ne) = alloc-free vm.pmm s₁ f q b v n several e in
    (
      record vm {
        pmm = freed s₁ f b;
        tables = set_entry vm.tables t (pti address) (mapped q true);
        bytes = update vm.bytes q (vm.bytes f);
      },
      ground (
        arith,
        cow_fault vm address b there present ro n marked (omega (arith, several)),
        e,
        freed_f,
      ),
      record {
        own = ground arith;
        same_bytes = ground arith;
        other_bytes = λ g h. ground (arith, h);
        other_pages = λ t' i h. ground (arith, h);
        same_pd = refl;
        valid = valid;
        one_less = less;
        one_user = one;
        apart = ne;
      },
    )

-- A write fault at a page marked copy-on-write that no other address space uses any longer: the page
-- becomes writable where it is, and its frame loses the mark and keeps its only user; no other page,
-- and no byte, changes.
pub handle_pagefault_last :
    (vm : Vm) (address b : ℕ)
    → IsValid vm.pmm
    → (vm.pd (pdi address)).present ≡ true
    → (page_of vm address).present ≡ true
    → (page_of vm address).writable ≡ false
    → Names vm.pmm (page_of vm address).frame b
    → 128 ≤ b
    → users b ≡ 1
    → (vm' : Vm) × (handle_pagefault true address vm ≡ ok (true, vm'))
      × (page_of vm' address ≡ record (page_of vm address) { writable = true })
      × (byte vm'.pmm (frame_index vm.pmm (page_of vm address).frame) ≡ 1)
      × IsValid vm'.pmm
      × (vm'.bytes ≡ vm.bytes)
      × ((t i : ℕ)
          → (t ≢ (vm.pd (pdi address)).frame) ⊎ (i ≢ pti address)
          → vm'.tables t i ≡ vm.tables t i)
unfolding handle_pagefault split_page
handle_pagefault_last vm address b v there present ro n marked one =
    let f = (page_of vm address).frame in
    let t = (vm.pd (pdi address)).frame in
    let i = frame_index vm.pmm f in
    let m = mark_cow_named vm.pmm f false b n (omega arith) in
    (
      record vm {
        pmm = record vm.pmm { bitmap = set vm.pmm.bitmap i (users b) };
        tables =
            set_entry vm.tables t (pti address)
              (record (vm.tables t (pti address)) { writable = true });
      },
      ground (arith, cow_fault vm address b there present ro n marked (omega arith), m),
      ground arith,
      ground (arith, get_or-set vm.pmm.bitmap i i (users b) 0 n.managed),
      (mark_cow_lem f false v m).0,
      refl,
      λ t' j h. ground (arith, h),
    )
