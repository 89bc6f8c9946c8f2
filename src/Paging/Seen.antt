-- ===== src/Paging/Seen.antt =====
-- What processes see of the memory while their shared pages are copied.
use muxomucota.Base.{
  ℕ, ◌%◌, ◌^◌, ◌≤◌, ◌≡◌, ◌≢◌, true, false, ◌&&◌, Option, none, some, [], if◌then◌else◌, refl, ◌∙◌,
  sym, ap, inl, inr, ◌⊎◌, ℕ_discrete, Bool-cases,
}
use muxomucota.Base.Outcome.{ok}
use muxomucota.Pmm.{Pmm, users, frame_index, alloc}
use muxomucota.Pmm.Inv.{byte, IsValid}
use muxomucota.Pmm.Alloc.{alloc-Claimed}
use muxomucota.Pmm.Share.{Names}
use muxomucota.Pmm.Users.{Claimed-frame_index}
use muxomucota.Paging.{Entry, mapped, Vm, pdi, pti, handle_pagefault}
use muxomucota.Paging.Fault.{page_of, Copied, handle_pagefault-Copied}

-- The byte that a process with the directory `pd` sees at the address, if a page is there.
abbrev pub seen : (ℕ → Entry) → Vm → ℕ → Option ℕ
seen pd vm a =
    let e = vm.tables (pd (pdi a)).frame (pti a) in
    if (pd (pdi a)).present && e.present then some (vm.bytes e.frame (a % 2 ^ 12)) else none

-- The pages that a process with the directory `pd` sees are in frames that are in use.
abbrev pub Backed : (ℕ → Entry) → Vm → Type 0
Backed pd vm =
    (a : ℕ)
    → (pd (pdi a)).present ≡ true
    → (vm.tables (pd (pdi a)).frame (pti a)).present ≡ true
    → byte vm.pmm (frame_index vm.pmm (vm.tables (pd (pdi a)).frame (pti a)).frame) ≢ 0

module _ (address q : ℕ) (vm vm' : Vm) (present : (page_of vm address).present ≡ true)
    (c : Copied address (page_of vm address).frame q vm vm') where
  -- Through the entry that changed, the bytes are the same.
  seen_copy :
      (pd : ℕ → Entry) (a : ℕ)
      → (pd (pdi a)).frame ≡ (vm.pd (pdi address)).frame
      → pti a ≡ pti address
      → seen pd vm' a ≡ seen pd vm a
  seen_copy pd a t i =
      let own : vm'.tables (vm.pd (pdi address)).frame (pti address) ≡ mapped q true =
        ap (λ (d : ℕ → Entry). vm'.tables (d (pdi address)).frame (pti address)) (sym c.same_pd)
        ∙ c.own in
      rw (t, i, own, present, c.same_bytes) refl

  -- Through any other entry, too, where its frame is not the new one.
  seen_other :
      (pd : ℕ → Entry) (a : ℕ)
      → ((pd (pdi a)).frame ≢ (vm.pd (pdi address)).frame) ⊎ (pti a ≢ pti address)
      → ((pd (pdi a)).present ≡ true
          → (vm.tables (pd (pdi a)).frame (pti a)).present ≡ true
          → (vm.tables (pd (pdi a)).frame (pti a)).frame ≢ q)
      → seen pd vm' a ≡ seen pd vm a
  seen_other pd a h fresh =
      let e = vm.tables (pd (pdi a)).frame (pti a) in
      let same = c.other_pages (pd (pdi a)).frame (pti a) h in
      elim (Bool-cases (pd (pdi a)).present) [
        | inr gone ↦ rw gone refl
        | inl there ↦ elim (Bool-cases e.present) [
          | inr gone ↦ rw (same, there, gone) refl
          | inl p ↦ rw (same, there, p, c.other_bytes e.frame (fresh there p)) refl
        ]
      ]

-- A write fault at a present page that several address spaces share, that is not writable and whose
-- frame is marked copy-on-write, with a frame left for the copy: `handle_pagefault` returns, and a process with any directory, be it the one with the fault or
-- another one, whose pages are in frames in use sees the same byte at every address as before.
pub handle_pagefault-seen :
    (vm : Vm) (pd : ℕ → Entry) (address b q : ℕ) {s₁ : Pmm}
    → IsValid vm.pmm
    → (vm.pd (pdi address)).present ≡ true
    → (page_of vm address).present ≡ true
    → (page_of vm address).writable ≡ false
    → Names vm.pmm (page_of vm address).frame b
    → 128 ≤ b
    → 2 ≤ users b
    → alloc [] vm.pmm ≡ ok (q, s₁)
    → Backed pd vm
    → (vm' : Vm) × (handle_pagefault true address vm ≡ ok (true, vm'))
      × ((a : ℕ) → seen pd vm' a ≡ seen pd vm a)
handle_pagefault-seen vm pd address b q {s₁} v there present ro n marked several e backed =
    let (vm', run, c) =
      handle_pagefault-Copied vm address b q v there present ro n marked several e in
    let claim = alloc-Claimed [] v e in
    let free_before : byte vm.pmm (frame_index vm.pmm q) ≡ 0 =
      ap (byte vm.pmm) (Claimed-frame_index v claim).0 ∙ claim.was_free in
    (
      vm',
      run,
      λ a.
          let fresh : (pd (pdi a)).present ≡ true
              → (vm.tables (pd (pdi a)).frame (pti a)).present ≡ true
              → (vm.tables (pd (pdi a)).frame (pti a)).frame ≢ q =
            λ there p same.
              backed a there p
                (ap (λ (f : ℕ). byte vm.pmm (frame_index vm.pmm f)) same ∙ free_before) in
          elim (ℕ_discrete (pd (pdi a)).frame (vm.pd (pdi address)).frame) [
            | no other ↦ seen_other address q vm vm' present c pd a (inl other) fresh
            | yes t ↦ elim (ℕ_discrete (pti a) (pti address)) [
              | no other ↦ seen_other address q vm vm' present c pd a (inr other) fresh
              | yes i ↦ seen_copy address q vm vm' present c pd a t i
            ]
          ],
    )
