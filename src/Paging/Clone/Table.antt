-- ===== src/Paging/Clone/Table.antt =====
-- What the copy of an address space sees through a table that `vmmc_clone` made.
use muxomucota.Base.{ℕ, ◌<◌, ◌≡◌, ◌≢◌, true, [], arith, refl, ◌∙◌, ap, update, inl, inr, ◌⊎◌}
use muxomucota.Base.Outcome.{ok}
use muxomucota.Pmm.{Pmm, frame_index, alloc}
use muxomucota.Pmm.Inv.{byte, IsValid}
use muxomucota.Pmm.Alloc.{alloc-Claimed}
use muxomucota.Pmm.Users.{Claimed-frame_index}
use muxomucota.Paging.{Entry, mapped, Vm, pdi, pti}
use muxomucota.Paging.Seen.{seen}
use muxomucota.Paging.Clone.{clone_table}
use muxomucota.Paging.Clone.Step.{protect, shared}
use muxomucota.Paging.Clone.Shared.{Cloneable, clone_pages-Cloned}

update_at : (d : ℕ) (e : Entry) (pd : ℕ → Entry) → update pd d e d ≡ e
update_at d e pd = ground arith

update_ne : (d j : ℕ) (e : Entry) (pd : ℕ → Entry) → j ≢ d → update pd d e j ≡ pd j
update_ne d j e pd h = ground arith

-- A directory entry and a table entry through which the same byte is seen.
seen_entries :
    (pd pd' : ℕ → Entry) (vm vm' : Vm) (a : ℕ) (e : Entry)
    → (pd (pdi a)).present ≡ true
    → (pd' (pdi a)).present ≡ true
    → vm'.bytes ≡ vm.bytes
    → vm.tables (pd (pdi a)).frame (pti a) ≡ e
    → (vm'.tables (pd' (pdi a)).frame (pti a) ≡ protect e)
      ⊎ (vm'.tables (pd' (pdi a)).frame (pti a) ≡ shared e)
    → seen pd' vm' a ≡ seen pd vm a
seen_entries pd pd' vm vm' a e there there' bytes old (inl new) =
    rw (there, there', old, new, bytes) (ground arith)
seen_entries pd pd' vm vm' a e there there' bytes old (inr new) =
    rw (there, there', old, new, bytes) (ground arith)

-- `vmmc_clone` of a table that is there, in a frame that is in use, with a frame left for the copy,
-- and whose pages are in frames in use that take the new users: the copy and the source both see
-- at every address of the table the byte that the source saw there before. The copy's directory
-- changes at that table only.
pub clone_table-seen :
    (d u : ℕ) (dest : ℕ → Entry) (vm : Vm) {s : Pmm}
    → IsValid vm.pmm
    → (vm.pd d).present ≡ true
    → byte vm.pmm (frame_index vm.pmm (vm.pd d).frame) ≢ 0
    → alloc [] vm.pmm ≡ ok (u, s)
    → Cloneable s 1024 0 (vm.tables (vm.pd d).frame)
    → (dest' : ℕ → Entry) × (vm' : Vm) × (clone_table d dest vm ≡ ok (dest', vm'))
      × ((a : ℕ) → pdi a ≡ d → seen dest' vm' a ≡ seen vm.pd vm a)
      × ((a : ℕ) → pdi a ≡ d → seen vm'.pd vm' a ≡ seen vm.pd vm a)
      × ((j : ℕ) → j ≢ d → dest' j ≡ dest j)
unfolding clone_table
clone_table-seen d u dest vm {s} v there in_use e c =
    let t = (vm.pd d).frame in
    let claim = alloc-Claimed [] v e in
    let free_before : byte vm.pmm (frame_index vm.pmm u) ≡ 0 =
      ap (byte vm.pmm) (Claimed-frame_index v claim).0 ∙ claim.was_free in
    let apart : t ≢ u =
      λ same. in_use (ap (λ (f : ℕ). byte vm.pmm (frame_index vm.pmm f)) same ∙ free_before) in
    let (vm', run, r) = clone_pages-Cloned 1024 0 t u (record vm { pmm = s }) apart claim.valid c in
    (
      update dest d (mapped u true),
      vm',
      ground (arith, e, run),
      λ a h.
          let small : pti a < 1024 = omega arith in
          let made : update dest d (mapped u true) (pdi a) ≡ mapped u true =
            rw h (update_at d (mapped u true) dest) in
          seen_entries vm.pd (update dest d (mapped u true)) vm vm' a (vm.tables t (pti a))
            (rw h there) (ap (λ (x : Entry). x.present) made) r.same_bytes (rw h refl)
            (inr (rw made (r.copy (pti a) (omega arith) small))),
      λ a h.
          let small : pti a < 1024 = omega arith in
          let same : vm'.pd (pdi a) ≡ vm.pd d =
            ap (λ (pd : ℕ → Entry). pd (pdi a)) r.same_pd ∙ ap vm.pd h in
          seen_entries vm.pd vm'.pd vm vm' a (vm.tables t (pti a)) (rw h there)
            (ap (λ (x : Entry). x.present) same ∙ there) r.same_bytes (rw h refl)
            (inl (rw same (r.source (pti a) (omega arith) small))),
      λ j h. update_ne d j (mapped u true) dest h,
    )
