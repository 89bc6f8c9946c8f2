-- ===== src/Paging/Clone/Shared.antt =====
-- After `vmmc_clone` went over a table, the copy's table shares its pages.
use muxomucota.Base.{
  ℕ, zero, suc, ◌+◌, ◌%◌, ◌≤◌, ◌<◌, ◌≡◌, ◌≢◌, true, ◌==◌, if◌then◌else◌, arith, refl, ◌∙◌, sym, ap,
  Bool-cases, inl, inr, ◌⊎◌, length, ℕ_discrete,
}
use muxomucota.Base.Outcome.{ok}
use muxomucota.Pmm.{Pmm, page_size, cow_flag, users, frame_index}
use muxomucota.Pmm.Inv.{byte, IsValid}
use muxomucota.Pmm.Share.{Names}
use muxomucota.Paging.{Entry, Vm}
use muxomucota.Paging.Clone.{clone_pages}
use muxomucota.Paging.Clone.Step.{
  shares, protect, shared, Step, skipped, stepped, step_absent, step_present, Step-skipped,
  Step-stepped,
}

-- The entries map frames that are in use, whose counts leave room for the new users.
pub record Cloneable (s : Pmm) (n i : ℕ) (pt : ℕ → Entry) : Type 0 where
  pub named :
      (j : ℕ)
      → i ≤ j
      → j < i + n
      → (pt j).present ≡ true
      → ((pt j).frame % page_size ≡ 0)
        × (frame_index s (pt j).frame < length s.bitmap)
        × (users (byte s (frame_index s (pt j).frame)) ≢ 0)
  pub room : (k : ℕ) → users (byte s k) + shares s k n i pt ≤ 127

-- What became of the `n` entries from `i` on of the tables at `t` and `u`.
pub record Cloned (n i t u : ℕ) (vm vm' : Vm) : Type 0 where
  pub source : (j : ℕ) → i ≤ j → j < i + n → vm'.tables t j ≡ protect (vm.tables t j)
  pub copy : (j : ℕ) → i ≤ j → j < i + n → vm'.tables u j ≡ shared (vm.tables t j)
  pub others :
      (t' j : ℕ)
      → ((t' ≢ t) × (t' ≢ u)) ⊎ ((j < i) ⊎ (i + n ≤ j))
      → vm'.tables t' j ≡ vm.tables t' j
  pub counts :
      (k : ℕ) → users (byte vm'.pmm k) ≡ users (byte vm.pmm k) + shares vm.pmm k n i (vm.tables t)
  pub marks :
      (k : ℕ)
      → byte vm'.pmm k ≡ (
          if shares vm.pmm k n i (vm.tables t) == 0
          then byte vm.pmm k
          else users (byte vm.pmm k) + shares vm.pmm k n i (vm.tables t) + cow_flag)
  pub same_pmm :
      (vm'.pmm.mem_base ≡ vm.pmm.mem_base)
      × (vm'.pmm.mem_entries ≡ vm.pmm.mem_entries)
      × (vm'.pmm.look_from_here ≡ vm.pmm.look_from_here)
  pub same_bytes : vm'.bytes ≡ vm.bytes
  pub same_pd : vm'.pd ≡ vm.pd
  pub same_end : vm'.heap_end ≡ vm.heap_end
  pub valid : IsValid vm'.pmm

shares_congr :
    (s s' : Pmm) (k n i : ℕ) (pt pt' : ℕ → Entry)
    → ((p : ℕ) → frame_index s' p ≡ frame_index s p)
    → ((j : ℕ) → i ≤ j → pt' j ≡ pt j)
    → shares s' k n i pt' ≡ shares s k n i pt
shares_congr s s' k zero i pt pt' b h = refl
shares_congr s s' k (suc n) i pt pt' b h =
    let e = h i (omega arith) in
    ground
      (arith, e, b (pt i).frame, shares_congr s s' k n (suc i) pt pt' b (λ j l. h j (omega arith)))

module _ (n i t u : ℕ) (vm vm₁ : Vm) (ne : t ≢ u) (st : Step i t u vm vm₁) where
  shares-rest :
      (k : ℕ) → shares vm₁.pmm k n (suc i) (vm₁.tables t) ≡ shares vm.pmm k n (suc i) (vm.tables t)
  shares-rest k =
      shares_congr vm.pmm vm₁.pmm k n (suc i) (vm.tables t) (vm₁.tables t) st.base
        (λ j l. st.others t j (inr (omega arith)))

  Cloneable-rest :
      Cloneable vm.pmm (suc n) i (vm.tables t) → Cloneable vm₁.pmm n (suc i) (vm₁.tables t)
  Cloneable-rest c = record {
    named = λ j lo hi there.
        let same = st.others t j (inr (omega arith)) in
        let p = (vm.tables t j).frame in
        let (a, m, z) =
          c.named j (omega arith) (omega arith)
            (ap (λ (e : Entry). e.present) (sym same) ∙ there) in
        rw (same, st.base p)
          (a, omega (arith, m, st.managed), omega (arith, z, st.counts (frame_index vm.pmm p)));
    room = λ k. omega (arith, c.room k, st.counts k, shares-rest k);
  }

  Cloned-step : (vm' : Vm) → Cloned n (suc i) t u vm₁ vm' → Cloned (suc n) i t u vm vm'
  Cloned-step vm' c = record {
    source = λ j lo hi. elim (ℕ_discrete j i) [
      | yes e ↦ rw e (c.others t i (inr (inl (omega arith))) ∙ st.source)
      | no h ↦ c.source j (omega arith) (omega arith) ∙ ap protect (st.others t j (inr h))
    ];
    copy = λ j lo hi. elim (ℕ_discrete j i) [
      | yes e ↦ rw e (c.others u i (inr (inl (omega arith))) ∙ st.copy)
      | no h ↦ c.copy j (omega arith) (omega arith) ∙ ap shared (st.others t j (inr h))
    ];
    others = λ t' j h. elim h [
      | inl apart ↦ c.others t' j (inl apart) ∙ st.others t' j (inl apart)
      | inr out ↦ c.others t' j (inr (omega arith)) ∙ st.others t' j (inr (omega arith))
    ];
    counts = λ k. omega (arith, c.counts k, st.counts k, shares-rest k);
    marks = λ k. ground (arith, c.marks k, st.marks k, st.counts k, shares-rest k);
    same_pmm =
        (c.same_pmm.0 ∙ st.same_pmm.0, c.same_pmm.1 ∙ st.same_pmm.1, c.same_pmm.2 ∙ st.same_pmm.2);
    same_bytes = c.same_bytes ∙ st.same_bytes;
    same_pd = c.same_pd ∙ st.same_pd;
    same_end = c.same_end ∙ st.same_end;
    valid = c.valid;
  }

-- `vmmc_clone` of a table: where every page of it lies in a frame that is in use and takes the new
-- users, the loop over the `n` entries from `i` on ends. Both tables then map the same frames there,
-- and neither may write to them; entries of pages that are not present are copied as they are; each
-- frame that an entry maps has as many users more as entries that map it, and is marked copy-on-write;
-- no other frame, table, byte of memory or variable of the allocator changes.
pub clone_pages-Cloned :
    (n i t u : ℕ) (vm : Vm)
    → t ≢ u
    → IsValid vm.pmm
    → Cloneable vm.pmm n i (vm.tables t)
    → (vm' : Vm) × (clone_pages n i t u vm ≡ ok vm') × Cloned n i t u vm vm'
unfolding clone_pages
clone_pages-Cloned zero i t u vm ne v c = (
  vm,
  refl,
  record {
    source = λ j lo hi. absurd (omega arith);
    copy = λ j lo hi. absurd (omega arith);
    others = λ t' j h. refl;
    counts = λ k. omega arith;
    marks = λ k. refl;
    same_pmm = (refl, refl, refl);
    same_bytes = refl;
    same_pd = refl;
    same_end = refl;
    valid = v;
  },
)
clone_pages-Cloned (suc n) i t u vm ne v c = elim (Bool-cases (vm.tables t i).present) [
  | inr absent ↦
      let vm₁ = skipped i t u vm in
      let st = Step-skipped i t u vm ne v absent in
      let (vm', e, r) =
        clone_pages-Cloned n (suc i) t u vm₁ ne st.valid (Cloneable-rest n i t u vm vm₁ ne st c) in
      (vm', rw (step_absent i t u vm absent) e, Cloned-step n i t u vm vm₁ ne st vm' r)
  | inl there ↦
      let k = frame_index vm.pmm (vm.tables t i).frame in
      let b = byte vm.pmm k in
      let (a, m, nz) = c.named i (omega arith) (omega arith) there in
      let names : Names vm.pmm (vm.tables t i).frame b = record {
        on_boundary = a;
        managed = m;
        value = refl;
      } in
      let small : users b < 127 = ground (arith, c.room k) in
      let vm₁ = stepped i t u vm b in
      let st = Step-stepped i t u vm b names nz small ne v there in
      let (vm', e, r) =
        clone_pages-Cloned n (suc i) t u vm₁ ne st.valid (Cloneable-rest n i t u vm vm₁ ne st c) in
      (
        vm',
        rw (step_present i t u vm b names nz small there) e,
        Cloned-step n i t u vm vm₁ ne st vm' r,
      )
]
