-- ===== src/Pmm/Leak.antt =====
-- A frame whose last user leaves while its copy-on-write flag is set.
use muxomucota.Base.{
  ℕ, ◌+◌, ◌-◌, ◌^◌, ◌≤◌, ◌≡◌, ◌≢◌, Bool, List, [], set, arith, get_or-set, length-set, ◌∙◌, sym, ap,
  subst, inl, inr, if◌then◌else◌,
}
use muxomucota.Base.Outcome.{ok, panic}
use muxomucota.Pmm.{
  Pmm, page_size, cow_flag, users, frame_index, free, pmm_use, user_count, mark_cow, alloc,
}
use muxomucota.Pmm.Inv.{byte, IsValid, entry-eq-ok}
use muxomucota.Pmm.Alloc.{alloc-Claimed}
use muxomucota.Pmm.Advanced.{alloc_advanced}
use muxomucota.Pmm.Advanced.Run.{alloc_advanced-Granted}
use muxomucota.Pmm.Share.{Names, freed, free_named, free-eq-ok, use-eq-ok, mark_cow-eq-ok}
use muxomucota.Pmm.Users.{free-IsValid, use-IsValid, mark_cow_lem, Claimed-frame_index}

-- A frame with no user and its flag set is refused by all that could clear the flag or give the
-- frame back.
module _ (s : Pmm) (p : ℕ) (n : Names s p 128) where
  no_user : user_count p s ≡ ok 0
  unfolding user_count
  no_user = ground (arith, n.on_boundary, n.value, entry-eq-ok s.bitmap (frame_index s p) n.managed)

  no_free : free p s ≡ panic
  unfolding free
  no_free = ground (arith, n.on_boundary, n.value, entry-eq-ok s.bitmap (frame_index s p) n.managed)

  no_use : pmm_use p s ≡ panic
  unfolding pmm_use
  no_use = ground (arith, n.on_boundary, n.value, entry-eq-ok s.bitmap (frame_index s p) n.managed)

  no_mark : (flag : Bool) → mark_cow p flag s ≡ panic
  unfolding mark_cow
  no_mark flag =
      ground (arith, n.on_boundary, n.value, entry-eq-ok s.bitmap (frame_index s p) n.managed)

  no_alloc :
      (race : List Bool) {q : ℕ} {t : Pmm}
      → IsValid s
      → alloc race s ≡ ok (q, t)
      → frame_index s q ≢ frame_index s p
  no_alloc race v h e =
      let c = alloc-Claimed race v h in
      omega (arith, n.value, c.was_free, ap (byte s) (sym (Claimed-frame_index v c).0 ∙ e))

freed-Names : (s : Pmm) (p : ℕ) → Names s p 129 → Names (freed s p 129) p 128
freed-Names s p n = record {
  on_boundary = n.on_boundary;
  managed = omega (arith, n.managed, length-set s.bitmap (frame_index s p) 128);
  value = ground (arith, get_or-set s.bitmap (frame_index s p) (frame_index s p) 128 0 n.managed);
}

-- One call of the allocator that returns.
pub data PmmStep (s t : Pmm) : Type 0 where
  claims : (race : List Bool) (q : ℕ) → alloc race s ≡ ok (q, t) → PmmStep s t
  claims_run :
      (length max_addr alignment q : ℕ)
      → length + page_size ≤ 2 ^ 32
      → alloc_advanced [] length max_addr alignment s ≡ ok (q, t)
      → PmmStep s t
  frees : (q : ℕ) → free q s ≡ ok t → PmmStep s t
  uses : (q : ℕ) → pmm_use q s ≡ ok t → PmmStep s t
  marks : (q : ℕ) (flag : Bool) → mark_cow q flag s ≡ ok t → PmmStep s t

-- Any number of them.
pub data PmmSteps (s : Pmm) : Pmm → Type 0 where
  here : PmmSteps s s
  next : {t u : Pmm} → PmmSteps s t → PmmStep t u → PmmSteps s u

-- A frame with no user and its flag set, in a valid state.
record IsLost (p : ℕ) (s : Pmm) : Type 0 where
  valid : IsValid s
  named : Names s p 128

-- A call that changes the byte of a frame with a user leaves the lost frame alone.
set-IsLost :
    {p q b : ℕ} {s t : Pmm} (b' : ℕ)
    → IsLost p s
    → Names s q b
    → users b ≢ 0
    → IsValid t
    → t.mem_base ≡ s.mem_base
    → t.bitmap ≡ set s.bitmap (frame_index s q) b'
    → IsLost p t
set-IsLost {p} {q} {b} {s} {t} b' l n u v base bm =
    let apart : frame_index s q ≢ frame_index s p =
      λ e. absurd (ground (arith, n.value, l.named.value)) in
    record {
      valid = v;
      named = record {
        on_boundary = l.named.on_boundary;
        managed = rw (base, bm, length-set s.bitmap (frame_index s q) b') l.named.managed;
        value =
            rw (base, bm)
              (ground (
                arith,
                get_or-set s.bitmap (frame_index s q) (frame_index s p) b' 0 n.managed,
                l.named.value,
                apart,
              ));
      };
    }

-- So does a call that changes only bytes of free frames.
keep-IsLost :
    {p : ℕ} {s t : Pmm}
    → IsLost p s
    → IsValid t
    → t.mem_base ≡ s.mem_base
    → t.mem_entries ≡ s.mem_entries
    → byte t (frame_index s p) ≡ byte s (frame_index s p)
    → IsLost p t
keep-IsLost {p} {s} {t} l v base entries same = record {
  valid = v;
  named = record {
    on_boundary = l.named.on_boundary;
    managed = rw base (omega (arith, entries, v.size, l.valid.size, l.named.managed));
    value = rw base (same ∙ l.named.value);
  };
}

PmmStep-IsLost : {p : ℕ} {s t : Pmm} → PmmStep s t → IsLost p s → IsLost p t
PmmStep-IsLost {p} {s} {t} (claims race q h) l =
    let c = alloc-Claimed race l.valid h in
    let i = frame_index s p in
    let apart : i ≢ c.frame = λ e. absurd (ground (arith, c.was_free, l.named.value)) in
    keep-IsLost l c.valid c.same_base c.same_entries
      (elim (c.others i apart) [ inl e ↦ e | inr e ↦ absurd (omega (arith, e.0, l.named.value)) ])
PmmStep-IsLost {p} {s} {t} (claims_run length max_addr alignment q hl h) l =
    elim (alloc_advanced-Granted length max_addr alignment l.valid hl h) [
      | inl e ↦ subst (IsLost p) (sym e.1) l
      | inr g ↦
          let i = frame_index s p in
          keep-IsLost l g.valid g.same_base g.same_entries
            (ground (arith, g.bytes i, g.run i, l.named.value))
    ]
PmmStep-IsLost {p} {s} {t} (frees q h) l =
    let (b, n, u, e) = free-eq-ok s q h in
    set-IsLost (b - 1) l n u (free-IsValid q l.valid h) (ap (λ (t : Pmm). t.mem_base) (sym e))
      (ap (λ (t : Pmm). t.bitmap) (sym e))
PmmStep-IsLost {p} {s} {t} (uses q h) l =
    let (b, n, u, k, e) = use-eq-ok s q h in
    set-IsLost (b + 1) l n u (use-IsValid q l.valid h) (ap (λ (t : Pmm). t.mem_base) (sym e))
      (ap (λ (t : Pmm). t.bitmap) (sym e))
PmmStep-IsLost {p} {s} {t} (marks q flag h) l =
    let (b, n, u, e) = mark_cow-eq-ok s q flag h in
    set-IsLost (if flag then users b + cow_flag else users b) l n u
      (mark_cow_lem q flag l.valid h).0 (ap (λ (t : Pmm). t.mem_base) (sym e))
      (ap (λ (t : Pmm). t.bitmap) (sym e))

PmmSteps-IsLost : {p : ℕ} {s t : Pmm} → PmmSteps s t → IsLost p s → IsLost p t
PmmSteps-IsLost here l = l
PmmSteps-IsLost (next r st) l = PmmStep-IsLost st (PmmSteps-IsLost r l)

freed-IsLost : (s : Pmm) (p : ℕ) → IsValid s → Names s p 129 → IsLost p (freed s p 129)
freed-IsLost s p v n = record {
  valid = free-IsValid p v (free_named s p 129 n (omega arith));
  named = freed-Names s p n;
}

-- `pmm_free` of a frame with one user and the copy-on-write flag, as the last process after a
-- `fork` frees it, returns and leaves a frame that is lost: in every state that the allocator
-- reaches from there by calls of `pmm_alloc`, `pmm_alloc_advanced` (with no other processor, for at
-- most 2 ^ 32 - 4096 bytes), `pmm_free`, `pmm_use` and `pmm_mark_cow` that return, it has no user,
-- `pmm_alloc` does not return it, and `pmm_free`, `pmm_use` and `pmm_mark_cow` stop the kernel at
-- its address. The state before is valid, and so are these.
pub free-cow_leak :
    (s : Pmm) (p : ℕ) {u : Pmm}
    → IsValid s
    → Names s p 129
    → PmmSteps (freed s p 129) u
    → (free p s ≡ ok (freed s p 129))
      × IsValid u
      × (user_count p u ≡ ok 0)
      × ((race : List Bool) (q : ℕ) (v : Pmm)
          → alloc race u ≡ ok (q, v)
          → frame_index u q ≢ frame_index u p)
      × (free p u ≡ panic)
      × (pmm_use p u ≡ panic)
      × ((flag : Bool) → mark_cow p flag u ≡ panic)
free-cow_leak s p {u} v n r =
    let l = PmmSteps-IsLost r (freed-IsLost s p v n) in
    (
      free_named s p 129 n (omega arith),
      l.valid,
      no_user u p l.named,
      λ race q w e. no_alloc u p l.named race l.valid e,
      no_free u p l.named,
      no_use u p l.named,
      no_mark u p l.named,
    )
