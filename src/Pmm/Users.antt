-- ===== src/Pmm/Users.antt =====
-- Users of a page frame come and go in pairs, and the copy-on-write flag leaves their number alone.
use muxomucota.Base.{
  ℕ, ◌+◌, ◌-◌, ◌%◌, ◌<◌, ◌≡◌, ◌≢◌, Bool, List, set, get_or-set, set-set, set-get_or, length,
  length-set, arith, if◌then◌else◌, ◌∙◌, dec_lt, subst,
}
use muxomucota.Base.Outcome.{ok}
use muxomucota.Pmm.{
  Pmm, page_size, cow_flag, users, frame_index, free, pmm_use, user_count, mark_cow, is_cow, alloc,
}
use muxomucota.Pmm.Inv.{
  byte, IsValid, entry-eq-ok, entry-eq-fault, IsValid-set, frame_index-frame_addr,
}
use muxomucota.Pmm.Alloc.{Claimed, alloc-Claimed}
use muxomucota.Pmm.Share.{Names, free_named, freed, free-eq-ok, use-eq-ok, mark_cow-eq-ok}

-- `pmm_free` keeps the state valid; in particular the place to look from moves down to a frame
-- that becomes free below it.
pub free-IsValid : {s s' : Pmm} (paddr : ℕ) → IsValid s → free paddr s ≡ ok s' → IsValid s'
free-IsValid {s} paddr v h =
    let (b, n, u, e) = free-eq-ok s paddr h in
    let i = frame_index s paddr in
    subst IsValid e (
      IsValid-set v i (b - 1) (freed s paddr b).look_from_here (omega (arith, v.size, n.managed))
        (omega (arith, v.bytes i, n.value)) (ground (arith, v.hint_in))
        (λ j hj. ground (arith, v.hint j)))

-- `pmm_use` keeps the state valid.
pub use-IsValid : {s s' : Pmm} (paddr : ℕ) → IsValid s → pmm_use paddr s ≡ ok s' → IsValid s'
use-IsValid {s} paddr v h =
    let (b, n, u, l, e) = use-eq-ok s paddr h in
    let i = frame_index s paddr in
    subst IsValid e (
      IsValid-set v i (b + 1) s.look_from_here (omega (arith, v.size, n.managed))
        (omega (arith, v.bytes i, n.value)) v.hint_in (λ j hj. ground (arith, v.hint j hj)))

-- A frame that gets one more user by `pmm_use` and loses one by `pmm_free` is as before, and so is
-- all else.
use-free : {s s' : Pmm} (paddr : ℕ) → IsValid s → pmm_use paddr s ≡ ok s' → free paddr s' ≡ ok s
use-free {s} {s'} paddr v h =
    let (b, n, u, l, e) = use-eq-ok s paddr h in
    let i = frame_index s paddr in
    subst (λ (t : Pmm). free paddr t ≡ ok s) e
      (free_named (record s { bitmap = set s.bitmap i (b + 1) }) paddr (b + 1)
          (record {
            on_boundary = n.on_boundary;
            managed = omega (arith, n.managed, length-set s.bitmap i (b + 1));
            value = ground (arith, get_or-set s.bitmap i i (b + 1) 0, n.managed);
          })
          (omega arith)
        ∙ ground (arith, set-set s.bitmap i (b + 1) b, set-get_or s.bitmap i b 0 n.value n.managed))

-- A change of a byte that keeps its users changes no user count.
user_count-set :
    (s : Pmm) (i b q : ℕ)
    → i < length s.bitmap
    → users b ≡ users (byte s i)
    → user_count q (record s { bitmap = set s.bitmap i b }) ≡ user_count q s
unfolding user_count
user_count-set s i b q hi same = elim (dec_lt (frame_index s q) (length s.bitmap)) [
  | yes p ↦ ground (
    arith,
    entry-eq-ok s.bitmap (frame_index s q) p,
    entry-eq-ok (set s.bitmap i b) (frame_index s q),
    length-set s.bitmap i b,
    get_or-set s.bitmap i (frame_index s q) b 0 hi,
  )
  | no p ↦ ground (
    arith,
    entry-eq-fault s.bitmap (frame_index s q),
    entry-eq-fault (set s.bitmap i b) (frame_index s q),
    length-set s.bitmap i b,
  )
]

-- `pmm_mark_cow` keeps the state valid, `pmm_is_cow` then returns the flag, and the number of users
-- of every address is what it was.
pub mark_cow_lem :
    {s s' : Pmm} (paddr : ℕ) (flag : Bool)
    → IsValid s
    → mark_cow paddr flag s ≡ ok s'
    → IsValid s' × (is_cow paddr s' ≡ ok flag) × ((q : ℕ) → user_count q s' ≡ user_count q s)
unfolding is_cow user_count
mark_cow_lem {s} {s'} paddr flag v h =
    let (b, n, u, e) = mark_cow-eq-ok s paddr flag h in
    let i = frame_index s paddr in
    let b' = if flag then users b + cow_flag else users b in
    let t = record s { bitmap = set s.bitmap i b' } in
    subst
      (λ (t : Pmm).
        IsValid t × (is_cow paddr t ≡ ok flag) × ((q : ℕ) → user_count q t ≡ user_count q s))
      e
      (
        IsValid-set v i b' s.look_from_here (omega (arith, v.size, n.managed)) (ground arith)
            v.hint_in (λ j hj. ground (arith, v.hint j hj)),
        ground (
          arith,
          n.on_boundary,
          entry-eq-ok (set s.bitmap i b') i,
          length-set s.bitmap i b',
          get_or-set s.bitmap i i b' 0,
          n.managed,
        ),
        λ q. user_count-set s i b' q n.managed (ground (arith, n.value)),
      )

-- The address of a claimed frame names it, before and after.
pub Claimed-frame_index :
    {s s' : Pmm} {p : ℕ}
    → IsValid s
    → (c : Claimed s p s')
    → (frame_index s p ≡ c.frame) × (frame_index s' p ≡ c.frame) × (p % page_size ≡ 0)
Claimed-frame_index {s} {s'} {p} v c =
    rw (c.same_base, c.address)
      (
        (frame_index-frame_addr v c.frame c.in_range).0,
        (frame_index-frame_addr v c.frame c.in_range).0,
        (frame_index-frame_addr v c.frame c.in_range).1,
      )

Claimed-Names : {s s' : Pmm} {p : ℕ} → IsValid s → Claimed s p s' → Names s' p 1
Claimed-Names {s} {s'} {p} v c =
    let f = Claimed-frame_index v c in
    record {
      on_boundary = f.2;
      managed = omega (arith, f.1, c.in_range, c.same_entries, c.valid.size);
      value = rw f.1 c.now_used;
    }

-- A frame that `pmm_alloc` returned can be given back, by its address: the frame is free again,
-- the frames that other processors took stay taken, and the state is valid.
pub free-alloc :
    {s s' : Pmm} (race : List Bool) {p : ℕ}
    → IsValid s
    → alloc race s ≡ ok (p, s')
    → (t : Pmm) × (free p s' ≡ ok t)
      × IsValid t
      × (byte t (frame_index s p) ≡ 0)
      × ((j : ℕ) → j ≢ frame_index s p → byte t j ≡ byte s' j)
free-alloc {s} {s'} race {p} v h =
    let c = alloc-Claimed race v h in
    let f = Claimed-frame_index v c in
    let n = Claimed-Names v c in
    let i = frame_index s' p in
    let done = free_named s' p 1 n (omega arith) in
    (
      freed s' p 1,
      done,
      free-IsValid p c.valid done,
      ground (arith, f.0, f.1, get_or-set s'.bitmap i (frame_index s p) 0 0 n.managed),
      λ j ne. ground (arith, f.0, f.1, get_or-set s'.bitmap i j 0 0 n.managed),
    )
