-- ===== src/Heap/Realloc/Moves.antt =====
-- Blocks that `realloc` keeps or moves.
use Prim.Native.Nat.{min}
use muxomucota.Base.{
  ℕ, zero, suc, ◌+◌, ◌-◌, ◌%◌, ◌^◌, ◌≤◌, ◌<◌, ◌≡◌, ◌≢◌, false, Bool-cases, ◌==◌, leb, List, [], ◌∷◌,
  arith, inl, inr, ◌⊎◌, refl, dec_lt, subst, sym, ap, Option-cases,
}
use muxomucota.Base.Outcome.{ok, ok-injective, >>=-eq-ok}
use muxomucota.Strings.{memcpy}
use muxomucota.Strings.Copy.{memcpy_lem}
use muxomucota.Heap.{Block, Heap, take_fit, round_up, malloc, insert, join_memory, free}
use muxomucota.Heap.Free.{InBlock, Covers, Fits, Apart, Clear, block_at, free_lem}
use muxomucota.Heap.Serve.{IsHeap, Served, malloc-Served}
use muxomucota.Heap.Realloc.{move, realloc}

-- Blocks that have no byte in common lie one behind the other.
abbrev Separate : Block → Block → Type 0
Separate t b = (t.addr + t.size + 16 ≤ b.addr) ⊎ (b.addr + b.size + 16 ≤ t.addr)

Separate-points : (t b : Block) → ((a : ℕ) → InBlock t a → InBlock b a → ⊥) → Separate t b
Separate-points t b apart = elim (dec_lt t.addr b.addr) [
  | yes l ↦ elim (dec_lt b.addr (t.addr + t.size + 16)) [
    | yes m ↦ absurd (apart b.addr (omega arith) (omega arith))
    | no g ↦ inl (omega arith)
  ]
  | no g ↦ elim (dec_lt t.addr (b.addr + b.size + 16)) [
    | yes m ↦ absurd (apart t.addr (omega arith) (omega arith))
    | no k ↦ inr (omega arith)
  ]
]

Clear-points :
    (t : Block) (bs : List Block) → ((a : ℕ) → InBlock t a → Covers bs a → ⊥) → Clear t bs
Clear-points t [] apart = tt
Clear-points t (b ∷ bs) apart = (
  Separate-points t b (λ a i j. apart a i (inl j)),
  Clear-points t bs (λ a i c. apart a i (inr c)),
)

points-Clear : (t : Block) (bs : List Block) → Clear t bs → (a : ℕ) → InBlock t a → Covers bs a → ⊥
points-Clear t (b ∷ bs) c a i (inl j) = omega (arith, c.0)
points-Clear t (b ∷ bs) c a i (inr j) = points-Clear t bs c.1 a i j
points-Clear t [] c a i j = absurd j

-- The block is in use: it overlaps no free block and ends before the heap does.
pub record InUse (t : Block) (h : Heap) : Type 0 where
  pub above : 0 < t.addr
  pub fits : Fits t
  pub clear : Clear t h.free_blocks
  pub below : t.addr + t.size + 16 ≤ h.heap_end

-- A new block has no byte in common with one that is in use, and neither have the free blocks then.
Served-InUse :
    (sz p : ℕ) (h h' : Heap) (t : Block)
    → Served sz h p h'
    → InUse t h
    → (a : ℕ) → InBlock t a
    → InBlock (block_at p h') a ⊎ Covers h'.free_blocks a
    → ⊥
Served-InUse sz p h h' t s u a i j =
    elim ((s.same a).1 (subst (λ (b : Block). InBlock b a ⊎ Covers h'.free_blocks a) s.named j)) [
      | inl old ↦ points-Clear t h.free_blocks u.clear a i old
      | inr new ↦ omega (arith, u.below)
    ]

-- `malloc` writes the size of one header.
malloc-sizes :
    (sz p a : ℕ) (h h' : Heap)
    → malloc sz h ≡ ok (p, h')
    → a ≢ p - 16
    → a + 16 < 2 ^ 32
    → h'.sizes a ≡ h.sizes a
unfolding malloc
malloc-sizes sz p a h h' e ne small = elim (Option-cases (take_fit (round_up sz) h.free_blocks)) [
  | inl none_fits ↦ ground (arith, e, none_fits)
  | inr (r, fit) ↦ ground (arith, e, fit)
]

free-sizes : (ptr : ℕ) (h h' : Heap) → free ptr h ≡ ok h' → h'.sizes ≡ h.sizes
unfolding free
free-sizes ptr h h' e = elim (Bool-cases (ptr == 0)) [
  | inl null ↦ ground (arith, e)
  | inr given ↦
      let (l, first, behind) = >>=-eq-ok (insert _ h.free_blocks) _ (rw given at e) in
      let (l', second, last) = >>=-eq-ok (join_memory l) _ behind in
      ap (λ (x : Heap). x.sizes) (sym (ok-injective last))
]

-- The `n` bytes from `p` on.
abbrev pub bytes_at : (ℕ → ℕ) → ℕ → ℕ → List ℕ
bytes_at m p zero = []
bytes_at m p (suc n) = m p ∷ bytes_at m (suc p) n

bytes_at_eq :
    (m m' : ℕ → ℕ) (p q n : ℕ)
    → ((i : ℕ) → i < n → m (p + i) ≡ m' (q + i))
    → bytes_at m p n ≡ bytes_at m' q n
bytes_at_eq m m' p q zero same = refl
bytes_at_eq m m' p q (suc n) same =
    let p0 : p + 0 ≡ p = omega arith in
    let q0 : q + 0 ≡ q = omega arith in
    let here : m p ≡ m' q = rw (← p0, ← q0) (same 0 (omega arith)) in
    let later = bytes_at_eq m m' (suc p) (suc q) n (λ i l. step i l) in rw (here, later) refl
  where
    step : (i : ℕ) → i < n → m (suc p + i) ≡ m' (suc q + i)
    step i l =
        let a : suc p + i ≡ p + suc i = omega arith in
        let b : suc q + i ≡ q + suc i = omega arith in rw (a, b) (same (suc i) (omega arith))

bytes_at-memcpy :
    (m : ℕ → ℕ) (d s n : ℕ) → (d ≤ s) ⊎ (s + n ≤ d) → bytes_at (memcpy m d s n) d n ≡ bytes_at m s n
bytes_at-memcpy m d s n apart = bytes_at_eq (memcpy m d s n) m d s n (λ i l.
    let at : s + (d + i - d) ≡ s + i = omega arith in
    ground (arith, memcpy_lem m d s n (d + i) apart, at))

round_up_bound : (sz : ℕ) → sz ≢ 0 → sz + 32 < 2 ^ 32 → (sz ≤ round_up sz) × (round_up sz ≤ sz + 15)
round_up_bound sz nz h = ground arith

-- The old block is moved to a new one.
move_lem :
    (ptr size : ℕ) (h : Heap) (m : ℕ → ℕ)
    → IsHeap h
    → ptr < 2 ^ 32
    → InUse (block_at ptr h) h
    → size ≢ 0
    → h.heap_end + size + 32 < 2 ^ 32
    → (p : ℕ) × (h' : Heap) × (m' : ℕ → ℕ) × (move ptr (h.sizes (ptr - 16)) size h m
        ≡ ok (p, h', m'))
      × (size ≤ (block_at p h').size)
      × Clear (block_at p h') h'.free_blocks
      × Apart 0 h'.free_blocks
      × (bytes_at m' p (h.sizes (ptr - 16)) ≡ bytes_at m ptr (h.sizes (ptr - 16)))
      × ((a : ℕ) → InBlock (block_at ptr h) a → Covers h'.free_blocks a)
unfolding move
move_lem ptr size h m v small u nz room =
    let t = block_at ptr h in
    let (enough, little) = round_up_bound size nz (omega arith) in
    let (p, h1, e, s) = malloc-Served size h v (omega arith) in
    let apart = Served-InUse size p h h1 t s u in
    let other : ptr - 16 ≢ p - 16 =
      λ x. apart (ptr - 16) (omega (arith, x)) (inl (omega (arith, x))) in
    let kept : h1.sizes (ptr - 16) ≡ h.sizes (ptr - 16) =
      malloc-sizes size p (ptr - 16) h h1 e other (omega arith) in
    let old : block_at ptr h1 ≡ t = ground (arith, kept) in
    let (h2, f, a', cov) =
      free_lem ptr h1 (omega arith) small (subst Fits (sym old) u.fits)
        (subst (λ b. Clear b h1.free_blocks) (sym old)
          (Clear-points t h1.free_blocks (λ a i c. apart a i (inr c))))
        s.apart in
    let sizes = free-sizes ptr h1 h2 f in
    let same_size = ap (λ (z : ℕ → ℕ). z (p - 16)) sizes in
    let same_new : block_at p h2 ≡ block_at p h1 = ground (arith, same_size) in
    let large = ap (λ (b : Block). b.size) s.named in
    let new_clear : Clear (block_at p h1) h1.free_blocks =
      subst (λ b. Clear b h1.free_blocks) (sym s.named) s.clear in
    let clear : Clear (block_at p h1) h2.free_blocks =
      Clear-points (block_at p h1) h2.free_blocks (λ a i c. elim ((cov a).0 c) [
        | inl of_old ↦ apart a (subst (λ b. InBlock b a) old of_old) (inl i)
        | inr of_free ↦ points-Clear (block_at p h1) h1.free_blocks new_clear a i of_free
      ]) in
    let far = Separate-points t (block_at p h1) (λ a i j. apart a i (inl j)) in
    let not_null : (p == 0) ≡ false = ground (arith, s.behind_header) in
    (
      p,
      h2,
      memcpy m p ptr (h.sizes (ptr - 16)),
      rw (e, not_null, f) refl,
      omega (arith, s.large, large, same_size),
      subst (λ b. Clear b h2.free_blocks) (sym same_new) clear,
      a',
      bytes_at-memcpy m p ptr (h.sizes (ptr - 16)) (omega arith),
      λ a i. (cov a).1 (inl (subst (λ b. InBlock b a) (sym old) i)),
    )

-- A block is in use in a heap with room at its end, and gets another size that is not 0. `realloc`
-- returns a block of that size or more that overlaps no free block. As many bytes of it as both
-- sizes have are those of the old block. It is the old block, or the old block's bytes are free.
pub realloc_lem :
    (ptr size : ℕ) (h : Heap) (m : ℕ → ℕ)
    → IsHeap h
    → ptr < 2 ^ 32
    → InUse (block_at ptr h) h
    → size ≢ 0
    → h.heap_end + size + 32 < 2 ^ 32
    → (p : ℕ) × (h' : Heap) × (m' : ℕ → ℕ) × (realloc ptr size h m ≡ ok (p, h', m'))
      × (size ≤ (block_at p h').size)
      × Clear (block_at p h') h'.free_blocks
      × Apart 0 h'.free_blocks
      × (bytes_at m' p (min size (h.sizes (ptr - 16)))
          ≡ bytes_at m ptr (min size (h.sizes (ptr - 16))))
      × ((p ≡ ptr) ⊎ ((a : ℕ) → InBlock (block_at ptr h) a → Covers h'.free_blocks a))
unfolding realloc
realloc_lem ptr size h m v small u nz room =
    let at : (ptr + 2 ^ 32 - 16) % 2 ^ 32 ≡ ptr - 16 = omega (arith, u.above) in
    let given : (ptr == 0) ≡ false = ground (arith, u.above) in
    let some_size : (size == 0) ≡ false = ground (arith, nz) in
    elim (Bool-cases (leb size (h.sizes (ptr - 16)))) [
      | inl fits ↦ (
        ptr,
        h,
        m,
        rw (given, some_size, at, fits) refl,
        ground arith,
        u.clear,
        v.apart,
        refl,
        inl refl,
      )
      | inr large ↦
          let (p, h', m', e, big, clear, apart, same, freed) =
            move_lem ptr size h m v small u nz room in
          let less : min size (h.sizes (ptr - 16)) ≡ h.sizes (ptr - 16) = ground (arith, large) in
          (
            p,
            h',
            m',
            rw (given, some_size, at, large) e,
            big,
            clear,
            apart,
            rw less same,
            inr freed,
          )
    ]
