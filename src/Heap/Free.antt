-- ===== src/Heap/Free.antt =====
-- `free` gives a block back to the list.
use muxomucota.Base.{
  ℕ, ◌+◌, ◌-◌, ◌%◌, ◌^◌, ◌≤◌, ◌<◌, ◌≡◌, ◌↔◌, List, [], ◌∷◌, arith, All, inl, inr, ◌⊎◌, refl, dec_lt,
  ℕ_discrete, subst,
}
use muxomucota.Base.Outcome.{ok}
use muxomucota.Heap.{Block, Heap, join_from, join_memory, insert, free}

-- The byte `a` lies in the block or its header.
abbrev pub InBlock : Block → ℕ → Type 0
InBlock b a = (b.addr ≤ a) × (a < b.addr + b.size + 16)

-- The byte `a` lies in one of the blocks.
abbrev pub Covers : List Block → ℕ → Type 0
Covers [] a = ⊥
Covers (b ∷ bs) a = InBlock b a ⊎ Covers bs a

-- The block ends before the addresses do.
abbrev pub Fits : Block → Type 0
Fits b = b.addr + b.size + 16 < 2 ^ 32

-- The blocks lie in order, from `lo` on, without overlap.
abbrev pub Ordered : ℕ → List Block → Type 0
Ordered lo [] = Unit
Ordered lo (b ∷ bs) = (lo ≤ b.addr) × Fits b × Ordered (b.addr + b.size + 16) bs

-- And there is a gap before each.
abbrev pub Apart : ℕ → List Block → Type 0
Apart lo [] = Unit
Apart lo (b ∷ bs) = (lo < b.addr) × Fits b × Apart (b.addr + b.size + 16) bs

-- The block overlaps none of the list.
abbrev pub Clear : Block → List Block → Type 0
Clear t bs = All (λ b. (t.addr + t.size + 16 ≤ b.addr) ⊎ (b.addr + b.size + 16 ≤ t.addr)) bs

pub Apart-Ordered : (lo : ℕ) (bs : List Block) → Apart lo bs → Ordered lo bs
Apart-Ordered lo [] h = tt
Apart-Ordered lo (b ∷ bs) h = (omega arith, h.1, Apart-Ordered (b.addr + b.size + 16) bs h.2)

insert_lem :
    (t : Block) (lo : ℕ) (bs : List Block)
    → lo ≤ t.addr
    → Fits t
    → Clear t bs
    → Ordered lo bs
    → (l : List Block) × (insert t bs ≡ ok l)
      × Ordered lo l
      × ((a : ℕ) → Covers l a ↔ (InBlock t a ⊎ Covers bs a))
unfolding insert
insert_lem t lo [] h f c o = (t ∷ [], refl, (h, f, tt), λ a. (λ x. x, λ x. x))
insert_lem t lo (b ∷ bs) h f (inl before, c) o =
    (t ∷ b ∷ bs, ground arith, (h, f, (before, o.1, o.2)), λ a. (λ x. x, λ x. x))
insert_lem t lo (b ∷ bs) h f (inr behind, c) o =
    let (l, e, ol, cov) = insert_lem t (b.addr + b.size + 16) bs behind f c o.2 in
    (
      b ∷ l,
      ground (arith, e),
      (o.0, o.1, ol),
      λ a. (
        λ x. elim x [
          | inl i ↦ inr (inl i)
          | inr j ↦ elim ((cov a).0 j) [ inl i ↦ inl i | inr k ↦ inr (inr k) ]
        ],
        λ x. elim x [
          | inl i ↦ inr ((cov a).1 (inl i))
          | inr j ↦ elim j [ inl i ↦ inl i | inr k ↦ inr ((cov a).1 (inr k)) ]
        ],
      ),
    )

-- The two lists of blocks have the same bytes.
abbrev pub SameBytes : List Block → List Block → Type 0
SameBytes l m = (a : ℕ) → Covers l a ↔ Covers m a

SameBytes-cons : (c : Block) (l m : List Block) → SameBytes l m → SameBytes (c ∷ l) (c ∷ m)
SameBytes-cons c l m s a = (
  λ x. elim x [ inl i ↦ inl i | inr j ↦ inr ((s a).0 j) ],
  λ x. elim x [ inl i ↦ inl i | inr j ↦ inr ((s a).1 j) ],
)

-- Adjacent blocks have the bytes of the block that they are joined to.
SameBytes-join :
    (c n c' : Block) (r : List Block)
    → c'.addr ≡ c.addr
    → c.addr + c.size + 16 ≡ n.addr
    → n.addr + n.size + 16 ≡ c'.addr + c'.size + 16
    → SameBytes (c' ∷ r) (c ∷ n ∷ r)
SameBytes-join c n c' r start meet stop a = (
  λ x. elim x [
    | inl i ↦ elim (dec_lt a n.addr) [ yes p ↦ inl (omega arith) | no p ↦ inr (inl (omega arith)) ]
    | inr j ↦ inr (inr j)
  ],
  λ x. elim x [
    | inl i ↦ inl (omega arith)
    | inr j ↦ elim j [ inl i ↦ inl (omega arith) | inr k ↦ inr k ]
  ],
)

SameBytes-trans : (l m n : List Block) → SameBytes l m → SameBytes m n → SameBytes l n
SameBytes-trans l m n s t a = (λ x. (t a).0 ((s a).0 x), λ x. (s a).1 ((t a).1 x))

join_from_lem :
    (c : Block) (r : List Block)
    → Fits c
    → Ordered (c.addr + c.size + 16) r
    → (l : List Block) × (join_from c r ≡ ok l)
      × ((lo : ℕ) → lo < c.addr → Apart lo l)
      × SameBytes l (c ∷ r)
unfolding join_from
join_from_lem c [] f o = (c ∷ [], refl, λ lo h. (h, f, tt), λ a. (λ x. x, λ x. x))
join_from_lem c (n ∷ r) f o = elim (ℕ_discrete (c.addr + c.size + 16) n.addr) [
  | yes e ↦
      let c' : Block = record c { size = (c.size + (n.size + 16)) % 2 ^ 32 } in
      let same : n.addr + n.size + 16 ≡ c'.addr + c'.size + 16 = omega arith in
      let (l, q, ap_l, cov) =
        join_from_lem c' r (omega arith) (subst (λ (lo : ℕ). Ordered lo r) same o.2) in
      (
        l,
        ground (arith, q),
        ap_l,
        SameBytes-trans l (c' ∷ r) (c ∷ n ∷ r) cov (SameBytes-join c n c' r refl e same),
      )
  | no ne ↦
      let (l, q, ap_l, cov) = join_from_lem n r o.1 o.2 in
      (
        c ∷ l,
        ground (arith, q),
        λ lo h. (h, f, ap_l (c.addr + c.size + 16) (omega arith)),
        SameBytes-cons c l (n ∷ r) cov,
      )
]

join_memory_lem :
    (l : List Block)
    → Ordered 1 l
    → (l' : List Block) × (join_memory l ≡ ok l') × Apart 0 l' × SameBytes l' l
unfolding join_memory
join_memory_lem [] o = ([], refl, tt, λ a. (λ x. x, λ x. x))
join_memory_lem (c ∷ r) o =
    let (l', e, ap_l, cov) = join_from_lem c r o.1 o.2 in (l', e, ap_l 0 (omega arith), cov)

Ordered-one : (bs : List Block) → Apart 0 bs → Ordered 1 bs
Ordered-one [] h = tt
Ordered-one (b ∷ bs) h = (omega arith, h.1, Apart-Ordered (b.addr + b.size + 16) bs h.2)

-- What the pointer `ptr` names: the block of the header before it.
abbrev pub block_at : ℕ → Heap → Block
block_at ptr h = record { addr = ptr - 16; size = h.sizes (ptr - 16) }

-- In a heap whose free blocks lie in order with gaps between them, `free` of a pointer whose block
-- overlaps none of them returns. The free blocks again lie in order with gaps between them, and
-- their bytes are those that were free and those of the block.
pub free_lem :
    (ptr : ℕ) (h : Heap)
    → 16 < ptr
    → ptr < 2 ^ 32
    → Fits (block_at ptr h)
    → Clear (block_at ptr h) h.free_blocks
    → Apart 0 h.free_blocks
    → (h' : Heap) × (free ptr h ≡ ok h')
      × Apart 0 h'.free_blocks
      × ((a : ℕ) → Covers h'.free_blocks a ↔ (InBlock (block_at ptr h) a ⊎ Covers h.free_blocks a))
unfolding free
free_lem ptr h pos small f c s =
    let at : (ptr + 2 ^ 32 - 16) % 2 ^ 32 ≡ ptr - 16 = omega arith in
    let (l, e, o, cov) =
      insert_lem (block_at ptr h) 1 h.free_blocks (omega arith) f c (Ordered-one h.free_blocks s) in
    let (l', e', s', cov') = join_memory_lem l o in
    (
      record h { free_blocks = l' },
      rw at (ground (arith, e, e')),
      s',
      λ a. (λ x. (cov a).0 ((cov' a).0 x), λ x. (cov' a).1 ((cov a).1 x)),
    )
