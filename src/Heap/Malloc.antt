-- ===== src/Heap/Malloc.antt =====
-- The search of `malloc` for a free block.
use muxomucota.Base.{
  ℕ, ◌+◌, ◌-◌, ◌%◌, ◌^◌, ◌≤◌, ◌<◌, ◌≡◌, ◌↔◌, none, some, List, [], ◌∷◌, arith, All, inl, inr, ◌⊎◌,
  refl, dec_lt, subst,
}
use muxomucota.Heap.{Block, take_fit}
use muxomucota.Heap.Free.{InBlock, Covers, Fits, Apart, Clear}

-- A block that ends before a list begins overlaps none of it.
Clear-Apart :
    (t : Block) (lo : ℕ) (bs : List Block) → t.addr + t.size + 16 ≤ lo → Apart lo bs → Clear t bs
Clear-Apart t lo [] h s = tt
Clear-Apart t lo (b ∷ bs) h s =
    (inl (omega arith), Clear-Apart t (b.addr + b.size + 16) bs (omega arith) s.2)

Apart-weaken : (lo hi : ℕ) (bs : List Block) → lo ≤ hi → Apart hi bs → Apart lo bs
Apart-weaken lo hi [] h s = tt
Apart-weaken lo hi (b ∷ bs) h s = (omega arith, s.1, s.2)

-- The block `g` of at least `sz` bytes was taken out of `bs`, which leaves `bs'`.
pub record Taken (sz lo : ℕ) (bs : List Block) (g : Block) (bs' : List Block) : Type 0 where
  pub large : sz ≤ g.size
  pub above : lo < g.addr
  pub fits : Fits g
  pub clear : Clear g bs'
  pub apart : Apart lo bs'
  pub same : (a : ℕ) → Covers bs a ↔ (InBlock g a ⊎ Covers bs' a)

Taken-whole :
    (sz lo : ℕ) (b : Block) (bs : List Block)
    → sz ≤ b.size
    → Apart lo (b ∷ bs)
    → Taken sz lo (b ∷ bs) b bs
Taken-whole sz lo b bs h s = record {
  large = h;
  above = s.0;
  fits = s.1;
  clear = Clear-Apart b (b.addr + b.size + 16) bs (omega arith) s.2;
  apart = Apart-weaken lo (b.addr + b.size + 16) bs (omega arith) s.2;
  same = λ a. (λ x. x, λ x. x);
}

-- The rest of a block that is split.
abbrev remains : ℕ → Block → Block
remains sz b = record { addr = (b.addr + sz + 16) % 2 ^ 32; size = b.size - sz - 16 }

abbrev part : ℕ → Block → Block
part sz b = record { addr = b.addr; size = sz }

Taken-part :
    (sz lo : ℕ) (b : Block) (bs : List Block)
    → sz + 32 ≤ b.size
    → Apart lo (b ∷ bs)
    → Taken sz lo (b ∷ bs) (part sz b) (remains sz b ∷ bs)
Taken-part sz lo b bs h s =
    let e : b.addr + b.size + 16 ≡ (b.addr + sz + 16) % 2 ^ 32 + (b.size - sz - 16) + 16 =
      omega arith in
    record {
      large = omega arith;
      above = s.0;
      fits = omega arith;
      clear =
          (inl (omega arith), Clear-Apart (part sz b) (b.addr + b.size + 16) bs (omega arith) s.2);
      apart = (omega arith, omega arith, subst (λ (lo : ℕ). Apart lo bs) e s.2);
      same = λ a. (
        λ x. elim x [
          | inl i ↦ elim (dec_lt a (b.addr + sz + 16)) [
            | yes p ↦ inl (omega arith)
            | no p ↦ inr (inl (omega arith))
          ]
          | inr j ↦ inr (inr j)
        ],
        λ x. elim x [
          | inl i ↦ inl (omega arith)
          | inr j ↦ elim j [ inl i ↦ inl (omega arith) | inr k ↦ inr k ]
        ],
      );
    }

Taken-later :
    (sz lo : ℕ) (b g : Block) (bs bs' : List Block)
    → Apart lo (b ∷ bs)
    → Taken sz (b.addr + b.size + 16) bs g bs'
    → Taken sz lo (b ∷ bs) g (b ∷ bs')
Taken-later sz lo b g bs bs' s t = record {
  large = t.large;
  above = omega (arith, s.0, t.above);
  fits = t.fits;
  clear = (inr (omega (arith, t.above)), t.clear);
  apart = (s.0, s.1, t.apart);
  same = λ a. (
    λ x. elim x [
      | inl i ↦ inr (inl i)
      | inr j ↦ elim ((t.same a).0 j) [ inl i ↦ inl i | inr k ↦ inr (inr k) ]
    ],
    λ x. elim x [
      | inl i ↦ inr ((t.same a).1 (inl i))
      | inr j ↦ elim j [ inl i ↦ inl i | inr k ↦ inr ((t.same a).1 (inr k)) ]
    ],
  );
}

-- The search takes a block of the list out, or all blocks are too small.
pub take_fit_lem :
    (sz lo : ℕ) (bs : List Block)
    → Apart lo bs
    → (take_fit sz bs ≡ none) × All (λ b. b.size < sz) bs
      ⊎ ((g : Block) × (bs' : List Block) × (take_fit sz bs ≡ some (g, bs')) × Taken sz lo bs g bs')
unfolding take_fit
take_fit_lem sz lo [] s = inl (refl, tt)
take_fit_lem sz lo (b ∷ bs) s = elim (dec_lt b.size sz) [
  | yes small ↦ elim (take_fit_lem sz (b.addr + b.size + 16) bs s.2) [
    | inl (e, all) ↦ inl (ground (arith, e), (small, all))
    | inr (g, bs', e, t) ↦ inr (g, b ∷ bs', ground (arith, e), Taken-later sz lo b g bs bs' s t)
  ]
  | no large ↦ elim (dec_lt (b.size - sz) 32) [
    | yes p ↦ inr (b, bs, ground arith, Taken-whole sz lo b bs (omega arith) s)
    | no p ↦ inr (part sz b, remains sz b ∷ bs, ground arith, Taken-part sz lo b bs (omega arith) s)
  ]
]
