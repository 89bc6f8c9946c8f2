-- ===== src/Strings/Compare.antt =====
-- What `strlen`, `strcmp` and `strncmp` say of strings.
use muxomucota.Base.{
  ℕ, zero, suc, ◌+◌, ◌^◌, ◌≤◌, ◌<◌, ◌≡◌, ◌≢◌, List, [], ◌∷◌, length, arith, refl, ap, ◌⊎◌, inl, inr,
  ℕ_discrete, dec_lt,
}
use muxomucota.Base.Outcome.{ok}
use muxomucota.Strings.{difference, strlen_from, strlen, strcmp, strncmp}

-- At `p` lies the string `s`, with a zero byte behind it.
abbrev pub StringAt : (ℕ → ℕ) → ℕ → List ℕ → Type 0
StringAt m p [] = m p ≡ 0
StringAt m p (c ∷ s) = (m p ≡ c) × (c ≢ 0) × (c < 256) × StringAt m (suc p) s

-- The order of strings by their bytes.
abbrev pub Before : List ℕ → List ℕ → Type 0
Before s [] = ⊥
Before [] (b ∷ t) = Unit
Before (a ∷ s) (b ∷ t) = (a < b) ⊎ ((a ≡ b) × Before s t)

abbrev pub take : ℕ → List ℕ → List ℕ
take zero s = []
take (suc n) [] = []
take (suc n) (c ∷ s) = c ∷ take n s

-- A comparison's result `r`: 0 for equal strings; positive where the first is less, and negative
-- where it is greater, as an `int` in 32 bits.
abbrev pub Compared : List ℕ → List ℕ → ℕ → Type 0
Compared s t r =
    (s ≡ t) × (r ≡ 0)
    ⊎ (Before s t × (0 < r) × (r < 2 ^ 31) ⊎ Before t s × (2 ^ 31 ≤ r) × (r < 2 ^ 32))

strlen_from-length :
    (fuel : ℕ) (m : ℕ → ℕ) (p l : ℕ) (s : List ℕ)
    → length s < fuel
    → StringAt m (p + l) s
    → strlen_from fuel m p l ≡ ok (l + length s)
unfolding strlen_from
strlen_from-length zero m p l s h a = absurd (omega arith)
strlen_from-length (suc fuel) m p l [] h a = ground arith
strlen_from-length (suc fuel) m p l (c ∷ s) h a =
    let next : p + suc l ≡ suc (p + l) = omega arith in
    ground (arith, strlen_from-length fuel m p (suc l) s (omega arith) (rw next a.3))

-- Given fuel for the length of the string, `strlen` returns it.
strlen_lem :
    (fuel : ℕ) (m : ℕ → ℕ) (p : ℕ) (s : List ℕ)
    → length s < fuel
    → StringAt m p s
    → strlen fuel m p ≡ ok (length s)
unfolding strlen
strlen_lem fuel m p s h a =
    let start : p + 0 ≡ p = omega arith in
    ground (arith, strlen_from-length fuel m p 0 s h (rw start a))

-- Strings with the same first byte compare like the rest.
Compared-cons : (c : ℕ) (s t : List ℕ) (r : ℕ) → Compared s t r → Compared (c ∷ s) (c ∷ t) r
Compared-cons c s t r (inl e) = inl (ap (◌∷◌ c) e.0, e.1)
Compared-cons c s t r (inr (inl b)) = inr (inl (inr (refl, b.0), b.1, b.2))
Compared-cons c s t r (inr (inr b)) = inr (inr (inr (refl, b.0), b.1, b.2))

Compared-differ :
    (a b : ℕ) (s t : List ℕ) → a < 256 → b < 256 → a ≢ b → Compared (a ∷ s) (b ∷ t) (difference b a)
Compared-differ a b s t ha hb ne = elim (dec_lt a b) [
  | yes l ↦ inr (inl (inl l, omega arith, omega arith))
  | no g ↦ inr (inr (inl (omega arith), omega arith, omega arith))
]

-- Given fuel for the length of one of two strings, `strcmp` returns. The result is 0 for equal
-- strings, positive if the first comes before the second by their bytes, and negative if it
-- comes behind it: the reverse of the order of the standard.
pub strcmp_lem :
    (fuel : ℕ) (m : ℕ → ℕ) (p q : ℕ) (s t : List ℕ)
    → length s < fuel
    → StringAt m p s
    → StringAt m q t
    → (r : ℕ) × (strcmp fuel m p q ≡ ok r) × Compared s t r
unfolding strcmp
strcmp_lem zero m p q s t h a b = absurd (omega arith)
strcmp_lem (suc fuel) m p q [] [] h a b = (0, ground arith, inl (refl, refl))
strcmp_lem (suc fuel) m p q [] (d ∷ t) h a b =
    (difference d 0, ground arith, inr (inl (tt, omega arith, omega arith)))
strcmp_lem (suc fuel) m p q (c ∷ s) [] h a b =
    (difference 0 c, ground arith, inr (inr (tt, omega arith, omega arith)))
strcmp_lem (suc fuel) m p q (c ∷ s) (d ∷ t) h a b = elim (ℕ_discrete c d) [
  | yes e ↦
      let (r, run, x) = strcmp_lem fuel m (suc p) (suc q) s t (omega arith) a.3 b.3 in
      (r, ground (arith, run), rw e (Compared-cons d s t r x))
  | no ne ↦ (difference d c, ground arith, Compared-differ c d s t a.2 b.2 ne)
]

-- `strncmp` compares the first `n` bytes of two strings like `strcmp` compares strings, in the same
-- reversed order.
strncmp_lem :
    (n : ℕ) (m : ℕ → ℕ) (p q : ℕ) (s t : List ℕ)
    → StringAt m p s
    → StringAt m q t
    → Compared (take n s) (take n t) (strncmp m p q n)
unfolding strncmp
strncmp_lem zero m p q s t a b = inl (refl, refl)
strncmp_lem (suc n) m p q [] [] a b = inl (refl, ground arith)
strncmp_lem (suc n) m p q [] (d ∷ t) a b = inr (inl (tt, ground arith, ground arith))
strncmp_lem (suc n) m p q (c ∷ s) [] a b = inr (inr (tt, ground arith, ground arith))
strncmp_lem (suc n) m p q (c ∷ s) (d ∷ t) a b = elim (ℕ_discrete c d) [
  | yes e ↦
      let same : strncmp m p q (suc n) ≡ strncmp m (suc p) (suc q) n = ground arith in
      rw (same, e)
        (Compared-cons d (take n s) (take n t) (strncmp m (suc p) (suc q) n)
          (strncmp_lem n m (suc p) (suc q) s t a.3 b.3))
  | no ne ↦
      let here : strncmp m p q (suc n) ≡ difference d c = ground arith in
      rw here (Compared-differ c d (take n s) (take n t) a.2 b.2 ne)
]
