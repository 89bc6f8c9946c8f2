-- ===== src/Numbers/Value.antt =====
-- The value of a text of digits, and the texts that are too long.
use muxomucota.Base.{
  ℕ, zero, suc, ◌+◌, ◌*◌, ◌%◌, ◌^◌, ◌≤◌, ◌<◌, ◌≡◌, ◌≢◌, Bool, true, false, ◌||◌, List, [], ◌∷◌,
  length, ◌==◌, leb, if◌then◌else◌, arith, refl, ◌∙◌, Bool-cases, inl, inr, ◌⊎◌,
}
use muxomucota.Base.Outcome.{ok, fault}
use muxomucota.Numbers.{
  is_alnum, digit_value, digits_from, stdlib_pow, add_digits, read_digits, strtoll,
}

-- The text from `pos` on is that of the digits `ds` in the base.
abbrev pub Digits : (ℕ → ℕ) → ℕ → ℕ → List ℕ → Type 0
Digits s base pos [] = Unit
Digits s base pos (d ∷ ds) =
    (is_alnum (s pos) ≡ true) × (digit_value (s pos) ≡ d) × (d < base) × Digits s base (suc pos) ds

-- The usual way to add up digits: from the left, times the base.
abbrev pub horner : ℕ → ℕ → List ℕ → ℕ
horner base acc [] = acc
horner base acc (d ∷ ds) = horner base (acc * base + d) ds

horner_lem :
    (base acc : ℕ) (ds : List ℕ)
    → horner base acc ds ≡ acc * stdlib_pow base (length ds) + add_digits base ds
unfolding stdlib_pow add_digits
horner_lem base acc [] = omega arith
horner_lem base acc (d ∷ ds) = grind (arith, horner_lem base (acc * base + d) ds)

-- What follows the digits is none.
abbrev pub Ended : (ℕ → ℕ) → ℕ → ℕ → Type 0
Ended s base pos = (if is_alnum (s pos) then leb base (digit_value (s pos)) else true) ≡ true

digits_from-Digits :
    (room : ℕ) (s : ℕ → ℕ) (base pos : ℕ) (ds : List ℕ)
    → length ds < room
    → Digits s base pos ds
    → Ended s base (pos + length ds)
    → digits_from room s base pos ≡ ok (ds, pos + length ds)
unfolding digits_from
digits_from-Digits zero s base pos ds h g e = absurd (omega arith)
digits_from-Digits (suc room) s base pos [] h g e =
    let same : pos + 0 ≡ pos = omega arith in ground (arith, rw same at e)
digits_from-Digits (suc room) s base pos (d ∷ ds) h g e =
    let same : pos + suc (length ds) ≡ suc pos + length ds = omega arith in
    let later = digits_from-Digits room s base (suc pos) ds (omega arith) g.3 (rw (← same) e) in
    rw same (ground (arith, later))

-- Where the number of a text begins: behind a sign.
abbrev pub start : (ℕ → ℕ) → ℕ
start s = if s 0 == b'+' || s 0 == b'-' then 1 else 0

ne-test : (a b : ℕ) → a ≢ b → (a == b) ≡ false
ne-test a b h = ground arith

read_digits-horner :
    (s : ℕ → ℕ) (base pos : ℕ) (sign : Bool) (ds : List ℕ)
    → length ds < 10
    → Digits s base pos ds
    → Ended s base (pos + length ds)
    → read_digits s base sign pos ≡ ok (sign, horner base 0 ds % 2 ^ 64, pos + length ds)
unfolding read_digits
read_digits-horner s base pos sign ds h g e =
    let same : horner base 0 ds ≡ add_digits base ds = horner_lem base 0 ds ∙ omega arith in
    let short : (length ds == 10) ≡ false = ne-test (length ds) 10 (omega arith) in
    rw (same, digits_from-Digits 10 s base pos ds h g e, short) refl

-- In a text of at most nine digits of the base behind an optional sign, `strtoll` finds the sign,
-- the value of the digits as it is read from left to right, and the place behind them.
pub strtoll-horner :
    (s : ℕ → ℕ) (base : ℕ) (ds : List ℕ)
    → base ≢ 0
    → length ds < 10
    → Digits s base (start s) ds
    → Ended s base (start s + length ds)
    → strtoll s base ≡ ok (s 0 == b'-', horner base 0 ds % 2 ^ 64, start s + length ds)
unfolding strtoll
strtoll-horner s base ds nz h g e =
    let given : (base == 0) ≡ false = ne-test base 0 nz in
    rw given (read_digits-horner s base (start s) (s 0 == b'-') ds h g e)

digits_from_long :
    (room : ℕ) (s : ℕ → ℕ) (base pos : ℕ) (ds : List ℕ)
    → room ≤ length ds
    → Digits s base pos ds
    → (digits_from room s base pos ≡ fault)
      ⊎ ((r : List ℕ × ℕ) × (digits_from room s base pos ≡ ok r) × (length r.0 ≡ room))
unfolding digits_from
digits_from_long zero s base pos ds h g = elim (Bool-cases (is_alnum (s pos))) [
  | inl more ↦ inl (rw more refl)
  | inr end ↦ inr (([], pos), rw end refl, refl)
]
digits_from_long (suc room) s base pos [] h g = absurd (omega arith)
digits_from_long (suc room) s base pos (d ∷ ds) h g =
    elim (digits_from_long room s base (suc pos) ds (omega arith) g.3) [
      | inl f ↦ inl (ground (arith, f))
      | inr (r, e, l) ↦ inr ((d ∷ r.0, r.1), ground (arith, e), omega (arith, l))
    ]

-- In a text of ten digits or more `strtoll` leaves the array of ten digits.
pub strtoll_long :
    (s : ℕ → ℕ) (base : ℕ) (ds : List ℕ)
    → base ≢ 0
    → 10 ≤ length ds
    → Digits s base (start s) ds
    → strtoll s base ≡ fault
unfolding strtoll read_digits
strtoll_long s base ds nz h g = elim (digits_from_long 10 s base (start s) ds h g) [
  | inl f ↦ ground (arith, f)
  | inr (r, e, l) ↦ ground (arith, e, l)
]
