-- ===== src/Numbers/Decimal.antt =====
-- What `strtol` makes of a group of at most nine decimal digits.
use muxomucota.Base.{
  ℕ, zero, suc, ◌+◌, ◌-◌, ◌*◌, ◌%◌, ◌^◌, ◌≤◌, ◌<◌, ◌≡◌, false, List, [], ◌∷◌, length, ◌==◌, arith,
  subst,
}
use muxomucota.Base.Outcome.{ok}
use muxomucota.Numbers.{strtoll, strtol, stdlib_pow, digit_value}
use muxomucota.Numbers.Value.{Digits, horner, Ended, start, strtoll-horner}

stdlib_pow_bound : (j k : ℕ) → j + k ≡ 9 → stdlib_pow 10 k ≤ 10 ^ 9
unfolding stdlib_pow
stdlib_pow_bound zero k h = let e : k ≡ 9 = omega arith in rw e (omega arith)
stdlib_pow_bound (suc j) k h = omega (arith, stdlib_pow_bound j (suc k) (omega arith))

horner_bound :
    (s : ℕ → ℕ) (pos acc k j : ℕ) (ds : List ℕ)
    → acc < stdlib_pow 10 k
    → j + (length ds + k) ≡ 9
    → Digits s 10 pos ds
    → horner 10 acc ds < 10 ^ 9
unfolding stdlib_pow
horner_bound s pos acc k j [] h l g = omega (arith, stdlib_pow_bound j k (omega arith))
horner_bound s pos acc k j (d ∷ ds) h l g =
    let digit = g.2 in
    horner_bound s (suc pos) (acc * 10 + d) (suc k) j ds (omega arith) (omega arith) g.3

horner_small :
    (s : ℕ → ℕ) (ds : List ℕ) → length ds < 10 → Digits s 10 0 ds → horner 10 0 ds < 10 ^ 9
unfolding stdlib_pow
horner_small s ds h g = horner_bound s 0 0 0 (9 - length ds) ds (omega arith) (omega arith) g

no_sign : (s : ℕ → ℕ) → start s ≡ 0 → (s 0 == b'-') ≡ false
no_sign s h = ground arith

-- What the two functions make of a group of digits.
pub strtol-Digits :
    (s : ℕ → ℕ) (ds : List ℕ)
    → start s ≡ 0
    → length ds < 10
    → Digits s 10 0 ds
    → Ended s 10 (length ds)
    → (strtoll s 10 ≡ ok (false, horner 10 0 ds, length ds))
      × (strtol s 10 ≡ ok (false, false, horner 10 0 ds))
unfolding strtol
strtol-Digits s ds z h g e =
    let at_end : start s + length ds ≡ length ds = rw z (omega arith) in
    let small = horner_small s ds h g in
    let w : horner 10 0 ds % 2 ^ 64 ≡ horner 10 0 ds = omega (arith, small) in
    let r : strtoll s 10 ≡ ok (false, horner 10 0 ds, length ds) =
      rw (← no_sign s z, ← w)
        (subst (λ p. strtoll s 10 ≡ ok (s 0 == b'-', horner 10 0 ds % 2 ^ 64, p)) at_end
          (strtoll-horner s 10 ds (omega arith) h (rw z g) (rw at_end e))) in
    (r, rw r (ground (arith, small)))

pub digit_value_lem : (d : ℕ) → d < 10 → digit_value (b'0' + d) ≡ d
unfolding digit_value
digit_value_lem d h = ground arith
