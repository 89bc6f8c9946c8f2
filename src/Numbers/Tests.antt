-- ===== src/Numbers/Tests.antt =====
-- Numbers read from concrete texts.
use muxomucota.Base.{ℕ, ◌≡◌, true, false, [], ◌∷◌, ◌==◌, if◌then◌else◌, arith, refl}
use muxomucota.Base.Outcome.{ok}
use muxomucota.Numbers.{digit_value, strtoll, strtol, strtoul}
use muxomucota.Numbers.Value.{strtoll-horner}

-- "-2f;"
abbrev hex : ℕ → ℕ
hex i = if i == 0 then b'-' else if i == 1 then b'2' else if i == 2 then b'f' else b';'

-- "0x1F"
abbrev prefixed : ℕ → ℕ
prefixed i =
    if i == 0
    then b'0'
    else if i == 1
    then b'x'
    else if i == 2
    then b'1'
    else if i == 3
    then b'F'
    else 0

strtoll-prefix : strtoll prefixed 0 ≡ ok (false, 31, 4)
unfolding strtoll
strtoll-prefix = refl

strtol-negative : strtol hex 16 ≡ ok (false, true, 47)
unfolding strtol
strtol-negative = refl

strtoul-negative : strtoul hex 16 ≡ ok (true, 0)
unfolding strtoul
strtoul-negative = refl

digit_two : digit_value b'2' ≡ 2
unfolding digit_value
digit_two = refl

digit_f : digit_value b'f' ≡ 15
unfolding digit_value
digit_f = refl

digit_one : digit_value b'1' ≡ 1
unfolding digit_value
digit_one = refl

strtoll-horner_example : strtoll hex 16 ≡ ok (true, 47, 3)
strtoll-horner_example =
    strtoll-horner hex 16 (2 ∷ 15 ∷ []) (λ e. cc) (omega arith)
      (refl, digit_two, omega arith, (refl, digit_f, omega arith, tt)) refl
