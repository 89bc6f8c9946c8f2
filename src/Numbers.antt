-- ===== src/Numbers.antt =====
-- Numbers read from text, src/lib/common/stdlib/strtol.c. A text is a function from positions to
-- characters.
pub mod Value
pub mod Decimal
mod Tests
use muxomucota.Base.{
  ℕ, zero, suc, ◌+◌, ◌-◌, ◌*◌, ◌%◌, ◌^◌, Bool, true, false, not, ◌&&◌, ◌||◌, List, [], ◌∷◌, length,
  ◌==◌, ltb, leb, if◌then◌else◌,
}
use muxomucota.Base.Outcome.{Outcome, ok, fault, ◌>>=◌}

abbrev pub is_digit : ℕ → Bool
is_digit c = leb b'0' c && leb c b'9'

abbrev pub is_lower : ℕ → Bool
is_lower c = leb b'a' c && leb c b'z'

abbrev pub is_upper : ℕ → Bool
is_upper c = leb b'A' c && leb c b'Z'

abbrev pub is_alnum : ℕ → Bool
is_alnum c = is_digit c || (is_lower c || is_upper c)

-- The value of a digit or letter.
pub digit_value : ℕ → ℕ
digit_value c = if is_digit c then c - b'0' else if is_lower c then c + 10 - b'a' else c + 10 - b'A'

-- The loop that fills `digit`, at the position `pos`, with `room` places left in the array: the
-- digits, and where they end. The eleventh digit or letter is written behind the array.
pub digits_from : ℕ → (ℕ → ℕ) → ℕ → ℕ → Outcome (List ℕ × ℕ)
unfolding digit_value
digits_from zero s base pos = if is_alnum (s pos) then fault else ok ([], pos)
digits_from (suc room) s base pos =
    let d = digit_value (s pos) in
    let more = digits_from room s base (suc pos) >>= λ r. ok (d ∷ r.0, r.1) in
    if not (is_alnum (s pos)) then ok ([], pos) else if leb base d then ok ([], pos) else more

-- `__stdlib_pow`
pub stdlib_pow : ℕ → ℕ → ℕ
stdlib_pow base zero = 1
stdlib_pow base (suc exp) = stdlib_pow base exp * base

-- The loop that adds the digits up.
pub add_digits : ℕ → List ℕ → ℕ
unfolding stdlib_pow
add_digits base [] = 0
add_digits base (d ∷ ds) = stdlib_pow base (length ds) * d + add_digits base ds

-- What `strtoll` makes of the digits in the given base from `pos` on. The search for the end of ten
-- digits reads behind the array.
pub read_digits : (ℕ → ℕ) → ℕ → Bool → ℕ → Outcome (Bool × ℕ × ℕ)
unfolding digits_from add_digits
read_digits s base sign pos = digits_from 10 s base pos >>= λ r.
    if length r.0 == 10 then fault else ok (sign, add_digits base r.0 % 2 ^ 64, r.1)

-- `strtoll`: whether the number is negative, its amount in 64 bits, and where it ends.
pub strtoll : (ℕ → ℕ) → ℕ → Outcome (Bool × ℕ × ℕ)
unfolding read_digits
strtoll s base =
    let sign = s 0 == b'-' in
    let pos = if s 0 == b'+' || sign then 1 else 0 in
    if not (base == 0)
    then read_digits s base sign pos
    else if s pos == b'0' && (s (pos + 1) == b'x' || s (pos + 1) == b'X')
    then read_digits s 16 sign (pos + 2)
    else if s pos == b'0'
    then read_digits s 8 sign (pos + 1)
    else if is_digit (s pos)
    then read_digits s 10 sign pos
    else ok (false, 0, 0)

-- `strtol`: whether ERANGE is set, whether the number is negative, and its amount.
pub strtol : (ℕ → ℕ) → ℕ → Outcome (Bool × Bool × ℕ)
unfolding strtoll
strtol s base = strtoll s base >>= λ r.
    if r.0 && ltb (2 ^ 31) r.1
    then ok (true, true, 2 ^ 31)
    else if not r.0 && ltb (2 ^ 31 - 1) r.1
    then ok (true, false, 2 ^ 31 - 1)
    else ok (false, r.0, r.1)

-- `strtoul`: whether ERANGE is set, and the number.
pub strtoul : (ℕ → ℕ) → ℕ → Outcome (Bool × ℕ)
unfolding strtoll
strtoul s base = strtoll s base >>= λ r.
    if r.0 && not (r.1 == 0)
    then ok (true, 0)
    else if ltb (2 ^ 32 - 1) r.1
    then ok (true, 2 ^ 32 - 1)
    else ok (false, r.1)
