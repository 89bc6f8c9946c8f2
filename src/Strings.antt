-- ===== src/Strings.antt =====
-- Strings and blocks of memory in the kernel, src/kernel/common/lib/string.c. Memory is a function
-- from addresses to bytes; no string or block reaches the end of the addresses.
pub mod Compare
pub mod Copy
pub mod Blocks
mod Tests
use muxomucota.Base.{ℕ, zero, suc, ◌+◌, ◌-◌, ◌%◌, ◌^◌, not, ◌==◌, if◌then◌else◌}
use muxomucota.Base.Outcome.{Outcome, ok, out_of_fuel}

-- `*p = c`
abbrev pub write : (ℕ → ℕ) → ℕ → ℕ → ℕ → ℕ
write m p c q = if p == q then c else m q

-- The difference of two bytes as an `int`, in its 32 bits.
abbrev pub difference : ℕ → ℕ → ℕ
difference a b = (a + 2 ^ 32 - b) % 2 ^ 32

-- `memset`, with `n` bytes to go
pub memset : (ℕ → ℕ) → ℕ → ℕ → ℕ → ℕ → ℕ
memset m d c zero = m
memset m d c (suc n) = memset (write m d (c % 256)) (suc d) c n

-- `memcpy`, with `n` bytes to go
pub memcpy : (ℕ → ℕ) → ℕ → ℕ → ℕ → ℕ → ℕ
memcpy m d s zero = m
memcpy m d s (suc n) = memcpy (write m d (m s)) (suc d) (suc s) n

-- `strncpy`, with `n` bytes to go
pub strncpy : (ℕ → ℕ) → ℕ → ℕ → ℕ → ℕ → ℕ
unfolding memset
strncpy m d s zero = m
strncpy m d s (suc n) =
    let more = strncpy (write m d (m s)) (suc d) (suc s) n in
    if m s == 0 then memset m d 0 (suc n) else more

-- The loop of `strlen` at the length `l`.
pub strlen_from : ℕ → (ℕ → ℕ) → ℕ → ℕ → Outcome ℕ
strlen_from zero m s l = out_of_fuel
strlen_from (suc fuel) m s l =
    let more = strlen_from fuel m s (suc l) in if m (s + l) == 0 then ok l else more

-- `strlen`
pub strlen : ℕ → (ℕ → ℕ) → ℕ → Outcome ℕ
unfolding strlen_from
strlen fuel m s = strlen_from fuel m s 0

-- `strcmp`
pub strcmp : ℕ → (ℕ → ℕ) → ℕ → ℕ → Outcome ℕ
strcmp zero m p q = out_of_fuel
strcmp (suc fuel) m p q =
    let ret = difference (m q) (m p) in
    let more = strcmp fuel m (suc p) (suc q) in
    if not (ret == 0) then ok ret else if m p == 0 then ok 0 else more

-- `strncmp`
pub strncmp : (ℕ → ℕ) → ℕ → ℕ → ℕ → ℕ
strncmp m p q zero = 0
strncmp m p q (suc n) =
    let more = strncmp m (suc p) (suc q) n in
    if not (m p == m q) then difference (m q) (m p) else if m q == 0 then 0 else more
