-- ===== src/Strings/Blocks.antt =====
-- Blocks of memory in user processes, memmove.c, memchr.c, memrchr.c, memcmp.c and strnlen.c of
-- src/lib/common/string.
use muxomucota.Base.{
  ℕ, zero, suc, ◌+◌, ◌-◌, ◌%◌, ◌≤◌, ◌≡◌, ◌||◌, ◌&&◌, Option, none, some, leb, ltb, ◌==◌,
  if◌then◌else◌, arith, ◌⊎◌, inl, inr, Bool-cases,
}
use muxomucota.Strings.{write, difference, memcpy}
use muxomucota.Strings.Copy.{memcpy_lem}

-- The loop of `memmove` from the end to the start, with `n` bytes to go.
pub move_down : (ℕ → ℕ) → ℕ → ℕ → ℕ → ℕ → ℕ
move_down m d s zero = m
move_down m d s (suc n) = move_down (write m (d + n) (m (s + n))) d s n

-- `memmove`, whose other loop is that of `memcpy`
pub memmove : (ℕ → ℕ) → ℕ → ℕ → ℕ → ℕ → ℕ
unfolding move_down
memmove m d s n = if ltb d s || leb (s + n) d then memcpy m d s n else move_down m d s n

-- `memchr`: the address of the first byte that is `c`
unfoldable pub memchr : (ℕ → ℕ) → ℕ → ℕ → ℕ → Option ℕ
memchr m s c zero = none
memchr m s c (suc n) = let more = memchr m (suc s) c n in if m s == c % 256 then some s else more

-- `memrchr`: the address of the last byte that is `c`
unfoldable pub memrchr : (ℕ → ℕ) → ℕ → ℕ → ℕ → Option ℕ
memrchr m s c zero = none
memrchr m s c (suc n) =
    let more = memrchr m s c n in if m (s + n) == c % 256 then some (s + n) else more

-- `memcmp`: like that of `strcmp`, the result has the reverse of the usual sign.
unfoldable pub memcmp : (ℕ → ℕ) → ℕ → ℕ → ℕ → ℕ
memcmp m p q zero = 0
memcmp m p q (suc n) =
    let ret = difference (m q) (m p) in
    let more = memcmp m (suc p) (suc q) n in if ret == 0 then more else ret

-- The loop of `strnlen` at the length `l`, with `n` bytes to go.
pub strnlen_from : (ℕ → ℕ) → ℕ → ℕ → ℕ → ℕ
strnlen_from m s l zero = l
strnlen_from m s l (suc n) =
    let more = strnlen_from m s (suc l) n in if m (s + l) == 0 then l else more

-- `strnlen`
unfoldable pub strnlen : (ℕ → ℕ) → ℕ → ℕ → ℕ
unfolding strnlen_from
strnlen m s n = strnlen_from m s 0 n

move_down_lem :
    (m : ℕ → ℕ) (d s n x : ℕ)
    → s ≤ d
    → move_down m d s n x ≡ (if leb d x && ltb x (d + n) then m (s + (x - d)) else m x)
unfolding move_down
move_down_lem m d s zero x h = ground arith
move_down_lem m d s (suc n) x h =
    let rest = move_down_lem (write m (d + n) (m (s + n))) d s n x h in
    let at : x ≡ d + n → s + (x - d) ≡ s + n = λ e. omega arith in ground (arith, rest, at)

-- Whichever way the blocks overlap, `memmove` makes the `n` bytes from `d` on those that the source
-- held before, and changes no other byte.
pub memmove_lem :
    (m : ℕ → ℕ) (d s n x : ℕ)
    → memmove m d s n x ≡ (if leb d x && ltb x (d + n) then m (s + (x - d)) else m x)
unfolding memmove
memmove_lem m d s n x = elim (Bool-cases (ltb d s || leb (s + n) d)) [
  | inl up ↦ let apart : (d ≤ s) ⊎ (s + n ≤ d) = ground arith in rw up (memcpy_lem m d s n x apart)
  | inr down ↦ let below : s ≤ d = ground arith in rw down (move_down_lem m d s n x below)
]
