-- ===== src/Strings/Tests.antt =====
-- The theorems on strings and blocks at a concrete memory.
use muxomucota.Base.{ℕ, ◌≡◌, some, [], ◌∷◌, arith, refl, get_or}
use muxomucota.Base.Outcome.{ok}
use muxomucota.Strings.{strcmp}
use muxomucota.Strings.Compare.{StringAt}
use muxomucota.Strings.Blocks.{memchr, memrchr, memcmp, strnlen}

-- "ab" at 0, "ac" at 3
abbrev memory : ℕ → ℕ
memory a = get_or (97 ∷ 98 ∷ 0 ∷ 97 ∷ 99 ∷ 0 ∷ []) a 0

ab-StringAt : StringAt memory 0 (97 ∷ 98 ∷ [])
ab-StringAt = (refl, (omega arith), (omega arith), (refl, (omega arith), (omega arith), refl))

ac-StringAt : StringAt memory 3 (97 ∷ 99 ∷ [])
ac-StringAt = (refl, (omega arith), (omega arith), (refl, (omega arith), (omega arith), refl))

-- The first string is less, and the result is positive.
strcmp-run : strcmp 3 memory 0 3 ≡ ok 1
unfolding strcmp
strcmp-run = refl

memchr-memory : (memchr memory 0 97 6 ≡ some 0) × (memrchr memory 0 97 6 ≡ some 3)
unfolding memchr memrchr
memchr-memory = (refl, refl)

memcmp-memory : (memcmp memory 0 3 3 ≡ 1) × (strnlen memory 0 2 ≡ 2)
unfolding memcmp strnlen
memcmp-memory = (refl, refl)
