-- ===== src/Base/Bits.antt =====
-- The bits of a machine word, as numbers.
use muxomucota.Base.Tests.{◌==◌, if◌then◌else◌}
use Prim.Native.Nat.{ℕ, zero, suc, ◌+◌, ◌-◌, ◌*◌, ◌/◌, ◌%◌, ◌^◌, ◌≤◌, ◌<◌}
use mathlib.Core.Path.{◌≡◌}
use mathlib.Core.Logic.{◌≢◌}
use mathlib.Core.Bool.{Bool, true, false}
use native.Mathlib.Nat.{pow-suc}
use native.Mathlib.Decide.{ℕ_discrete}
use native.Mathlib.Omega.{arith}

-- `w & (1 << b)`, as a Boolean
abbrev pub test_bit : ℕ → ℕ → Bool
test_bit w zero = w % 2 == 1
test_bit w (suc b) = test_bit (w / 2) b

-- `w | (1 << b)`
abbrev pub set_bit : ℕ → ℕ → ℕ
set_bit w zero = w / 2 * 2 + 1
set_bit w (suc b) = set_bit (w / 2) b * 2 + w % 2

-- `w & ~(1 << b)`
abbrev pub clear_bit : ℕ → ℕ → ℕ
clear_bit w zero = w / 2 * 2
clear_bit w (suc b) = clear_bit (w / 2) b * 2 + w % 2

-- `ffsl(~w) - 1`, where a bit of the `n` lowest is 0
abbrev pub lowest_zero : ℕ → ℕ → ℕ
lowest_zero zero w = zero
lowest_zero (suc n) w = if w % 2 == 0 then 0 else suc (lowest_zero n (w / 2))

pub test_bit-set_bit :
    (b c w : ℕ) → test_bit (set_bit w b) c ≡ (if b == c then true else test_bit w c)
test_bit-set_bit zero zero w = ground arith
test_bit-set_bit zero (suc c) w =
    let e : (w / 2 * 2 + 1) / 2 ≡ w / 2 = omega arith in rw e (ground arith)
test_bit-set_bit (suc b) zero w = ground arith
test_bit-set_bit (suc b) (suc c) w = rw half (ground (arith, test_bit-set_bit b c (w / 2)))
  where
    half : (set_bit (w / 2) b * 2 + w % 2) / 2 ≡ set_bit (w / 2) b
    half = omega arith

pub clear_bit-set_bit : (b w : ℕ) → test_bit w b ≡ false → clear_bit (set_bit w b) b ≡ w
clear_bit-set_bit zero w h = ground arith
clear_bit-set_bit (suc b) w h = rw half (omega (arith, clear_bit-set_bit b (w / 2) h))
  where
    half : (set_bit (w / 2) b * 2 + w % 2) / 2 ≡ set_bit (w / 2) b
    half = omega arith

lower_ones :
    (w z : ℕ)
    → w % 2 ≢ 0
    → ((c : ℕ) → c < z → test_bit (w / 2) c ≡ true)
    → (c : ℕ) → c < (if w % 2 == 0 then 0 else suc z)
    → test_bit w c ≡ true
lower_ones w z odd ones zero h = ground arith
lower_ones w z odd ones (suc c) h = ones c (ground arith)

-- A word that is not all ones has a zero bit, which `lowest_zero` finds; all below are ones.
pub lowest_zero_lem :
    (n w : ℕ)
    → w < 2 ^ n
    → w + 1 ≢ 2 ^ n
    → (lowest_zero n w < n)
      × (test_bit w (lowest_zero n w) ≡ false)
      × ((c : ℕ) → c < lowest_zero n w → test_bit w c ≡ true)
lowest_zero_lem zero w h ne = absurd (ne (omega arith))
lowest_zero_lem (suc n) w h ne = elim (ℕ_discrete (w % 2) 0) [
  | yes e ↦ (ground arith, ground arith, λ c hc. absurd (ground arith))
  | no odd ↦
      let (lt, clear, ones) =
        lowest_zero_lem n (w / 2) (omega (arith, pow-suc 2 n))
          (λ q. ne (omega (arith, pow-suc 2 n))) in
      (ground arith, ground arith, lower_ones w (lowest_zero n (w / 2)) odd ones)
]

pub set_bit-lt : (n b w : ℕ) → b < n → w < 2 ^ n → set_bit w b < 2 ^ n
set_bit-lt zero b w hb h = absurd (omega arith)
set_bit-lt (suc n) zero w hb h = omega (arith, pow-suc 2 n)
set_bit-lt (suc n) (suc b) w hb h = omega (
  arith,
  pow-suc 2 n,
  set_bit-lt n b (w / 2) (omega (arith, pow-suc 2 n)) (omega (arith, pow-suc 2 n)),
)

pub clear_bit-lt : (b w : ℕ) → clear_bit w b ≤ w
clear_bit-lt zero w = omega arith
clear_bit-lt (suc b) w = omega (arith, clear_bit-lt b (w / 2))

pub test_bit-clear_bit :
    (b c w : ℕ) → test_bit (clear_bit w b) c ≡ (if b == c then false else test_bit w c)
test_bit-clear_bit zero zero w = ground arith
test_bit-clear_bit zero (suc c) w =
    let e : w / 2 * 2 / 2 ≡ w / 2 = omega arith in rw e (ground arith)
test_bit-clear_bit (suc b) zero w = ground arith
test_bit-clear_bit (suc b) (suc c) w = rw half (ground (arith, test_bit-clear_bit b c (w / 2)))
  where
    half : (clear_bit (w / 2) b * 2 + w % 2) / 2 ≡ clear_bit (w / 2) b
    half = omega arith

-- `ffsl(~w) - 1` for a word of 32 bits that is not all ones.
unfoldable pub free_bit : ℕ → ℕ
free_bit w = lowest_zero 32 w

pub free_bit_lem :
    (w : ℕ)
    → w < 2 ^ 32
    → w ≢ 2 ^ 32 - 1
    → (free_bit w < 32)
      × (test_bit w (free_bit w) ≡ false)
      × ((c : ℕ) → c < free_bit w → test_bit w c ≡ true)
unfolding free_bit
free_bit_lem w h ne = lowest_zero_lem 32 w h (λ e. ne (omega arith))
