-- ===== src/Base/Family.antt =====
-- Sums of numbers, and of what the members of a family weigh.
use Prim.Native.Nat.{ℕ, zero, suc, ◌+◌, ◌≤◌, ◌<◌}
use mathlib.Core.Path.{◌≡◌, refl}
use mathlib.Core.Logic.{◌≢◌, ◌⊎◌, inl, inr}
use native.Mathlib.Omega.{arith}
use native.Mathlib.Decide.{ℕ_discrete, dec_lt}
use muxomucota.Base.Tests.{update}

-- The sum of the first `n` numbers of a sequence.
pub sum_to : (ℕ → ℕ) → ℕ → ℕ
sum_to v zero = 0
sum_to v (suc n) = v n + sum_to v n

sum_to_same : (v v' : ℕ → ℕ) (n : ℕ) → ((j : ℕ) → j < n → v j ≡ v' j) → sum_to v n ≡ sum_to v' n
unfolding sum_to
sum_to_same v v' zero same = refl
sum_to_same v v' (suc n) same =
    omega (arith, same n (omega arith), sum_to_same v v' n (λ j h. same j (omega arith)))

-- Two sequences that differ at one place: so do their sums.
sum_to_differ :
    (v v' : ℕ → ℕ) (k n : ℕ)
    → ((j : ℕ) → j ≢ k → v j ≡ v' j)
    → k < n
    → sum_to v n + v' k ≡ sum_to v' n + v k
unfolding sum_to
sum_to_differ v v' k zero same h = absurd (omega arith)
sum_to_differ v v' k (suc n) same h = elim (ℕ_discrete n k) [
  | yes here ↦
      let before = sum_to_same v v' n (λ j l. same j (λ e. omega arith)) in
      grind (arith, before, here)
  | no later ↦
      let at_n = same n later in omega (arith, at_n, sum_to_differ v v' k n same (omega arith))
]

sum_to_mono : (v v' : ℕ → ℕ) (n : ℕ) → ((j : ℕ) → v j ≤ v' j) → sum_to v n ≤ sum_to v' n
unfolding sum_to
sum_to_mono v v' zero below = omega arith
sum_to_mono v v' (suc n) below = omega (arith, below n, sum_to_mono v v' n below)

sum_to_const : (c n : ℕ) → c ≤ 1 → (sum_to (λ j. c) n ≤ n) × (c ≡ 0 → sum_to (λ j. c) n ≡ 0)
unfolding sum_to
sum_to_const c zero h = (omega arith, λ z. refl)
sum_to_const c (suc n) h =
    let (few, none) = sum_to_const c n h in (omega arith, λ z. omega (arith, none z))

nat_order : (k m : ℕ) → k ≢ m → (k < m) ⊎ (m < k)
nat_order k m ne = elim (dec_lt k m) [ yes l ↦ inl l | no g ↦ inr (omega arith) ]

-- A number of the sequence, and two of them.
sum_to_one : (v : ℕ → ℕ) (k n : ℕ) → k < n → v k ≤ sum_to v n
unfolding sum_to
sum_to_one v k zero h = absurd (omega arith)
sum_to_one v k (suc n) h = elim (ℕ_discrete k n) [
  | yes e ↦ grind (arith, e)
  | no ne ↦ omega (arith, sum_to_one v k n (omega arith))
]

sum_to_two : (v : ℕ → ℕ) (k m n : ℕ) → k < m → m < n → v k + v m ≤ sum_to v n
unfolding sum_to
sum_to_two v k m zero h l = absurd (omega arith)
sum_to_two v k m (suc n) h l = elim (ℕ_discrete m n) [
  | yes e ↦ grind (arith, e, sum_to_one v k n (omega arith))
  | no ne ↦ omega (arith, sum_to_two v k m n h (omega arith))
]

sum_to_add : (v v' : ℕ → ℕ) (n : ℕ) → sum_to (λ j. v j + v' j) n ≡ sum_to v n + sum_to v' n
unfolding sum_to
sum_to_add v v' zero = refl
sum_to_add v v' (suc n) = omega (arith, sum_to_add v v' n)

-- What the first `n` members of a family weigh together.
pub total {ℓ} : {A : Type ℓ} → (A → ℕ) → ℕ → (ℕ → A) → ℕ
total weight n members = sum_to (λ j. weight (members j)) n

module _ {ℓ} {A : Type ℓ} (weight : A → ℕ) (n : ℕ) (members : ℕ → A) where
  -- One member changes: the total changes by as much as its weight.
  pub total-update :
      (k : ℕ) (a : A)
      → k < n
      → total weight n (update members k a) + weight (members k) ≡ total weight n members + weight a
  unfolding total
  total-update k a h =
      let b =
        sum_to_differ (λ j. weight (update members k a j)) (λ j. weight (members j)) k n
          (λ j ne. ground (arith, ne)) h in
      ground (arith, b)

  pub total_bound : ((a : A) → weight a ≤ 1) → total weight n members ≤ n
  unfolding total
  total_bound light =
      let (few, none) = sum_to_const 1 n (omega arith) in
      omega (arith, few, sum_to_mono (λ j. weight (members j)) (λ j. 1) n (λ j. light (members j)))

  pub total_zero : ((k : ℕ) → weight (members k) ≡ 0) → total weight n members ≡ 0
  unfolding total
  total_zero none =
      let (few, nothing) = sum_to_const 0 n (omega arith) in
      omega (
        arith,
        nothing refl,
        sum_to_mono (λ j. weight (members j)) (λ j. 0) n (λ j. omega (arith, none j)),
      )

  pub le-total : (k : ℕ) → k < n → weight (members k) ≤ total weight n members
  unfolding total
  le-total k h = sum_to_one (λ j. weight (members j)) k n h

  -- Two members together weigh no more than all.
  pub le-total_two :
      (k m : ℕ)
      → k < n
      → m < n
      → k ≢ m
      → weight (members k) + weight (members m) ≤ total weight n members
  unfolding total
  le-total_two k m h l ne = elim (nat_order k m ne) [
    | inl below ↦ sum_to_two (λ j. weight (members j)) k m n below l
    | inr above ↦ omega (arith, sum_to_two (λ j. weight (members j)) m k n above h)
  ]

pub total-add {ℓ} :
    {A : Type ℓ} (v w : A → ℕ) (n : ℕ) (members : ℕ → A)
    → total (λ a. v a + w a) n members ≡ total v n members + total w n members
unfolding total
total-add v w n members = sum_to_add (λ j. v (members j)) (λ j. w (members j)) n
