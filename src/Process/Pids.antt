-- ===== src/Process/Pids.antt =====
-- Process identifiers: `get_new_pid` and `relinquish_pid` of
-- src/kernel/common/tasking/management.c, on the words of `used_pids`.
use muxomucota.Base.{
  ℕ, suc, ◌+◌, ◌-◌, ◌*◌, ◌/◌, ◌%◌, ◌^◌, ◌≤◌, ◌<◌, ◌≡◌, Bool, true, false, not, List, [], ◌∷◌,
  get_or, set, get_or-set, set-set, set-get_or, length, All, arith, if◌then◌else◌, ◌==◌, refl, ap,
  ℕ_discrete, sym, dec_lt, zero, get_or_out, ◌∙◌,
}
use muxomucota.Base.Outcome.{Outcome, ok, panic, ◌>>=◌, ok-injective, >>=-eq-ok}
use muxomucota.Base.Bits.{
  test_bit, set_bit, clear_bit, free_bit, test_bit-set_bit, test_bit-clear_bit, clear_bit-set_bit,
  free_bit_lem,
}

-- LONG_BIT and ULONG_MAX
abbrev pub long_bit : ℕ
long_bit = 32

abbrev pub ulong_max : ℕ
ulong_max = 2 ^ 32 - 1

-- The loop of `get_new_pid` from the word `i` on, with no other processor about.
pub find_pid : ℕ → List ℕ → Outcome (ℕ × List ℕ)
find_pid i [] = panic
find_pid i (w ∷ ws) =
    let bit = free_bit w + 1 in
    let later = find_pid (suc i) ws in
    if not (w == ulong_max)
    then ok (i * long_bit + bit, set_bit w (bit - 1) ∷ ws)
    else later >>= λ r. ok (r.0, w ∷ r.1)

-- `get_new_pid`
unfoldable pub get_new_pid : List ℕ → Outcome (ℕ × List ℕ)
unfolding find_pid
get_new_pid used = find_pid 0 used

-- `relinquish_pid`
pub relinquish_pid : ℕ → List ℕ → List ℕ
relinquish_pid pid used =
    let i = (pid - 1) / long_bit in set used i (clear_bit (get_or used i 0) ((pid - 1) % long_bit))

-- Whether the bit of an identifier is set.
abbrev pub in_use : List ℕ → ℕ → Bool
in_use used pid = test_bit (get_or used ((pid - 1) / long_bit) 0) ((pid - 1) % long_bit)

-- What a found identifier is: the bit `bit` of the word `word` behind the word `i`, which was 0.
record Found (i : ℕ) (ws : List ℕ) (pid : ℕ) (ws' : List ℕ) : Type 0 where
  word : ℕ
  bit : ℕ
  name : pid ≡ (i + word) * 32 + bit + 1
  inside : word < length ws
  small : bit < 32
  was_clear : test_bit (get_or ws word 0) bit ≡ false
  marked : ws' ≡ set ws word (set_bit (get_or ws word 0) bit)

later_pid :
    (i w : ℕ) (ws : List ℕ) {r : ℕ × List ℕ}
    → w ≡ 2 ^ 32 - 1
    → find_pid i (w ∷ ws) ≡ ok r
    → (q : ℕ × List ℕ) × (find_pid (suc i) ws ≡ ok (q.0, q.1))
      × (◌≡◌ {A = ℕ × List ℕ} (q.0, w ∷ q.1) r)
unfolding find_pid
later_pid i w ws e h =
    let (q, g, same) = >>=-eq-ok (find_pid (suc i) ws) (λ q. ok (q.0, w ∷ q.1)) (ground arith) in
    (q, g, ok-injective same)

find_pid-Found :
    (i : ℕ) (ws : List ℕ) {pid : ℕ} {ws' : List ℕ}
    → All (λ w. w < 2 ^ 32) ws
    → find_pid i ws ≡ ok (pid, ws')
    → Found i ws pid ws'
unfolding find_pid
find_pid-Found i [] a h = absurd (ground arith)
find_pid-Found i (w ∷ ws) {pid} {ws'} a h = elim (ℕ_discrete w (2 ^ 32 - 1)) [
  | no ne ↦
      let z = free_bit_lem w a.0 ne in
      record {
        word = 0;
        bit = free_bit w;
        name = ground arith;
        inside = omega arith;
        small = z.0;
        was_clear = z.1;
        marked = ground arith;
      }
  | yes e ↦
      let (r, later, same) = later_pid i w ws e h in
      let f = find_pid-Found (suc i) ws a.1 later in
      record {
        word = suc f.word;
        bit = f.bit;
        name = omega (arith, f.name, ap (λ (r : ℕ × List ℕ). r.0) same);
        inside = omega (arith, f.inside);
        small = f.small;
        was_clear = f.was_clear;
        marked = sym (ap (λ (r : ℕ × List ℕ). r.1) same) ∙ ap (◌∷◌ w) f.marked;
      }
]

-- The bits of the words after a bit was set.
in_use-set :
    (ws : List ℕ) (word bit q : ℕ)
    → word < length ws
    → bit < 32
    → in_use (set ws word (set_bit (get_or ws word 0) bit)) (suc q)
      ≡ (if word * 32 + bit == q then true else in_use ws (suc q))
in_use-set ws word bit q inside small =
    let e : suc q - 1 ≡ q = omega arith in
    rw e (
      ground (
        arith,
        get_or-set ws word (q / 32) (set_bit (get_or ws word 0) bit) 0 inside,
        test_bit-set_bit bit (q % 32) (get_or ws word 0),
      ))

-- Clearing the bit again restores the words.
set-clear :
    (ws : List ℕ) (word bit : ℕ)
    → word < length ws
    → test_bit (get_or ws word 0) bit ≡ false
    → let ws' = set ws word (set_bit (get_or ws word 0) bit) in
      set ws' word (clear_bit (get_or ws' word 0) bit) ≡ ws
set-clear ws word bit inside clear =
    let v = get_or ws word 0 in
    let at : get_or (set ws word (set_bit v bit)) word 0 ≡ set_bit v bit =
      ground (arith, get_or-set ws word word (set_bit v bit) 0 inside) in
    rw (at, clear_bit-set_bit bit v clear)
      (set-set ws word (set_bit v bit) v ∙ set-get_or ws word v 0 refl inside)

test_bit_zero : (b : ℕ) → test_bit 0 b ≡ false
test_bit_zero zero = refl
test_bit_zero (suc b) = test_bit_zero b

set_out : (ws : List ℕ) (i v : ℕ) → length ws ≤ i → set ws i v ≡ ws
set_out [] i v h = refl
set_out (w ∷ ws) zero v h = absurd (omega arith)
set_out (w ∷ ws) (suc i) v h = ap (w ∷◌) (set_out ws i v (omega arith))

-- `relinquish_pid` clears the bit of an identifier and no other.
pub in_use-relinquish_pid :
    (used : List ℕ) (pid q : ℕ)
    → in_use (relinquish_pid pid used) q ≡ (if pid - 1 == q - 1 then false else in_use used q)
unfolding relinquish_pid
in_use-relinquish_pid used pid q =
    let i = (pid - 1) / 32 in
    let v = clear_bit (get_or used i 0) ((pid - 1) % 32) in
    elim (dec_lt i (length used)) [
      | yes inside ↦ ground (
        arith,
        get_or-set used i ((q - 1) / 32) v 0 inside,
        test_bit-clear_bit ((pid - 1) % 32) ((q - 1) % 32) (get_or used i 0),
      )
      | no outside ↦ ground (
        arith,
        set_out used i v (omega arith),
        get_or_out used i 0 (omega arith),
        test_bit_zero ((q - 1) % 32),
      )
    ]

-- `get_new_pid` returns an identifier that was not in use, from 1 to the number of bits there are,
-- and marks it and no other. `relinquish_pid` of it gives the words back as they were.
pub get_new_pid_lem :
    (used : List ℕ) {pid : ℕ} {used' : List ℕ}
    → All (λ w. w < 2 ^ 32) used
    → get_new_pid used ≡ ok (pid, used')
    → (1 ≤ pid)
      × (pid ≤ 32 * length used)
      × (in_use used pid ≡ false)
      × ((q : ℕ) → in_use used' (suc q) ≡ (if pid == suc q then true else in_use used (suc q)))
      × (relinquish_pid pid used' ≡ used)
unfolding get_new_pid relinquish_pid
get_new_pid_lem used {pid} {used'} a h =
    let f = find_pid-Found 0 used a h in
    let where_word : (pid - 1) / 32 ≡ f.word = omega (arith, f.name, f.small) in
    let where_bit : (pid - 1) % 32 ≡ f.bit = omega (arith, f.name, f.small) in
    (
      omega (arith, f.name),
      omega (arith, f.name, f.inside, f.small),
      rw (where_word, where_bit) f.was_clear,
      λ q. ground (arith, f.marked, f.name, in_use-set used f.word f.bit q f.inside f.small),
      rw (where_word, where_bit, f.marked) (set-clear used f.word f.bit f.inside f.was_clear),
    )
