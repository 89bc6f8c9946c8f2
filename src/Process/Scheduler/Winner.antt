-- ===== src/Process/Scheduler/Winner.antt =====
-- What follows from the choice of the loop of `schedule`, and what precedes the loop.
use mathlib.Core.Path.{fun_ext}
use muxomucota.Base.{
  ℕ, ◌≤◌, ◌<◌, ◌≡◌, ◌≢◌, true, false, ◌&&◌, not, ◌==◌, ltb, if◌then◌else◌, List, [], ◌∷◌, arith,
  refl, inl, inr, ◌⊎◌, ℕ_discrete, dec_lt,
}
use muxomucota.Base.Outcome.{ok}
use muxomucota.Process.{Kernel, runqueue, update}
use muxomucota.Process.Scheduler.{Choice, decide, begin_tick, stack_is_sound}
use muxomucota.Process.Scheduler.Survey.{In}
use muxomucota.Process.Lists.Chain.{Chain, links}

pub links-begin_tick : (k : Kernel) → links (begin_tick k) runqueue ≡ links k runqueue
unfolding begin_tick
links-begin_tick k = fun_ext (λ x. ground arith)

pub In-ne-zero : (f : ℕ → ℕ) (q : ℕ) (xs : List ℕ) (x : ℕ) → Chain f q xs → In x xs → x ≢ 0
In-ne-zero f q [] x c h = elim h [ ]
In-ne-zero f q (y ∷ ys) x c (inl e) = rw e c.1
In-ne-zero f q (y ∷ ys) x c (inr h) = In-ne-zero f (f y) ys x c.2 h

pub head-begin_tick : (k : Kernel) → (begin_tick k).head ≡ k.head
unfolding begin_tick
head-begin_tick k = refl

pub Chain-ne-zero : (f : ℕ → ℕ) (q : ℕ) (xs : List ℕ) (x : ℕ) → Chain f q xs → In x xs → q ≢ 0
Chain-ne-zero f q [] x c h = elim h [ ]
Chain-ne-zero f q (y ∷ ys) x c h = rw c.0 c.1

pub current-ne-zero :
    (k : Kernel) → k.current_process ≢ 0 → k.head runqueue ≢ 0 → (begin_tick k).current_process ≢ 0
unfolding begin_tick
current-ne-zero k c h = ground arith

pub idle-begin_tick : (k : Kernel) → (begin_tick k).idle_process ≡ k.idle_process
unfolding begin_tick
idle-begin_tick k = refl

-- The process that `decide` returns if some process waits.
abbrev pub winner : Choice → ℕ
winner c =
    if c.irq_process == 0
    then if not (c.switch_target == 0) && ltb c.max_sched_diff 42 then c.switch_target else c.eldest
    else c.irq_process

pub winner_cases :
    (c : Choice)
    → (c.irq_process ≢ 0) × (winner c ≡ c.irq_process)
      ⊎ ((c.irq_process ≡ 0)
            × (c.switch_target ≢ 0)
            × (c.max_sched_diff < 42)
            × (winner c ≡ c.switch_target)
          ⊎ (c.irq_process ≡ 0)
            × ((c.switch_target ≡ 0) ⊎ (42 ≤ c.max_sched_diff))
            × (winner c ≡ c.eldest))
winner_cases c = elim (ℕ_discrete c.irq_process 0) [
  | no n ↦ inl (n, ground arith)
  | yes e ↦ elim (ℕ_discrete c.switch_target 0) [
    | yes z ↦ inr (inr (e, inl z, ground arith))
    | no n ↦ elim (dec_lt c.max_sched_diff 42) [
      | yes l ↦ inr (inl (e, n, l, ground arith))
      | no g ↦ inr (inr (e, inr (omega arith), ground arith))
    ]
  ]
]

pub decide_none :
    (k : Kernel) (c : Choice)
    → c.eldest ≡ 0
    → decide k c ≡ ok (k.idle_process, record k { current_process = k.idle_process })
unfolding decide
decide_none k c e = ground arith

pub decide_some :
    (k : Kernel) (c : Choice)
    → c.eldest ≢ 0
    → stack_is_sound (k.proc (winner c)) ≡ true
    → (k' : Kernel) × (decide k c ≡ ok (winner c, k'))
unfolding decide
decide_some k c ne sound = elim (ℕ_discrete c.irq_process 0) [
  | yes e ↦ (record k { current_process = winner c }, ground arith)
  | no n ↦ (
    record k {
      current_process = winner c;
      proc = update k.proc c.irq_process (record (k.proc c.irq_process) { fresh_irq = false });
    },
    ground arith,
  )
]

pub decide-eq-ok :
    (k : Kernel) (c : Choice) {p : ℕ} {k' : Kernel}
    → c.eldest ≢ 0
    → decide k c ≡ ok (p, k')
    → (p ≡ winner c)
      × (k'.current_process ≡ p)
      × (c.irq_process ≢ 0 → (k'.proc p).fresh_irq ≡ false)
unfolding decide
decide-eq-ok k c ne h = (ground arith, ground arith, ground arith)
