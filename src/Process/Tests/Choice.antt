-- ===== src/Process/Tests/Choice.antt =====
-- Runs of `schedule`, and its theorems, at the kernel of the other tests.
use muxomucota.Base.{
  ℕ, ◌≤◌, ◌<◌, ◌≡◌, true, false, ◌==◌, List, [], ◌∷◌, All, arith, if◌then◌else◌, refl, ◌⊎◌, inl,
  inr, subst, sym,
}
use muxomucota.Base.Outcome.{ok}
use muxomucota.Process.{Kernel}
use muxomucota.Process.Scheduler.{
  stack_is_sound, consider, survey, decide, begin_tick, choose, schedule,
}
use muxomucota.Process.Scheduler.Survey.{In, Active, wait_of, is_irq, is_target}
use muxomucota.Process.Scheduler.Fair.{Ready, schedule_returns, schedule_no_starvation}
use muxomucota.Process.Tests.{plain, irq_waiter, early, late, interrupted, queued, queued-Holds}

-- What holds of the elements one by one holds of each.
in_all : (P : ℕ → Type 0) (xs : List ℕ) → All P xs → (y : ℕ) → In y xs → P y
in_all P [] a y i = elim i [ ]
in_all P (x ∷ xs) a y (inl e) = subst P (sym e) a.0
in_all P (x ∷ xs) a y (inr i) = in_all P xs a.1 y i

early-Ready : Ready 4 queued early
early-Ready = record {
  unlocked = refl;
  running = λ z. cc;
  holds = queued-Holds (plain 30 10 0 0 90) 100 refl;
  enough = omega arith;
}

late-Ready : Ready 4 queued late
late-Ready = record {
  unlocked = refl;
  running = λ z. cc;
  holds = queued-Holds (plain 30 10 0 0 90) 200 refl;
  enough = omega arith;
}

interrupted-Ready : Ready 4 queued interrupted
interrupted-Ready = record {
  unlocked = refl;
  running = λ z. cc;
  holds = queued-Holds irq_waiter 100 refl;
  enough = omega arith;
}

early-schedule : schedule 4 30 early ≡ ok (3, record (begin_tick early) { current_process = 3 })
unfolding schedule choose begin_tick survey consider decide
early-schedule = refl

-- The process 2 has waited for 121 ticks, so the wish for process 3 is not granted.
late-schedule : schedule 4 30 late ≡ ok (2, record (begin_tick late) { current_process = 2 })
unfolding schedule choose begin_tick survey consider decide
late-schedule = refl

abbrev after_irq : Kernel
after_irq = record (begin_tick interrupted) {
  current_process = 3;
  proc = λ n.
      if 3 == n then record irq_waiter { fresh_irq = false } else (begin_tick interrupted).proc n;
}

interrupted-schedule : schedule 4 20 interrupted ≡ ok (3, after_irq)
unfolding schedule choose begin_tick survey consider decide
interrupted-schedule = refl

sound : All (λ x. stack_is_sound ((begin_tick early).proc x) ≡ true) queued
unfolding begin_tick
sound = (refl, (refl, (refl, tt)))

quiet_early : All (λ y. is_irq (begin_tick early) y ≡ false) queued
unfolding begin_tick
quiet_early = (refl, (refl, (refl, tt)))

quiet_late : All (λ y. is_irq (begin_tick late) y ≡ false) queued
unfolding begin_tick
quiet_late = (refl, (refl, (refl, tt)))

soon : All (λ y. Active (begin_tick early) y → wait_of (begin_tick early) y < 42) queued
unfolding begin_tick
soon = ((λ a. omega arith), ((λ a. omega arith), ((λ a. omega arith), tt)))

third_is_target : is_target (begin_tick early) 30 3 ≡ true
unfolding begin_tick
third_is_target = refl

third_waits : 0 < wait_of (begin_tick early) 3
unfolding begin_tick
third_waits = omega arith

irq_at_three : is_irq (begin_tick interrupted) 3 ≡ true
unfolding begin_tick
irq_at_three = refl

irq_waits : 0 < wait_of (begin_tick interrupted) 3
unfolding begin_tick
irq_waits = omega arith

second-Active : Active (begin_tick late) 2
unfolding begin_tick
second-Active = refl

second_waits : 42 ≤ wait_of (begin_tick late) 2
unfolding begin_tick
second_waits = omega arith

schedule_returns_example :
    (p : ℕ) × (k' : Kernel) × (schedule 4 30 early ≡ ok (p, k'))
    × (In p queued × Active (begin_tick early) p
        ⊎ (p ≡ early.idle_process)
          × ((x : ℕ)
              → In x queued
              → Active (begin_tick early) x
              → wait_of (begin_tick early) x ≡ 0))
schedule_returns_example =
    schedule_returns 4 30 queued early early-Ready
      (in_all (λ x. stack_is_sound ((begin_tick early).proc x) ≡ true) queued sound)

schedule_no_starvation_example :
    In 2 queued
    × Active (begin_tick late) 2
    × ((y : ℕ)
        → In y queued
        → Active (begin_tick late) y
        → wait_of (begin_tick late) y ≤ wait_of (begin_tick late) 2)
schedule_no_starvation_example =
    schedule_no_starvation 4 30 queued late late-Ready 2
      (in_all (λ y. is_irq (begin_tick late) y ≡ false) queued quiet_late) (inr (inl refl))
      second-Active second_waits late-schedule
