-- ===== src/Process/Scheduler/Fair.antt =====
-- Which process `schedule` chooses.
use mathlib.Core.Bool.{false≢true}
use muxomucota.Base.{
  ℕ, ◌≤◌, ◌<◌, ◌≡◌, ◌≢◌, true, false, ◌==◌, if◌then◌else◌, List, length, arith, refl, inl, inr, ◌⊎◌,
  ℕ_discrete, ◌∙◌, sym,
}
use muxomucota.Base.Outcome.{ok}
use muxomucota.Process.{Kernel, runqueue}
use muxomucota.Process.Scheduler.{
  Choice, nothing, survey, decide, begin_tick, choose, schedule, stack_is_sound,
}
use muxomucota.Process.Scheduler.Survey.{
  In, consider_all, survey-Chain, Active, wait_of, Longest, consider_all-Longest,
  consider_all_sound, consider_all_complete, is_target, is_irq, consider-switch_target,
  consider-irq_process,
}
use muxomucota.Process.Lists.Chain.{Holds, links}
use muxomucota.Process.Scheduler.Winner.{
  links-begin_tick, In-ne-zero, head-begin_tick, Chain-ne-zero, current-ne-zero, idle-begin_tick,
  winner, winner_cases, decide_none, decide_some, decide-eq-ok,
}

-- A call of `schedule` with the lock free, some process current, and the run queue `xs`.
pub record Ready (fuel : ℕ) (xs : List ℕ) (k : Kernel) : Type 0 where
  pub unlocked : k.schedule_lock ≡ 0
  pub running : k.current_process ≢ 0
  pub holds : Holds k runqueue xs
  pub enough : length xs < fuel

module _ (fuel switch_to : ℕ) (xs : List ℕ) (k : Kernel) (r : Ready fuel xs k) where
  abbrev picked : Choice
  picked = consider_all (begin_tick k) switch_to nothing xs

  surveyed : survey fuel (begin_tick k) switch_to ((begin_tick k).head runqueue) nothing ≡ ok picked
  surveyed =
      survey-Chain fuel (begin_tick k) switch_to ((begin_tick k).head runqueue) nothing xs r.enough
        (rw (links-begin_tick k, head-begin_tick k) r.holds)

  schedule_eq : schedule fuel switch_to k ≡ (
      if (begin_tick k).current_process == 0
      then ok ((begin_tick k).idle_process, begin_tick k)
      else decide (begin_tick k) picked)
  unfolding schedule choose
  schedule_eq = ground (arith, r.unlocked, r.running, surveyed)

  longest : Longest (begin_tick k) switch_to xs nothing picked
  longest = consider_all-Longest (begin_tick k) switch_to xs nothing

  -- The process that waited longest is one of the run queue, unless no active one waited at all.
  eldest_cases :
      (picked.eldest ≡ 0) × (picked.max_sched_diff ≡ 0)
      ⊎ In picked.eldest xs
        × Active (begin_tick k) picked.eldest
        × (wait_of (begin_tick k) picked.eldest ≡ picked.max_sched_diff)
        × (picked.eldest ≢ 0)
  eldest_cases = elim longest.reached [
    | inl e ↦ inl e
    | inr (i, a, w, p) ↦
        inr (i, a, w, In-ne-zero (links k runqueue) (k.head runqueue) xs picked.eldest r.holds i)
  ]

  target_cases :
      (picked.switch_target ≡ 0)
      ⊎ In picked.switch_target xs
        × (is_target (begin_tick k) switch_to picked.switch_target ≡ true)
  target_cases =
      consider_all_sound (begin_tick k) switch_to (λ c. c.switch_target)
        (is_target (begin_tick k) switch_to) (consider-switch_target (begin_tick k) switch_to) xs
        nothing

  irq_cases :
      (picked.irq_process ≡ 0)
      ⊎ In picked.irq_process xs × (is_irq (begin_tick k) picked.irq_process ≡ true)
  irq_cases =
      consider_all_sound (begin_tick k) switch_to (λ c. c.irq_process) (is_irq (begin_tick k))
        (consider-irq_process (begin_tick k) switch_to) xs nothing

  -- A process that is not null and waits keeps the loop's choice from being empty.
  eldest-ne-zero :
      (x : ℕ)
      → In x xs
      → Active (begin_tick k) x
      → 0 < wait_of (begin_tick k) x
      → (picked.eldest ≢ 0) × ((begin_tick k).current_process ≢ 0)
  eldest-ne-zero x i a w = (
    λ e. elim eldest_cases [
      | inl none_waits ↦ absurd (omega (arith, none_waits.1, longest.bounds x i a))
      | inr some_waits ↦ some_waits.3 e
    ],
    current-ne-zero k r.running (Chain-ne-zero (links k runqueue) (k.head runqueue) xs x r.holds i),
  )

  some_current : picked.eldest ≢ 0 → (begin_tick k).current_process ≢ 0
  some_current ne = elim eldest_cases [
    | inl none_waits ↦ absurd (ne none_waits.0)
    | inr some_waits ↦
        current-ne-zero k r.running
          (Chain-ne-zero (links k runqueue) (k.head runqueue) xs picked.eldest r.holds some_waits.0)
  ]

  winner-In : picked.eldest ≢ 0 → In (winner picked) xs × Active (begin_tick k) (winner picked)
  winner-In ne = elim (winner_cases picked) [
    | inl (n, e) ↦ elim irq_cases [ inl z ↦ absurd (n z) | inr (i, t) ↦ rw e (i, ground arith) ]
    | inr (inl (_, n, _, e)) ↦ elim target_cases [
      | inl z ↦ absurd (n z)
      | inr (i, t) ↦ rw e (i, ground arith)
    ]
    | inr (inr (_, _, e)) ↦ elim eldest_cases [
      | inl z ↦ absurd (ne z.0)
      | inr (i, a, _, _) ↦ rw e (i, a)
    ]
  ]

  -- With nothing to run, the idle process is returned.
  schedule_idle :
      picked.eldest ≡ 0 → (k' : Kernel) × (schedule fuel switch_to k ≡ ok (k.idle_process, k'))
  schedule_idle e = elim (ℕ_discrete (begin_tick k).current_process 0) [
    | yes z ↦ (begin_tick k, ground (arith, schedule_eq, idle-begin_tick k))
    | no n ↦ (
      record (begin_tick k) { current_process = (begin_tick k).idle_process },
      ground (arith, schedule_eq, idle-begin_tick k, decide_none (begin_tick k) picked e),
    )
  ]

  -- When the scheduler's lock is free, some process is the current one, and the run queue is a list
  -- of fewer processes than there is fuel, for each of which the assertion on the stack holds,
  -- `schedule` returns a process of the run queue that is active, or the idle process, and that only
  -- if no active process of the run queue has waited.
  pub schedule_returns :
      ((x : ℕ) → In x xs → stack_is_sound ((begin_tick k).proc x) ≡ true)
      → (p : ℕ) × (k' : Kernel) × (schedule fuel switch_to k ≡ ok (p, k'))
        × (In p xs × Active (begin_tick k) p
            ⊎ (p ≡ k.idle_process)
              × ((x : ℕ) → In x xs → Active (begin_tick k) x → wait_of (begin_tick k) x ≡ 0))
  schedule_returns sound = elim (ℕ_discrete picked.eldest 0) [
    | yes e ↦
        let (k', d) = schedule_idle e in
        (
          k.idle_process,
          k',
          d,
          inr (
            refl,
            λ x i a. elim eldest_cases [
              | inl z ↦ omega (arith, z.1, longest.bounds x i a)
              | inr n ↦ absurd (n.3 e)
            ],
          ),
        )
    | no ne ↦
        let i = winner-In ne in
        let (k', d) = decide_some (begin_tick k) picked ne (sound (winner picked) i.0) in
        (winner picked, k', ground (arith, schedule_eq, d, some_current ne), inl i)
  ]

  -- What a returned process is, if some process waits.
  schedule-eq-ok :
      {p : ℕ} {k' : Kernel}
      → picked.eldest ≢ 0
      → schedule fuel switch_to k ≡ ok (p, k')
      → (p ≡ winner picked)
        × (k'.current_process ≡ p)
        × (picked.irq_process ≢ 0 → (k'.proc p).fresh_irq ≡ false)
  schedule-eq-ok {p} {k'} ne h =
      decide-eq-ok (begin_tick k) picked {p = p} {k' = k'} ne
        (ground (arith, schedule_eq, some_current ne))

  -- If an active process of the run queue waits for a fresh interrupt, and has not been scheduled in
  -- this very tick, `schedule` returns such a process, makes it the current one, and marks its
  -- interrupt as no longer fresh.
  pub schedule_serves_irq :
      {p : ℕ} {k' : Kernel} (x : ℕ)
      → In x xs
      → is_irq (begin_tick k) x ≡ true
      → 0 < wait_of (begin_tick k) x
      → schedule fuel switch_to k ≡ ok (p, k')
      → In p xs
        × (is_irq (begin_tick k) p ≡ true)
        × (k'.current_process ≡ p)
        × ((k'.proc p).fresh_irq ≡ false)
  schedule_serves_irq {p} {k'} x i t w h =
      let ne = (eldest-ne-zero x i (ground arith) w).0 in
      let (e, cur, fresh) = schedule-eq-ok ne h in
      let (j, u) =
        consider_all_complete (begin_tick k) switch_to (λ c. c.irq_process) (is_irq (begin_tick k))
          (consider-irq_process (begin_tick k) switch_to) xs nothing x i t in
      let nz = In-ne-zero (links k runqueue) (k.head runqueue) xs picked.irq_process r.holds j in
      let same : p ≡ picked.irq_process = ground (arith, e, nz) in
      (rw same j, rw same u, cur, fresh nz)

  -- When the scheduler's lock is free, some process is the current one, the run queue is a list of
  -- fewer processes than there is fuel, none of them waits for an interrupt, and an active one has
  -- waited for 42 ticks, a `schedule` that returns returns an active process of the run queue that
  -- has waited at least as long as every active one: the wish to switch to a process does not keep
  -- it from running.
  pub schedule_no_starvation :
      {p : ℕ} {k' : Kernel} (x : ℕ)
      → ((y : ℕ) → In y xs → is_irq (begin_tick k) y ≡ false)
      → In x xs
      → Active (begin_tick k) x
      → 42 ≤ wait_of (begin_tick k) x
      → schedule fuel switch_to k ≡ ok (p, k')
      → In p xs
        × Active (begin_tick k) p
        × ((y : ℕ)
            → In y xs
            → Active (begin_tick k) y
            → wait_of (begin_tick k) y ≤ wait_of (begin_tick k) p)
  schedule_no_starvation {p} {k'} x quiet i a w h =
      let ne = (eldest-ne-zero x i a (omega arith)).0 in
      let (e, cur, fresh) = schedule-eq-ok ne h in
      let no_irq : picked.irq_process ≡ 0 = elim irq_cases [
        | inl z ↦ z
        | inr (j, t) ↦ absurd (false≢true (sym (quiet picked.irq_process j) ∙ t))
      ] in
      let same : p ≡ picked.eldest = ground (arith, e, no_irq, longest.bounds x i a) in
      elim eldest_cases [
        | inl z ↦ absurd (ne z.0)
        | inr (j, b, l, _) ↦ rw same (j, b, λ y iy ay. omega (arith, longest.bounds y iy ay, l))
      ]

  -- If no process waits for an interrupt and no active process has waited for 42 ticks, a process of
  -- the run queue with the wanted identifier that is active and waits is switched to.
  schedule_switches :
      {p : ℕ} {k' : Kernel} (x : ℕ)
      → ((y : ℕ) → In y xs → is_irq (begin_tick k) y ≡ false)
      → In x xs
      → is_target (begin_tick k) switch_to x ≡ true
      → 0 < wait_of (begin_tick k) x
      → ((y : ℕ) → In y xs → Active (begin_tick k) y → wait_of (begin_tick k) y < 42)
      → schedule fuel switch_to k ≡ ok (p, k')
      → In p xs × (is_target (begin_tick k) switch_to p ≡ true)
  schedule_switches {p} {k'} x quiet i t w soon h =
      let ne = (eldest-ne-zero x i (ground arith) w).0 in
      let (e, cur, fresh) = schedule-eq-ok ne h in
      let no_irq : picked.irq_process ≡ 0 = elim irq_cases [
        | inl z ↦ z
        | inr (j, u) ↦ absurd (false≢true (sym (quiet picked.irq_process j) ∙ u))
      ] in
      let (j, u) =
        consider_all_complete (begin_tick k) switch_to (λ c. c.switch_target)
          (is_target (begin_tick k) switch_to) (consider-switch_target (begin_tick k) switch_to) xs
          nothing x i t in
      let nz = In-ne-zero (links k runqueue) (k.head runqueue) xs picked.switch_target r.holds j in
      let less : picked.max_sched_diff < 42 = elim eldest_cases [
        | inl z ↦ absurd (ne z.0)
        | inr (l, b, m, _) ↦ omega (arith, soon picked.eldest l b, m)
      ] in
      let same : p ≡ picked.switch_target = ground (arith, e, no_irq, nz, less) in
      (rw same j, rw same u)
