-- ===== src/Process/Scheduler.antt =====
-- `schedule`, src/kernel/common/tasking/scheduler.c.
pub mod Survey
pub mod Winner
pub mod Fair
use muxomucota.Base.{
  ℕ, zero, suc, ◌+◌, ◌-◌, ◌%◌, ◌^◌, Bool, true, false, ◌||◌, ◌&&◌, not, Option, none, some, ◌==◌,
  ltb, if◌then◌else◌,
}
use muxomucota.Base.Outcome.{Outcome, ok, out_of_fuel, ◌>>=◌, ◌>>◌, kassert}
use muxomucota.Process.{Process, Kernel, Queue, runqueue, Status, active, is_active, update}

-- `schedule_tick - proc->schedule_tick` in 32 bits
abbrev pub waiting : ℕ → Process → ℕ
waiting tick p = (tick + 2 ^ 32 - p.schedule_tick) % 2 ^ 32

-- The variables of the loop; 0 is the null pointer.
pub record Choice : Type 0 where
  pub switch_target : ℕ
  pub irq_process : ℕ
  pub max_sched_diff : ℕ
  pub eldest : ℕ

abbrev pub nothing : Choice
nothing = record { switch_target = 0; irq_process = 0; max_sched_diff = 0; eldest = 0 }

-- `(proc->handled_irq >= 0) && proc->handling_irq && proc->fresh_irq`
abbrev pub wants_irq : Process → Bool
wants_irq p =
    (elim p.handled_irq [ none ↦ false | some irq ↦ true ]) && p.handling_irq && p.fresh_irq

-- One round of the loop, at the process `p`.
unfoldable pub consider : Kernel → ℕ → ℕ → Choice → Choice
consider k switch_to p c =
    let s = k.proc p in
    let longer = ltb c.max_sched_diff (waiting k.tick s) in
    if is_active s.status
    then record {
      switch_target = if s.pid == switch_to then p else c.switch_target;
      irq_process = if wants_irq s then p else c.irq_process;
      max_sched_diff = if longer then waiting k.tick s else c.max_sched_diff;
      eldest = if longer then p else c.eldest;
    }
    else c

-- The loop over the run queue from `p` on.
unfoldable pub survey : ℕ → Kernel → ℕ → ℕ → Choice → Outcome Choice
unfolding consider
survey zero k switch_to p c = out_of_fuel
survey (suc fuel) k switch_to p c =
    let more = survey fuel k switch_to (k.proc p).rq_next (consider k switch_to p c) in
    if p == 0 then ok c else more

-- The closing assertion: a thread of a group stays below the kernel's part of the stack, or in the
-- kernel.
abbrev pub stack_is_sound : Process → Bool
stack_is_sound p = p.pid == p.pgid || (ltb p.esp 0xef000000 || p.cs % 4 == 0)

-- What follows the loop.
unfoldable pub decide : Kernel → Choice → Outcome (ℕ × Kernel)
decide k c =
    let chosen =
      if not (c.switch_target == 0) && ltb c.max_sched_diff 42 then c.switch_target else c.eldest in
    let served = record (k.proc c.irq_process) { fresh_irq = false } in
    if c.eldest == 0
    then ok (k.idle_process, record k { current_process = k.idle_process })
    else if c.irq_process == 0
    then kassert (stack_is_sound (k.proc chosen))
      >> ok (chosen, record k { current_process = chosen })
    else kassert (stack_is_sound (k.proc c.irq_process))
      >> ok (
        c.irq_process,
        record k { current_process = c.irq_process; proc = update k.proc c.irq_process served },
      )

-- What precedes the loop, with the lock held and a current process: it gets the tick, and a process
-- that cannot go on makes way for the run queue.
unfoldable pub begin_tick : Kernel → Kernel
begin_tick k =
    let cur = k.current_process in
    let marked = update k.proc cur (record (k.proc cur) { schedule_tick = k.tick }) in
    record k {
      proc = marked;
      tick = (k.tick + 1) % 2 ^ 32;
      current_process =
          if cur == k.idle_process || not (is_active (marked cur).status)
          then k.head runqueue
          else cur;
    }

-- The body of `schedule` between `trylock` and `unlock`, once there is a current process. The lock
-- is free again at each `return`.
unfoldable pub choose : ℕ → ℕ → Kernel → Outcome (ℕ × Kernel)
choose fuel switch_to k =
    let t = begin_tick k in
    if t.current_process == 0
    then ok (t.idle_process, t)
    else survey fuel t switch_to (t.head runqueue) nothing >>= decide t

-- `schedule`: the process returned, and the new state.
unfoldable pub schedule : ℕ → ℕ → Kernel → Outcome (ℕ × Kernel)
schedule fuel switch_to k =
    if not (k.schedule_lock == 0)
    then ok (k.current_process, k)
    else if not (k.current_process == 0)
    then choose fuel switch_to k
    else if k.idle_process == 0
    then ok (0, k)
    else choose fuel switch_to (record k { current_process = k.idle_process })
