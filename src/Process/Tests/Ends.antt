-- ===== src/Process/Tests/Ends.antt =====
-- Runs of the interrupt handlers and of the wait for a child, and their theorems, at the kernel of
-- the other tests.
use muxomucota.Base.{ℕ, ◌≡◌, ◌≢◌, true, ◌==◌, none, some, [], ◌∷◌, arith, if◌then◌else◌, refl, ◌⊎◌}
use muxomucota.Base.Outcome.{ok}
use muxomucota.Process.{dead, set_head, Kernel, kernel_isr, process_isr}
use muxomucota.Process.Interrupts.{
  register_kernel_isr, register_user_isr, unregister_isr_process, common_irq_handler,
}
use muxomucota.Process.Interrupts.Handlers.{IsRegistered}
use muxomucota.Process.Interrupts.Steps.{
  IrqSteps, start, then_step, add_kernel, add_user, leave, interrupt, IrqSteps-IsRegistered,
}
use muxomucota.Process.Lifecycle.{returns, destroy_process}
use muxomucota.Process.Scheduler.Survey.{In}
use muxomucota.Process.Wait.{reaped, destroy_process_struct, raw_waitpid, sweep_dead_processes}
use muxomucota.Process.Wait.Sweep.{Swept, sweep_dead_processes-Swept}
use muxomucota.Process.Lists.Chain.{Holds}
use muxomucota.Process.Wait.Reap.{Reaped, raw_waitpid-destroy_process}
use muxomucota.Process.Tests.{
  early, queued, queued-Distinct, early-queued, early-daemons, early-zombies,
}

-- The daemon 4 and the kernel handle the interrupt 1.
abbrev with_kernel : Kernel
with_kernel = record early { handlers = λ irq. if 1 == irq then kernel_isr 0x100 ∷ [] else [] }

abbrev with_daemon : Kernel
with_daemon = record with_kernel {
  handlers = λ irq.
      if 1 == irq
      then process_isr 4 0x200 0x300 ∷ kernel_isr 0x100 ∷ []
      else with_kernel.handlers irq;
  proc = λ n. if 4 == n then record (early.proc 4) { handled_irq = some 1 } else early.proc n;
}

kernel_added : register_kernel_isr 1 0x100 early ≡ ok with_kernel
unfolding register_kernel_isr
kernel_added = refl

daemon_added : register_user_isr 1 4 0x200 0x300 with_kernel ≡ ok with_daemon
unfolding register_user_isr
daemon_added = refl

nobody : (p : ℕ) → (early.proc p).handled_irq ≡ none
nobody p = ground arith

daemon_steps : IrqSteps early with_daemon
daemon_steps =
    then_step (then_step start (add_kernel 1 0x100 kernel_added))
      (add_user 1 4 0x200 0x300 daemon_added)

with_daemon-IsRegistered : IsRegistered with_daemon
with_daemon-IsRegistered irq p = ground arith

IrqSteps-IsRegistered_example :
    IsRegistered (unregister_isr_process 4 (common_irq_handler 1 with_daemon).1)
IrqSteps-IsRegistered_example =
    IrqSteps-IsRegistered (λ irq. refl) nobody
      (then_step (then_step daemon_steps (interrupt 1 refl)) (leave 4 refl))

other_pids : (x : ℕ) → In x queued ⊎ In x (4 ∷ 6 ∷ []) → x ≢ 2 → (early.proc x).pid ≢ 20
other_pids x i ne = ground (arith, i, ne)

raw_waitpid-destroy_process_example :
    (k' k'' : Kernel) × (destroy_process 4 2 7 early ≡ ok (returns, k'))
    × (raw_waitpid 4 true 20 k' ≡ ok (reaped 20 7 (destroy_process_struct 2 k'')))
    × Reaped 2 7 (5 ∷ []) k' k''
raw_waitpid-destroy_process_example =
    raw_waitpid-destroy_process 4 2 7 true queued (4 ∷ 6 ∷ []) (5 ∷ []) early (omega arith)
      (omega arith) (omega arith) (λ e. cc) queued-Distinct (((λ e. cc), tt), (tt, tt))
      ((λ e. cc), ((λ e. cc), tt)) early-queued early-daemons early-zombies other_pids

-- The processes 4 and 6 are dead.
abbrev with_dead : Kernel
with_dead = record early { head = set_head dead 4 (λ l. 0) }

dead-Holds : Holds with_dead dead (4 ∷ 6 ∷ [])
dead-Holds = (refl, (λ z. cc), (refl, (λ z. cc), refl))

sweep_dead_processes-Swept_example :
    (k' : Kernel) × (sweep_dead_processes 3 with_dead ≡ ok k') × Swept (4 ∷ 6 ∷ []) with_dead k'
sweep_dead_processes-Swept_example =
    sweep_dead_processes-Swept 3 (4 ∷ 6 ∷ []) with_dead (omega arith) dead-Holds
