-- ===== src/Process/Lifecycle.antt =====
-- Processes end, and become daemons: src/kernel/common/tasking/management.c.
pub mod Adopt
pub mod Destroy
pub mod Daemonize
pub mod Find
use muxomucota.Base.{
  ℕ, zero, suc, Bool, true, false, ◌||◌, ◌&&◌, not, Option, none, some, List, [], ◌∷◌, ◌==◌,
  if◌then◌else◌,
}
use muxomucota.Base.Outcome.{Outcome, ok, out_of_fuel, ◌>>=◌}
use muxomucota.Process.{
  Process, Kernel, Queue, runqueue, daemons, zombies, dead, Status, active, zombie, daemon,
  is_active, update, next_of, OuterCall, settled,
}
use muxomucota.Process.Interrupts.{unregister_isr_process}
use muxomucota.Process.Lists.{register, unregister}

abbrev pub fueled : Option Kernel → Outcome Kernel
fueled none = out_of_fuel
fueled (some k) = ok k

-- `find_process_in`: the first process of the list from `p` on with the identifier; 0 if none.
pub find_process_in : ℕ → Queue → ℕ → ℕ → Kernel → Outcome ℕ
find_process_in zero l p pid k = out_of_fuel
find_process_in (suc fuel) l p pid k =
    let more = find_process_in fuel l (next_of l (k.proc p)) pid k in
    if p == 0 || (k.proc p).pid == pid then ok p else more

-- `find_process`
pub find_process : ℕ → ℕ → Kernel → Outcome ℕ
find_process fuel pid k = find_process_in fuel runqueue (k.head runqueue) pid k >>= λ p.
    if not (p == 0) then ok p else find_process_in fuel daemons (k.head daemons) pid k

-- `adopt`
abbrev pub adopt : ℕ → Process → Process
adopt parent_pid child = record child { ppid = parent_pid; tls_ppid = parent_pid }

-- One loop of `adopt_orphans`, over the list `l` from `c` on: children of `pid` go to `ppid`.
pub adopt_list : ℕ → Queue → ℕ → ℕ → ℕ → Kernel → Outcome Kernel
adopt_list zero l c pid ppid k = out_of_fuel
adopt_list (suc fuel) l c pid ppid k =
    let p = k.proc c in
    let k' = record k { proc = update k.proc c (if p.ppid == pid then adopt ppid p else p) } in
    let more = adopt_list fuel l (next_of l (k'.proc c)) pid ppid k' in
    if c == 0 then ok k else more

-- `adopt_orphans`
pub adopt_orphans : ℕ → ℕ → Kernel → Outcome Kernel
adopt_orphans fuel parent k =
    let pid = (k.proc parent).pid in
    let ppid = (k.proc parent).ppid in
    adopt_list fuel runqueue (k.head runqueue) pid ppid k >>= λ k₁.
    adopt_list fuel daemons (k₁.head daemons) pid ppid k₁ >>= λ k₂.
    adopt_list fuel zombies (k₂.head zombies) pid ppid k₂

-- How `destroy_process` leaves the interrupt that the process handles.
abbrev pub leave_irq : ℕ → Kernel → Kernel
leave_irq p k =
    let s = k.proc p in
    elim s.handled_irq [
      | none ↦ k
      | some irq ↦ unregister_isr_process p (record k {
        outer_calls =
            if is_active s.status && s.handling_irq
            then settled irq ∷ k.outer_calls
            else k.outer_calls;
      })
    ]

-- How `destroy_process` ends: it returns, or, for a process that ends itself, lets others run for ever.
pub data Ending : Type 0 where
  returns yields_forever : Ending

-- `proc == current_process`
abbrev pub ending : ℕ → Kernel → Ending
ending p k = if p == k.current_process then yields_forever else returns

-- `destroy_process` of `p`: how it ends, and the state that is then left to others. The lock that a
-- process takes which ends itself is free before, and is given back.
pub destroy_process : ℕ → ℕ → ℕ → Kernel → Outcome (Ending × Kernel)
destroy_process fuel p exit_info k =
    let left = leave_irq p k in
    let e = ending p left in
    adopt_orphans fuel p left >>= λ k₁. fueled (unregister fuel runqueue p k₁) >>= λ k₂.
    let k₃ = register zombies p k₂ in
    ok (
      e,
      record k₃ {
        proc = update k₃.proc p (record (k₃.proc p) { exit_info = exit_info; status = zombie });
      },
    )

-- A process that handles an interrupt stays in the run queue.
abbrev pub leave_queue : ℕ → ℕ → Option ℕ → Kernel → Outcome Kernel
leave_queue fuel p none k = fueled (unregister fuel runqueue p k)
leave_queue fuel p (some irq) k = ok k

-- `daemonize_process` of `p`, less the copy of the name.
pub daemonize_process : ℕ → ℕ → Kernel → Outcome Kernel
daemonize_process fuel p k = leave_queue fuel p (k.proc p).handled_irq k >>= λ k₁.
    let k₂ = register daemons p k₁ in
    ok (record k₂ { proc = update k₂.proc p (record (k₂.proc p) { status = daemon }) })
