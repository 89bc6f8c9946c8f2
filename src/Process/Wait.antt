-- ===== src/Process/Wait.antt =====
-- A parent waits for a child, and the dead are swept up: `raw_waitpid`, `wait_for_any_child` and
-- `sweep_dead_processes` of src/kernel/common/tasking/management.c.
pub mod Reap
pub mod Sweep
use muxomucota.Base.{
  ℕ, zero, suc, Bool, true, false, ◌||◌, not, Option, none, some, List, [], ◌∷◌, ◌==◌,
  if◌then◌else◌,
}
use muxomucota.Base.Outcome.{Outcome, ok, out_of_fuel, ◌>>=◌}
use muxomucota.Process.{
  Process, Kernel, Queue, runqueue, daemons, zombies, dead, set_head, Status, active, coma, zombie,
  daemon, destruct, OuterCall, released,
}
use muxomucota.Process.Pids.{relinquish_pid}
use muxomucota.Process.Lists.{unregister}
use muxomucota.Process.Lifecycle.{fueled, find_process, find_process_in}

-- What a call does until it returns or lets others run: no such child (-1 and ECHILD), a child that
-- still runs (0, where the caller does not want to wait), a `yield` to a process before the same
-- test again, or the child's identifier and exit information.
pub data Waited : Type 0 where
  no_child still_running : Waited
  blocked : ℕ → Waited
  reaped : ℕ → ℕ → Kernel → Waited

abbrev pub is_zombie : Status → Bool
is_zombie zombie = true
is_zombie active = false
is_zombie coma = false
is_zombie daemon = false
is_zombie destruct = false

-- `destroy_process_struct`, of which only the identifier is looked at further
abbrev pub destroy_process_struct : ℕ → Kernel → Kernel
destroy_process_struct p k = record k {
  used_pids = relinquish_pid (k.proc p).pid k.used_pids;
  outer_calls = released p ∷ k.outer_calls;
}

-- The process of `raw_waitpid`.
pub find_waited : ℕ → ℕ → Kernel → Outcome ℕ
find_waited fuel pid k = find_process fuel pid k >>= λ q.
    if q == 0 then find_process_in fuel zombies (k.head zombies) pid k else ok q

-- `raw_waitpid` of one process; `hang` is that WNOHANG is not among the options.
pub raw_waitpid : ℕ → Bool → ℕ → Kernel → Outcome Waited
unfolding find_waited
raw_waitpid fuel hang pid k = find_waited fuel pid k >>= λ p.
    if p == 0
    then ok no_child
    else if not (is_zombie (k.proc p).status)
    then ok (if hang then blocked (k.proc p).pid else still_running)
    else fueled (unregister fuel zombies p k)
      >>= (λ k'. ok (reaped (k.proc p).pid (k.proc p).exit_info (destroy_process_struct p k')))

-- `find_child_in`, of the zombies from `p` on: the first child of a process; 0 if there is none.
pub find_child_in : ℕ → ℕ → ℕ → Kernel → Outcome ℕ
find_child_in zero p pid k = out_of_fuel
find_child_in (suc fuel) p pid k =
    let more = find_child_in fuel (k.proc p).next pid k in
    if p == 0 || (k.proc p).ppid == pid then ok p else more

-- `wait_for_any_child`
pub wait_for_any_child : ℕ → Bool → Kernel → Outcome Waited
unfolding find_child_in raw_waitpid
wait_for_any_child fuel hang k =
    find_child_in fuel (k.head zombies) (k.proc k.current_process).pid k >>= λ p.
    if p == 0
    then ok (if hang then blocked 0 else still_running)
    else raw_waitpid fuel hang (k.proc p).pid k

-- `sweep_dead_processes`
pub sweep_dead_processes : ℕ → Kernel → Outcome Kernel
sweep_dead_processes zero k = out_of_fuel
sweep_dead_processes (suc fuel) k =
    let p = k.head dead in
    let k' = record k { head = set_head dead (k.proc p).next k.head } in
    let more = sweep_dead_processes fuel (destroy_process_struct p k') in
    if p == 0 then ok k else more
