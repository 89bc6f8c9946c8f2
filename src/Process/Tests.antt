-- ===== src/Process/Tests.antt =====
-- Runs of the code for the lists of processes, and its theorems at a concrete kernel.
mod Choice
mod Ends
use muxomucota.Base.{
  ℕ, suc, ◌-◌, ◌*◌, ◌^◌, ◌≤◌, ◌<◌, ◌≡◌, ◌≢◌, true, false, ◌==◌, none, some, List, [], ◌∷◌, ◌++◌,
  length, arith, if◌then◌else◌, refl, ◌⊎◌,
}
use muxomucota.Base.Bits.{free_bit}
use muxomucota.Base.Outcome.{ok}
use muxomucota.Process.{
  active, zombie, daemon, Process, runqueue, daemons, zombies, Kernel, set_head,
}
use muxomucota.Process.Lists.{unregister}
use muxomucota.Process.Lists.Chain.{Holds, Distinct}
use muxomucota.Process.Lists.Cut.{Removed, unregister-Removed}
use muxomucota.Process.Pids.{get_new_pid, relinquish_pid, in_use, get_new_pid_lem}
use muxomucota.Process.Lifecycle.{
  adopt_orphans, returns, yields_forever, destroy_process, daemonize_process,
}
use muxomucota.Process.Lifecycle.Adopt.{Orphans, adopt_orphans-Orphans}
use muxomucota.Process.Lifecycle.Destroy.{Destroyed, destroy_process_lem, destroy_process_daemon}
use muxomucota.Process.Lifecycle.Daemonize.{left, daemonize_process_lem}

-- A process that is scheduled for the last time at `last`.
abbrev pub plain : ℕ → ℕ → ℕ → ℕ → ℕ → Process
plain id parent rq nx last = record {
  pid = id;
  pgid = id;
  ppid = parent;
  tls_ppid = parent;
  status = active;
  rq_next = rq;
  next = nx;
  schedule_tick = last;
  handled_irq = none;
  fresh_irq = false;
  handling_irq = false;
  settle_count = 0;
  exit_info = 0;
  irq_stack_top = 0xd0000000;
  eax = 0;
  eip = 0x100000;
  esp = 0xe0000000;
  cs = 0x1b;
}

-- The processes 1 to 3 are in the run queue, 4 and 6 are daemons, and 5 is a zombie. Process 1 is
-- the parent of all but itself.
abbrev pub procs : Process → ℕ → Process
procs third n =
    if n == 1
    then plain 10 0 2 0 50
    else if n == 2
    then plain 20 10 3 0 80
    else if n == 3
    then third
    else if n == 4
    then record (plain 40 10 0 6 0) { status = daemon }
    else if n == 5
    then record (plain 50 10 0 0 0) { status = zombie }
    else record (plain 60 10 0 0 0) { status = daemon }

abbrev pub kernel : Process → ℕ → Kernel
kernel third now = record {
  proc = procs third;
  head = set_head runqueue 1 (set_head daemons 4 (set_head zombies 5 (λ l. 0)));
  current_process = 1;
  idle_process = 9;
  schedule_lock = 0;
  tick = now;
  handlers = λ irq. [];
  used_pids = 0x3ff ∷ 0 ∷ [];
  outer_calls = [];
}

-- The process 3 waits for an interrupt.
abbrev pub irq_waiter : Process
irq_waiter = record (plain 30 10 0 0 90) {
  handled_irq = some 1;
  fresh_irq = true;
  handling_irq = true;
}

abbrev pub early : Kernel
early = kernel (plain 30 10 0 0 90) 100

abbrev pub late : Kernel
late = kernel (plain 30 10 0 0 90) 200

abbrev pub interrupted : Kernel
interrupted = kernel irq_waiter 100

abbrev pub queued : List ℕ
queued = 1 ∷ 2 ∷ 3 ∷ []

pub queued-Holds :
    (third : Process) (now : ℕ) → third.rq_next ≡ 0 → Holds (kernel third now) runqueue queued
queued-Holds third now e = (refl, (λ z. cc), (refl, (λ z. cc), (refl, (λ z. cc), e)))

daemons-Holds : (third : Process) (now : ℕ) → Holds (kernel third now) daemons (4 ∷ 6 ∷ [])
daemons-Holds third now = (refl, (λ z. cc), (refl, (λ z. cc), refl))

zombies-Holds : (third : Process) (now : ℕ) → Holds (kernel third now) zombies (5 ∷ [])
zombies-Holds third now = (refl, (λ z. cc), refl)

pub queued-Distinct : Distinct queued
queued-Distinct = (((λ e. cc), ((λ e. cc), tt)), (((λ e. cc), tt), (tt, tt)))

pub early-queued : Holds early runqueue queued
early-queued = queued-Holds (plain 30 10 0 0 90) 100 refl

pub early-daemons : Holds early daemons (4 ∷ 6 ∷ [])
early-daemons = daemons-Holds (plain 30 10 0 0 90) 100

pub early-zombies : Holds early zombies (5 ∷ [])
early-zombies = zombies-Holds (plain 30 10 0 0 90) 100

get_new_pid-run : get_new_pid ((2 ^ 32 - 1) ∷ 5 ∷ []) ≡ ok (34, (2 ^ 32 - 1) ∷ 7 ∷ [])
unfolding get_new_pid free_bit
get_new_pid-run = refl

destroy_process_lem_example :
    (k' : Kernel) × (destroy_process 4 1 7 early ≡ ok (yields_forever, k'))
    × Destroyed 1 7 queued (4 ∷ 6 ∷ []) (5 ∷ []) early k'
destroy_process_lem_example =
    destroy_process_lem 4 1 7 queued (4 ∷ 6 ∷ []) (5 ∷ []) early (omega arith) (omega arith)
      (omega arith) (λ e. cc) queued-Distinct early-queued early-daemons early-zombies
      ((λ e. cc), ((λ e. cc), tt)) ((λ e. cc), tt)

destroy_process_daemon_example :
    (k' : Kernel) × (destroy_process 4 4 7 early ≡ ok (returns, k')) × Holds k' daemons (4 ∷ 5 ∷ [])
destroy_process_daemon_example =
    destroy_process_daemon 4 4 7 queued (6 ∷ []) (5 ∷ []) early (omega arith) (omega arith)
      (omega arith) (λ e. cc) queued-Distinct ((λ e. cc), tt) early-queued early-daemons
      early-zombies
