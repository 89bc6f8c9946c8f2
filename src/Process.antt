-- ===== src/Process.antt =====
-- Processes of the kernel, src/include/common/process.h, and the lists that hold them,
-- src/kernel/common/tasking/management.c. A process is named by the address of its structure, and
-- 0 is the null pointer.
pub mod Lists
pub mod Pids
pub mod Interrupts
pub mod Lifecycle
pub mod Wait
pub mod Scheduler
mod Tests
pub use muxomucota.Base.{update}
use muxomucota.Base.{
  ℕ, Bool, true, false, ◌||◌, ◌&&◌, not, Option, List, none, some, ◌==◌, if◌then◌else◌, suc, zero,
}

-- `process_status_t`
pub data Status : Type 0 where
  active coma zombie daemon destruct : Status

abbrev pub is_active : Status → Bool
is_active active = true
is_active coma = false
is_active zombie = false
is_active daemon = false
is_active destruct = false

-- `struct process`, less what only the architecture's code reads. `handled_irq` is `none` where the
-- source has -1, and `eax`, `eip`, `esp` and `cs` are those fields of `cpu_state`, and `tls_ppid` is `tls->ppid`.
pub record Process : Type 0 where
  pub pid : ℕ
  pub pgid : ℕ
  pub ppid : ℕ
  pub tls_ppid : ℕ
  pub status : Status
  pub rq_next : ℕ
  pub next : ℕ
  pub schedule_tick : ℕ
  pub handled_irq : Option ℕ
  pub fresh_irq : Bool
  pub handling_irq : Bool
  pub settle_count : ℕ
  pub exit_info : ℕ
  pub irq_stack_top : ℕ
  pub eax : ℕ
  pub eip : ℕ
  pub esp : ℕ
  pub cs : ℕ

-- The lists of processes.
pub data Queue : Type 0 where
  runqueue daemons zombies dead : Queue

-- Calls of code that is not modelled: `irq_settled` of the interrupt controller, the handlers of the
-- kernel's own drivers, and the release of a process's structure and address space.
pub data OuterCall : Type 0 where
  settled handled released : ℕ → OuterCall

-- `struct isr`: a handler of the kernel, or a process with its handler and the argument for it.
pub data Isr : Type 0 where
  kernel_isr : ℕ → Isr
  process_isr : ℕ → ℕ → ℕ → Isr

-- The memory that holds the structures, and the variables of the kernel.
pub record Kernel : Type 0 where
  pub proc : ℕ → Process
  pub head : Queue → ℕ
  pub current_process : ℕ
  pub idle_process : ℕ
  pub schedule_lock : ℕ
  pub tick : ℕ
  pub handlers : ℕ → List Isr
  pub used_pids : List ℕ
  pub outer_calls : List OuterCall

abbrev pub is_runqueue : Queue → Bool
is_runqueue runqueue = true
is_runqueue daemons = false
is_runqueue zombies = false
is_runqueue dead = false

-- The queue's variable with the value `p`.
abbrev pub set_head : Queue → ℕ → (Queue → ℕ) → Queue → ℕ
set_head runqueue p h runqueue = p
set_head daemons p h daemons = p
set_head zombies p h zombies = p
set_head dead p h dead = p
set_head _ p h l = h l

-- The pointer to the next process of a list: the run queue has one of its own.
abbrev pub next_of : Queue → Process → ℕ
next_of l p = if is_runqueue l then p.rq_next else p.next

abbrev pub with_next : Queue → ℕ → Process → Process
with_next l q p = if is_runqueue l then record p { rq_next = q } else record p { next = q }
