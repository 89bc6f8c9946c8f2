-- ===== src/Process/Interrupts.antt =====
-- Interrupt handlers, src/kernel/common/intr/isrs.c: the kernel's own, and processes that are
-- daemons between two interrupts.
pub mod Handlers
pub mod Steps
use muxomucota.Base.{
  ℕ, zero, suc, ◌+◌, Bool, true, false, not, ◌&&◌, Option, none, some, List, [], ◌∷◌, ◌==◌, ltb,
  if◌then◌else◌, update,
}
use muxomucota.Base.Outcome.{Outcome, ok, out_of_fuel, ◌>>=◌, ◌>>◌, kassert}
use muxomucota.Process.{
  Process, Kernel, Status, active, daemon, coma, zombie, destruct, Isr, kernel_isr, process_isr,
  OuterCall, settled, handled,
}

-- IRQ_COUNT
abbrev pub irq_count : ℕ
irq_count = 16

-- `register_isr`: the compare-and-swap of the source repeats this until no other processor comes
-- between.
pub register_isr : ℕ → Isr → Kernel → Outcome Kernel
register_isr irq isr k = do
  kassert (ltb irq irq_count)
  ok (record k { handlers = update k.handlers irq (isr ∷ k.handlers irq) })

-- `register_kernel_isr`
unfoldable pub register_kernel_isr : ℕ → ℕ → Kernel → Outcome Kernel
unfolding register_isr
register_kernel_isr irq handler k = register_isr irq (kernel_isr handler) k

abbrev pub handles_none : Option ℕ → Bool
handles_none none = true
handles_none (some irq) = false

-- `register_user_isr`
unfoldable pub register_user_isr : ℕ → ℕ → ℕ → ℕ → Kernel → Outcome Kernel
unfolding register_isr
register_user_isr irq p handler info k = do
  kassert (handles_none (k.proc p).handled_irq)
  k' ← register_isr irq (process_isr p handler info) k
  ok (record k' { proc = update k'.proc p (record (k'.proc p) { handled_irq = some irq }) })

-- `!isr->is_kernel && isr->process == p`
abbrev pub is_owned : ℕ → Isr → Bool
is_owned p (kernel_isr handler) = false
is_owned p (process_isr q handler info) = q == p

-- The loop of `unregister_isr_process` over one list. Where it unlinks a handler it goes on behind
-- the next one.
pub unlink : ℕ → List Isr → List Isr
unlink p [] = []
unlink p (h ∷ []) = if is_owned p h then [] else h ∷ []
unlink p (h ∷ n ∷ hs) =
    let gone = n ∷ unlink p hs in
    let kept = h ∷ unlink p (n ∷ hs) in if is_owned p h then gone else kept

-- `unregister_isr_process`
abbrev pub unregister_isr_process : ℕ → Kernel → Kernel
unregister_isr_process p k = record k {
  handlers = λ irq. unlink p (k.handlers irq);
  proc = update k.proc p (record (k.proc p) { handled_irq = none });
}

abbrev pub is_daemon : Status → Bool
is_daemon daemon = true
is_daemon active = false
is_daemon coma = false
is_daemon zombie = false
is_daemon destruct = false

-- A daemon begins to handle an interrupt: `make_process_entry` and `set_process_func_regparam` for a
-- process that has its stack for interrupts.
abbrev pub start_handler : ℕ → ℕ → ℕ → Kernel → Kernel
start_handler p handler info k = record k {
  proc = update k.proc p (record (k.proc p) {
    handling_irq = true;
    fresh_irq = true;
    status = active;
    eip = handler;
    esp = (k.proc p).irq_stack_top;
    cs = 0x1b;
    eax = info;
  });
}

-- The loop of `common_irq_handler`, with the number of processes so far.
pub run_handlers : List Isr → ℕ → Kernel → ℕ × Kernel
run_handlers [] n k = (n, k)
run_handlers (kernel_isr handler ∷ hs) n k =
    run_handlers hs n (record k { outer_calls = handled handler ∷ k.outer_calls })
run_handlers (process_isr p handler info ∷ hs) n k =
    run_handlers hs (if is_daemon (k.proc p).status then n + 1 else n)
      (if is_daemon (k.proc p).status then start_handler p handler info k else k)

-- `common_irq_handler`
pub common_irq_handler : ℕ → Kernel → ℕ × Kernel
unfolding run_handlers
common_irq_handler irq k = run_handlers (k.handlers irq) 0 k

-- `daemonize_from_irq_handler`, up to the endless `yield` of a process that is the current one
pub daemonize_from_irq_handler : ℕ → Kernel → Outcome Kernel
daemonize_from_irq_handler p k = do
  kassert (k.proc p).handling_irq
  kassert (not (handles_none (k.proc p).handled_irq))
  ok (record k {
    proc = update k.proc p (record (k.proc p) {
      handling_irq = false;
      settle_count = (k.proc p).settle_count + 1;
      status = daemon;
    });
  })

-- `irq_settled(irq)`, `n` times
pub settle : ℕ → ℕ → Kernel → Kernel
settle zero irq k = k
settle (suc n) irq k = settle n irq (record k { outer_calls = settled irq ∷ k.outer_calls })

-- What the `reaper` does for the process `p`.
pub settle_process : ℕ → Kernel → Kernel
unfolding settle
settle_process p k =
    let s = k.proc p in
    elim s.handled_irq [
      | none ↦ k
      | some irq ↦
          if not (s.settle_count == 0) && is_daemon s.status
          then (let k' = settle s.settle_count irq k in
              record k' { proc = update k'.proc p (record (k'.proc p) { settle_count = 0 }) })
          else k
    ]

-- The loop of the `reaper` over the daemons from `p` on.
pub settle_daemons : ℕ → ℕ → Kernel → Outcome Kernel
unfolding settle_process
settle_daemons zero p k = out_of_fuel
settle_daemons (suc fuel) p k =
    let k' = settle_process p k in
    let more = settle_daemons fuel (k'.proc p).next k' in if p == 0 then ok k else more
