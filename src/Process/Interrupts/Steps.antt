-- ===== src/Process/Interrupts/Steps.antt =====
-- How handlers come and go, and that a process keeps the one it registered.
use muxomucota.Base.{ℕ, ◌≡◌, none, List, [], ◌∷◌, arith, refl, ◌∙◌, sym, ap, subst}
use muxomucota.Base.Outcome.{ok}
use muxomucota.Process.{Process, Kernel, Isr, kernel_isr, process_isr}
use muxomucota.Process.Interrupts.{
  register_isr, register_kernel_isr, register_user_isr, unregister_isr_process, common_irq_handler,
  daemonize_from_irq_handler,
}
use muxomucota.Process.Interrupts.Handlers.{
  IsRegistered, started, unregister_isr_process_lem, common_irq_handler-Interrupted,
}

register_kernel_isr-IsRegistered :
    (irq handler : ℕ) (k : Kernel) {k' : Kernel}
    → IsRegistered k
    → register_kernel_isr irq handler k ≡ ok k'
    → IsRegistered k'
unfolding register_kernel_isr register_isr
register_kernel_isr-IsRegistered irq handler k {k'} r e i p = ground (arith, r i p)

register_user_isr-IsRegistered :
    (irq p handler info : ℕ) (k : Kernel) {k' : Kernel}
    → IsRegistered k
    → register_user_isr irq p handler info k ≡ ok k'
    → IsRegistered k'
unfolding register_user_isr register_isr
register_user_isr-IsRegistered irq p handler info k {k'} r e i q = ground (arith, r i q)

-- The handlers come and go by these steps.
pub data IrqStep (k k' : Kernel) : Type 0 where
  add_kernel : (irq handler : ℕ) → register_kernel_isr irq handler k ≡ ok k' → IrqStep k k'
  add_user :
      (irq p handler info : ℕ) → register_user_isr irq p handler info k ≡ ok k' → IrqStep k k'
  leave : (p : ℕ) → k' ≡ unregister_isr_process p k → IrqStep k k'
  interrupt : (irq : ℕ) → k' ≡ (common_irq_handler irq k).1 → IrqStep k k'
  done : (p : ℕ) → daemonize_from_irq_handler p k ≡ ok k' → IrqStep k k'

pub data IrqSteps (k : Kernel) : Kernel → Type 0 where
  start : IrqSteps k k
  then_step : {k' k'' : Kernel} → IrqSteps k k' → IrqStep k' k'' → IrqSteps k k''

started-handled_irq :
    (p : ℕ) (hs : List Isr) (s : Process) → (started p hs s).handled_irq ≡ s.handled_irq
started-handled_irq p [] s = refl
started-handled_irq p (kernel_isr handler ∷ hs) s = started-handled_irq p hs s
started-handled_irq p (process_isr q handler info ∷ hs) s =
    ground (arith, started-handled_irq p hs s)

common_irq_handler-IsRegistered :
    (irq : ℕ) (k : Kernel) → IsRegistered k → IsRegistered (common_irq_handler irq k).1
common_irq_handler-IsRegistered irq k r i p =
    let t = common_irq_handler-Interrupted irq k r in
    let same : ((common_irq_handler irq k).1.proc p).handled_irq ≡ (k.proc p).handled_irq =
      ap (λ (s : Process). s.handled_irq) (t.processes p)
      ∙ started-handled_irq p (k.handlers irq) (k.proc p) in
    rw (t.same_handlers, same) (r i p)

daemonize_from_irq_handler-IsRegistered :
    (p : ℕ) (k : Kernel) {k' : Kernel}
    → IsRegistered k
    → daemonize_from_irq_handler p k ≡ ok k'
    → IsRegistered k'
unfolding daemonize_from_irq_handler
daemonize_from_irq_handler-IsRegistered p k {k'} r e i q = ground (arith, r i q)

IrqStep-IsRegistered : {k k' : Kernel} → IrqStep k k' → IsRegistered k → IsRegistered k'
IrqStep-IsRegistered {k} {k'} (add_kernel irq handler e) r =
    register_kernel_isr-IsRegistered irq handler k r e
IrqStep-IsRegistered {k} {k'} (add_user irq p handler info e) r =
    register_user_isr-IsRegistered irq p handler info k r e
IrqStep-IsRegistered {k} {k'} (leave p e) r =
    subst IsRegistered (sym e) (unregister_isr_process_lem p k r).0
IrqStep-IsRegistered {k} {k'} (interrupt irq e) r =
    subst IsRegistered (sym e) (common_irq_handler-IsRegistered irq k r)
IrqStep-IsRegistered {k} {k'} (done p e) r = daemonize_from_irq_handler-IsRegistered p k r e

-- From a state with no handler, whose processes handle no interrupt, whatever handlers are
-- registered and unregistered, and whatever interrupts come and are handled: every process has a
-- handler for the interrupt that it handles, and no other.
pub IrqSteps-IsRegistered :
    {k k' : Kernel}
    → ((irq : ℕ) → k.handlers irq ≡ [])
    → ((p : ℕ) → (k.proc p).handled_irq ≡ none)
    → IrqSteps k k'
    → IsRegistered k'
IrqSteps-IsRegistered none_yet free start = λ irq p. ground (arith, none_yet irq, free p)
IrqSteps-IsRegistered none_yet free (then_step steps step) =
    IrqStep-IsRegistered step (IrqSteps-IsRegistered none_yet free steps)
