-- ===== src/Process/Lifecycle/Daemonize.antt =====
-- What `daemonize_process` makes of the lists.
use mathlib.Core.Path.{fun_ext}
use muxomucota.Base.{
  ℕ, ◌<◌, ◌≡◌, ◌≢◌, Option, none, some, List, ◌∷◌, length, arith, refl, inl, inr, ap,
}
use muxomucota.Base.Outcome.{ok}
use muxomucota.Process.{Kernel, Queue, runqueue, daemons, zombies, daemon, update}
use muxomucota.Process.Lists.{register}
use muxomucota.Process.Lists.Chain.{
  links, Holds, NotIn, Distinct, remove, register-Holds, register-Holds_other,
}
use muxomucota.Process.Lists.Cut.{unregister-Removed}
use muxomucota.Process.Lifecycle.{fueled, leave_queue, daemonize_process}
use muxomucota.Process.Lifecycle.Destroy.{Holds-Removed}

abbrev serve : ℕ → Kernel → Kernel
serve p k = record k { proc = update k.proc p (record (k.proc p) { status = daemon }) }

Holds-serve : (p : ℕ) (k : Kernel) (m : Queue) (ys : List ℕ) → Holds k m ys → Holds (serve p k) m ys
Holds-serve p k m ys h =
    let same : links (serve p k) m ≡ links k m = fun_ext (λ x. ground arith) in rw same h

-- The run queue that a process leaves, unless it handles an interrupt.
abbrev pub left : Option ℕ → ℕ → List ℕ → List ℕ
left none p rs = remove p rs
left (some irq) p rs = rs

leave_queue_lem :
    (irq : Option ℕ) (fuel p : ℕ) (rs ds zs : List ℕ) (k : Kernel)
    → length rs < fuel
    → p ≢ 0
    → Distinct rs
    → Holds k runqueue rs
    → Holds k daemons ds
    → Holds k zombies zs
    → (k' : Kernel) × (leave_queue fuel p irq k ≡ ok k')
      × Holds k' runqueue (left irq p rs)
      × Holds k' daemons ds
      × Holds k' zombies zs
leave_queue_lem none fuel p rs ds zs k lr nz dis hr hd hz =
    let (k', e, u) = unregister-Removed fuel runqueue p rs k lr nz dis hr in
    (
      k',
      ap fueled e,
      u.holds,
      Holds-Removed p rs k k' daemons ds (λ h. cc) u hd,
      Holds-Removed p rs k k' zombies zs (λ h. cc) u hz,
    )
leave_queue_lem (some irq) fuel p rs ds zs k lr nz dis hr hd hz = (k, refl, hr, hd, hz)

-- Given fuel for the run queue, `daemonize_process` of a process that is neither a daemon nor a
-- zombie returns. The process is a daemon, in front of the daemons; it leaves the run queue, unless
-- it handles an interrupt, when it stays there; the zombies are as before.
pub daemonize_process_lem :
    (fuel p : ℕ) (rs ds zs : List ℕ) (k : Kernel)
    → length rs < fuel
    → p ≢ 0
    → Distinct rs
    → NotIn p ds
    → NotIn p zs
    → Holds k runqueue rs
    → Holds k daemons ds
    → Holds k zombies zs
    → (k' : Kernel) × (daemonize_process fuel p k ≡ ok k')
      × Holds k' runqueue (left (k.proc p).handled_irq p rs)
      × Holds k' daemons (p ∷ ds)
      × Holds k' zombies zs
      × ((k'.proc p).status ≡ daemon)
unfolding daemonize_process
daemonize_process_lem fuel p rs ds zs k lr nz dis nd nzs hr hd hz =
    let irq = (k.proc p).handled_irq in
    let (k₁, e, hr₁, hd₁, hz₁) = leave_queue_lem irq fuel p rs ds zs k lr nz dis hr hd hz in
    let k₂ = register daemons p k₁ in
    (
      serve p k₂,
      rw e,
      Holds-serve p k₂ runqueue (left irq p rs) (
          register-Holds_other k₁ daemons runqueue p (left irq p rs) (λ h. cc) (inl (λ h. cc)) hr₁),
      Holds-serve p k₂ daemons (p ∷ ds) (register-Holds k₁ daemons p ds nz nd hd₁),
      Holds-serve p k₂ zombies zs
          (register-Holds_other k₁ daemons zombies p zs (λ h. cc) (inr nzs) hz₁),
      ground arith,
    )
