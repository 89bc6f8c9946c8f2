-- ===== src/Process/Lifecycle/Destroy.antt =====
-- What `destroy_process` makes of the lists.
use mathlib.Core.Path.{fun_ext}
use muxomucota.Base.{ℕ, ◌<◌, ◌≡◌, ◌≢◌, List, ◌∷◌, ◌++◌, length, arith, refl, inl, inr, ◌∙◌, ap}
use muxomucota.Base.Outcome.{ok}
use muxomucota.Process.{Process, Kernel, Queue, runqueue, daemons, zombies, dead, zombie, update}
use muxomucota.Process.Lists.{register}
use muxomucota.Process.Lists.Chain.{
  links, Holds, NotIn, Distinct, remove, register-Holds, register-Holds_other, head-register_other,
  ppid-register, pid-register,
}
use muxomucota.Process.Lists.Cut.{Removed, unregister-Removed}
use muxomucota.Process.Scheduler.Survey.{In}
use muxomucota.Process.Lifecycle.{ending, leave_irq, destroy_process}
use muxomucota.Process.Lifecycle.Adopt.{new_parent, adopt_orphans-Orphans, Holds-Orphans}

leave_irq-link : (p : ℕ) (k : Kernel) (m : Queue) (x : ℕ) → links (leave_irq p k) m x ≡ links k m x
leave_irq-link p k m x = ground arith

leave_irq-names :
    (p : ℕ) (k : Kernel) (x : ℕ)
    → (((leave_irq p k).proc x).pid ≡ (k.proc x).pid)
      × (((leave_irq p k).proc x).ppid ≡ (k.proc x).ppid)
leave_irq-names p k x = (ground arith, ground arith)

leave_irq-current : (p : ℕ) (k : Kernel) → (leave_irq p k).current_process ≡ k.current_process
leave_irq-current p k = ground arith

Holds-leave_irq :
    (p : ℕ) (k : Kernel) (m : Queue) (ys : List ℕ) → Holds k m ys → Holds (leave_irq p k) m ys
Holds-leave_irq p k m ys c =
    let same : links (leave_irq p k) m ≡ links k m = fun_ext (leave_irq-link p k m) in
    let heads : (leave_irq p k).head ≡ k.head = ground arith in rw (same, heads) c

-- A list other than the run queue is as before once a process left the run queue.
pub Holds-Removed :
    (p : ℕ) (xs : List ℕ) (k k' : Kernel) (m : Queue) (ys : List ℕ)
    → runqueue ≢ m
    → Removed runqueue p xs k k'
    → Holds k m ys
    → Holds k' m ys
Holds-Removed p xs k k' runqueue ys ne r h = absurd (ne refl)
Holds-Removed p xs k k' daemons ys ne r h =
    let same : links k' daemons ≡ links k daemons =
      fun_ext (λ x. ap (λ (q : Process). q.next) (r.contents x)) in
    rw (same, r.other_heads daemons ne) h
Holds-Removed p xs k k' zombies ys ne r h =
    let same : links k' zombies ≡ links k zombies =
      fun_ext (λ x. ap (λ (q : Process). q.next) (r.contents x)) in
    rw (same, r.other_heads zombies ne) h
Holds-Removed p xs k k' dead ys ne r h =
    let same : links k' dead ≡ links k dead =
      fun_ext (λ x. ap (λ (q : Process). q.next) (r.contents x)) in
    rw (same, r.other_heads dead ne) h

-- The last writes of `destroy_process`.
abbrev bury : ℕ → ℕ → Kernel → Kernel
bury p info k = record k {
  proc = update k.proc p (record (k.proc p) { exit_info = info; status = zombie });
}

Holds-bury :
    (p info : ℕ) (k : Kernel) (m : Queue) (ys : List ℕ) → Holds k m ys → Holds (bury p info k) m ys
Holds-bury p info k m ys h =
    let same : links (bury p info k) m ≡ links k m = fun_ext (λ x. ground arith) in rw same h

-- The lists, and what is written of the process, after `destroy_process`.
pub record Destroyed (p info : ℕ) (rs ds zs : List ℕ) (k k' : Kernel) : Type 0 where
  pub queue : Holds k' runqueue (remove p rs)
  pub undead : Holds k' zombies (p ∷ zs)
  pub served : Holds k' daemons ds
  pub status : (k'.proc p).status ≡ zombie
  pub pids : (x : ℕ) → (k'.proc x).pid ≡ (k.proc x).pid
  pub info_kept : (k'.proc p).exit_info ≡ info
  pub parents :
      (x : ℕ)
      → In x (rs ++ (ds ++ zs))
      → (k'.proc x).ppid ≡ new_parent (k.proc p).pid (k.proc p).ppid (k.proc x).ppid

-- The state between the run queue and the zombies.
record Unqueued (p : ℕ) (rs ds zs : List ℕ) (k k₂ : Kernel) : Type 0 where
  queue : Holds k₂ runqueue (remove p rs)
  served : Holds k₂ daemons ds
  undead : Holds k₂ zombies zs
  pids : (x : ℕ) → (k₂.proc x).pid ≡ (k.proc x).pid
  parents :
      (x : ℕ)
      → In x (rs ++ (ds ++ zs))
      → (k₂.proc x).ppid ≡ new_parent (k.proc p).pid (k.proc p).ppid (k.proc x).ppid

module _ (fuel p info : ℕ) (rs ds zs : List ℕ) (k : Kernel) (lr : length rs < fuel)
    (ld : length ds < fuel) (lz : length zs < fuel) (nz : p ≢ 0) (dis : Distinct rs)
    (hr : Holds k runqueue rs) (hd : Holds k daemons ds) (hz : Holds k zombies zs) where
  destroy_steps :
      (k₂ : Kernel) × (destroy_process fuel p info k
        ≡ ok (ending p k, bury p info (register zombies p k₂)))
      × Unqueued p rs ds zs k k₂
  unfolding destroy_process
  destroy_steps =
      let here = λ (m : Queue) (ys : List ℕ) (h : Holds k m ys). Holds-leave_irq p k m ys h in
      let (k₁, e₁, o) =
        adopt_orphans-Orphans fuel p rs ds zs (leave_irq p k) lr ld lz (here runqueue rs hr)
          (here daemons ds hd) (here zombies zs hz) in
      let (k₂, e₂, u) =
        unregister-Removed fuel runqueue p rs k₁ lr nz dis
          (Holds-Orphans o runqueue rs (here runqueue rs hr)) in
      (
        k₂,
        ground (arith, e₁, e₂, leave_irq-current p k),
        record {
          queue = u.holds;
          served =
              Holds-Removed p rs k₁ k₂ daemons ds (λ h. cc) u
                (Holds-Orphans o daemons ds (here daemons ds hd));
          undead =
              Holds-Removed p rs k₁ k₂ zombies zs (λ h. cc) u
                (Holds-Orphans o zombies zs (here zombies zs hz));
          pids = λ x.
              ap (λ (q : Process). q.pid) (u.contents x)
              ∙ ap (λ (q : Process). q.pid) (o.rest x)
              ∙ (leave_irq-names p k x).0;
          parents = λ x i.
              ap (λ (q : Process). q.ppid) (u.contents x)
              ∙ ground (arith, o.parents x i, leave_irq-names p k p, leave_irq-names p k x);
        },
      )

  -- The run queue, which has each process once, the daemons and the zombies are lists, with fuel
  -- for their lengths. `destroy_process` of a process that is neither a daemon nor a zombie returns,
  -- unless that is the current process: then it lets others run for ever, in the state that it
  -- would else return in. It takes the process out of the run queue and puts it in front of the
  -- zombies; these lists are otherwise the same, and so is that of the daemons. The process is a
  -- zombie with its exit information, and its children in these lists are its parent's.
  pub destroy_process_lem :
      NotIn p ds
      → NotIn p zs
      → (k' : Kernel) × (destroy_process fuel p info k ≡ ok (ending p k, k'))
        × Destroyed p info rs ds zs k k'
  destroy_process_lem nd nzs =
      let (k₂, e, u) = destroy_steps in
      let k₃ = register zombies p k₂ in
      (
        bury p info k₃,
        e,
        record {
          queue = Holds-bury p info k₃ runqueue (remove p rs) (
              register-Holds_other k₂ zombies runqueue p (remove p rs) (λ h. cc) (inl (λ h. cc))
                u.queue);
          undead =
              Holds-bury p info k₃ zombies (p ∷ zs)
                (register-Holds k₂ zombies p zs nz nzs u.undead);
          served =
              Holds-bury p info k₃ daemons ds
                (register-Holds_other k₂ zombies daemons p ds (λ h. cc) (inr nd) u.served);
          status = ground arith;
          pids = λ x. ground (arith, pid-register zombies p x k₂, u.pids x);
          info_kept = ground arith;
          parents = λ x i. ground (arith, ppid-register zombies p x k₂, u.parents x i);
        },
      )

-- The zombies and the daemons are linked through one pointer. So `destroy_process` of the first
-- daemon, `p`, leaves a list of daemons that goes on with the zombies: the other daemons `ds` are no
-- longer in it.
pub destroy_process_daemon :
    (fuel p info : ℕ) (rs ds zs : List ℕ) (k : Kernel)
    → length rs < fuel
    → length (p ∷ ds) < fuel
    → length zs < fuel
    → p ≢ 0
    → Distinct rs
    → NotIn p zs
    → Holds k runqueue rs
    → Holds k daemons (p ∷ ds)
    → Holds k zombies zs
    → (k' : Kernel) × (destroy_process fuel p info k ≡ ok (ending p k, k'))
      × Holds k' daemons (p ∷ zs)
destroy_process_daemon fuel p info rs ds zs k lr ld lz nz dis nzs hr hd hz =
    let (k₂, e, u) = destroy_steps fuel p info rs (p ∷ ds) zs k lr ld lz nz dis hr hd hz in
    let k₃ = register zombies p k₂ in
    let zs_behind = register-Holds k₂ zombies p zs nz nzs u.undead in
    (
      bury p info k₃,
      e,
      Holds-bury p info k₃ daemons (p ∷ zs)
          (head-register_other zombies daemons p k₂ (λ h. cc) ∙ u.served.0, nz, zs_behind.2),
    )
