-- ===== src/Process/Interrupts/Handlers.antt =====
-- Which handlers an interrupt has, and what an interrupt does to the processes among them.
use muxomucota.Base.{
  ℕ, ◌+◌, ◌≤◌, ◌≡◌, Bool, true, false, Option, none, some, List, [], ◌∷◌, ◌==◌, if◌then◌else◌,
  update, arith, refl, ◌∙◌, Bool-cases, inl, inr,
}
use muxomucota.Process.{Process, Kernel, active, Isr, kernel_isr, process_isr, handled}
use muxomucota.Process.Interrupts.{
  is_owned, unlink, unregister_isr_process, is_daemon, start_handler, run_handlers,
  common_irq_handler,
}

-- How many handlers of a list are the process's.
abbrev pub owners : ℕ → List Isr → ℕ
owners p [] = 0
owners p (h ∷ hs) = (if is_owned p h then 1 else 0) + owners p hs

abbrev pub without : ℕ → List Isr → List Isr
without p [] = []
without p (h ∷ hs) = if is_owned p h then without p hs else h ∷ without p hs

-- The loop that goes on behind the next handler misses none, as a process has one at most.
unlink-without : (p : ℕ) (hs : List Isr) → owners p hs ≤ 1 → unlink p hs ≡ without p hs
unfolding unlink
unlink-without p [] h = refl
unlink-without p (x ∷ []) h = ground arith
unlink-without p (x ∷ y ∷ hs) h = ground (arith, unlink-without p hs, unlink-without p (y ∷ hs))

owners-without :
    (p q : ℕ) (hs : List Isr) → owners p (without q hs) ≡ (if q == p then 0 else owners p hs)
owners-without p q [] = ground arith
owners-without p q (kernel_isr handler ∷ hs) = ground (arith, owners-without p q hs)
owners-without p q (process_isr r handler info ∷ hs) = ground (arith, owners-without p q hs)

abbrev pub handles : Option ℕ → ℕ → Bool
handles none irq = false
handles (some i) irq = i == irq

-- A process has a handler for the interrupt that it handles, and no other.
abbrev pub IsRegistered : Kernel → Type 0
IsRegistered k =
    (irq p : ℕ) → owners p (k.handlers irq) ≡ (if handles (k.proc p).handled_irq irq then 1 else 0)

owners-le-one : (k : Kernel) → IsRegistered k → (irq p : ℕ) → owners p (k.handlers irq) ≤ 1
owners-le-one k r irq p = ground (arith, r irq p)

-- Where a process has a handler for the interrupt that it handles and no other,
-- `unregister_isr_process` takes all its handlers out of the lists and leaves all others there, in
-- their order, and the same holds afterwards.
pub unregister_isr_process_lem :
    (p : ℕ) (k : Kernel)
    → IsRegistered k
    → IsRegistered (unregister_isr_process p k)
      × ((irq : ℕ) → (unregister_isr_process p k).handlers irq ≡ without p (k.handlers irq))
unregister_isr_process_lem p k r =
    let gone = λ (irq : ℕ). unlink-without p (k.handlers irq) (owners-le-one k r irq p) in
    (λ irq q. ground (arith, gone irq, r irq q, owners-without q p (k.handlers irq)), gone)

-- What an interrupt with the handlers `hs` makes of the process `p`.
abbrev pub started : ℕ → List Isr → Process → Process
started p [] s = s
started p (kernel_isr handler ∷ hs) s = started p hs s
started p (process_isr q handler info ∷ hs) s =
    if q == p
    then (if is_daemon s.status
        then record s {
          handling_irq = true;
          fresh_irq = true;
          status = active;
          eip = handler;
          esp = s.irq_stack_top;
          cs = 0x1b;
          eax = info;
        }
        else s)
    else started p hs s

-- The handlers that belong to daemons.
abbrev pub waiting_daemons : List Isr → (ℕ → Process) → ℕ
waiting_daemons [] proc = 0
waiting_daemons (kernel_isr handler ∷ hs) proc = waiting_daemons hs proc
waiting_daemons (process_isr p handler info ∷ hs) proc =
    (if is_daemon (proc p).status then 1 else 0) + waiting_daemons hs proc

started_none : (p : ℕ) (hs : List Isr) (s : Process) → owners p hs ≡ 0 → started p hs s ≡ s
started_none p [] s h = refl
started_none p (kernel_isr handler ∷ hs) s h = started_none p hs s (omega arith)
started_none p (process_isr q handler info ∷ hs) s h = ground (arith, started_none p hs s)

waiting_daemons-update :
    (p : ℕ) (s : Process) (hs : List Isr) (proc : ℕ → Process)
    → owners p hs ≡ 0
    → waiting_daemons hs (update proc p s) ≡ waiting_daemons hs proc
waiting_daemons-update p s [] proc h = refl
waiting_daemons-update p s (kernel_isr handler ∷ hs) proc h =
    waiting_daemons-update p s hs proc (omega arith)
waiting_daemons-update p s (process_isr q handler info ∷ hs) proc h =
    ground (arith, waiting_daemons-update p s hs proc)

-- What a run over handlers does.
pub record Interrupted (hs : List Isr) (n : ℕ) (k : Kernel) (r : ℕ × Kernel) : Type 0 where
  pub spawned : r.0 ≡ n + waiting_daemons hs k.proc
  pub processes : (p : ℕ) → r.1.proc p ≡ started p hs (k.proc p)
  pub same_handlers : r.1.handlers ≡ k.handlers
  pub same_heads : r.1.head ≡ k.head

run_handlers-Interrupted :
    (hs : List Isr) (n : ℕ) (k : Kernel)
    → ((p : ℕ) → owners p hs ≤ 1)
    → Interrupted hs n k (run_handlers hs n k)
unfolding run_handlers
run_handlers-Interrupted [] n k h = record {
  spawned = omega arith;
  processes = λ p. refl;
  same_handlers = refl;
  same_heads = refl;
}
run_handlers-Interrupted (kernel_isr handler ∷ hs) n k h =
    let k₁ = record k { outer_calls = handled handler ∷ k.outer_calls } in
    let r = run_handlers-Interrupted hs n k₁ (λ p. omega (arith, h p)) in
    record {
      spawned = r.spawned;
      processes = r.processes;
      same_handlers = r.same_handlers;
      same_heads = r.same_heads;
    }
run_handlers-Interrupted (process_isr p handler info ∷ hs) n k h =
    elim (Bool-cases (is_daemon (k.proc p).status)) [
      | inl d ↦
          let k₁ = start_handler p handler info k in
          let alone : owners p hs ≡ 0 = ground (arith, h p) in
          let r = run_handlers-Interrupted hs (n + 1) k₁ (λ q. ground (arith, h q)) in
          rw d (record {
            spawned =
                ground (arith, r.spawned, waiting_daemons-update p (k₁.proc p) hs k.proc alone);
            processes = λ q. r.processes q ∙ ground (arith, started_none q hs (k₁.proc q), alone);
            same_handlers = r.same_handlers;
            same_heads = r.same_heads;
          })
      | inr d ↦
          let alone : owners p hs ≡ 0 = ground (arith, h p) in
          let r = run_handlers-Interrupted hs n k (λ q. ground (arith, h q)) in
          rw d (record {
            spawned = ground (arith, r.spawned);
            processes = λ q. r.processes q ∙ ground (arith, started_none q hs (k.proc q), alone);
            same_handlers = r.same_handlers;
            same_heads = r.same_heads;
          })
    ]

-- Where a process has a handler for the interrupt that it handles and no other, an interrupt starts
-- each daemon that has a handler for it: the daemon is active and has a fresh interrupt to handle,
-- by the handler and the argument that it registered, on its stack for interrupts. It returns their
-- number; it changes no other process and no list.
pub common_irq_handler-Interrupted :
    (irq : ℕ) (k : Kernel)
    → IsRegistered k
    → Interrupted (k.handlers irq) 0 k (common_irq_handler irq k)
unfolding common_irq_handler
common_irq_handler-Interrupted irq k r =
    run_handlers-Interrupted (k.handlers irq) 0 k (λ p. owners-le-one k r irq p)
