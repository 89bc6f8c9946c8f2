-- ===== src/Process/Wait/Sweep.antt =====
-- The dead are swept up, each once.
use muxomucota.Base.{
  ℕ, zero, suc, ◌≤◌, ◌<◌, inl, inr, false, ◌≡◌, ◌≢◌, List, [], ◌∷◌, length, arith, refl, ◌∙◌, sym,
  subst,
}
use muxomucota.Base.Outcome.{ok}
use muxomucota.Process.{Kernel, Queue, dead, set_head, OuterCall, released}
use muxomucota.Process.Pids.{in_use, in_use-relinquish_pid}
use muxomucota.Process.Scheduler.Survey.{In}
use muxomucota.Process.Lists.Chain.{Chain, links, Holds, set_head_self, set_head_ne}
use muxomucota.Process.Wait.{destroy_process_struct, sweep_dead_processes}

-- The calls that give up the structures of the list, the last one first.
abbrev pub releases : List ℕ → List OuterCall → List OuterCall
releases [] calls = calls
releases (x ∷ xs) calls = releases xs (released x ∷ calls)

pub record Swept (xs : List ℕ) (k k' : Kernel) : Type 0 where
  pub none_left : k'.head dead ≡ 0
  pub other_heads : (m : Queue) → dead ≢ m → k'.head m ≡ k.head m
  pub same_processes : k'.proc ≡ k.proc
  pub calls : k'.outer_calls ≡ releases xs k.outer_calls
  pub free_again : (x : ℕ) → In x xs → in_use k'.used_pids (k.proc x).pid ≡ false
  pub other_pids :
      (q : ℕ)
      → 1 ≤ q
      → ((x : ℕ) → In x xs → (1 ≤ (k.proc x).pid) × ((k.proc x).pid ≢ q))
      → in_use k'.used_pids q ≡ in_use k.used_pids q
  pub none_new : (q : ℕ) → in_use k.used_pids q ≡ false → in_use k'.used_pids q ≡ false

-- The state after the first of the dead processes is gone.
abbrev one_less : ℕ → Kernel → Kernel
one_less x k = destroy_process_struct x (record k { head = set_head dead (k.proc x).next k.head })

sweep_one :
    (fuel x : ℕ) (k : Kernel)
    → k.head dead ≡ x
    → x ≢ 0
    → sweep_dead_processes (suc fuel) k ≡ sweep_dead_processes fuel (one_less x k)
unfolding sweep_dead_processes
sweep_one fuel x k e nz = ground (arith, e)

-- Given fuel for the number of the dead, `sweep_dead_processes` ends: the list is empty, every
-- structure in it was given up once, in the order of the list, and its identifier is free again. No
-- identifier that was free gets taken, and where those of the dead are 1 or more, every other one
-- from 1 on is as before; so are the other lists and the contents of all structures.
pub sweep_dead_processes-Swept :
    (fuel : ℕ) (xs : List ℕ) (k : Kernel)
    → length xs < fuel
    → Holds k dead xs
    → (k' : Kernel) × (sweep_dead_processes fuel k ≡ ok k') × Swept xs k k'
unfolding sweep_dead_processes
sweep_dead_processes-Swept zero xs k l h = absurd (omega arith)
sweep_dead_processes-Swept (suc fuel) [] k l h = (
  k,
  ground (arith, h),
  record {
    none_left = h;
    other_heads = λ m ne. refl;
    same_processes = refl;
    calls = refl;
    free_again = λ x i. absurd i;
    other_pids = λ q l ne. refl;
    none_new = λ q n. n;
  },
)
sweep_dead_processes-Swept (suc fuel) (x ∷ xs) k l h =
    let (first, nz, rest) = h in
    let k₁ = one_less x k in
    let first_pid = λ (q : ℕ). in_use-relinquish_pid k.used_pids (k.proc x).pid q in
    let held : Holds k₁ dead xs =
      subst (λ (q : ℕ). Chain (links k dead) q xs) (sym (set_head_self dead (k.proc x).next k.head))
        rest in
    let (k', run, s) = sweep_dead_processes-Swept fuel xs k₁ (omega arith) held in
    (
      k',
      sweep_one fuel x k first nz ∙ run,
      record {
        none_left = s.none_left;
        other_heads = λ m ne. s.other_heads m ne ∙ set_head_ne dead m (k.proc x).next k.head ne;
        same_processes = s.same_processes;
        calls = s.calls;
        free_again = λ y i. elim i [
          | inl e ↦ s.none_new (k.proc y).pid (rw e (ground (arith, first_pid (k.proc x).pid)))
          | inr later ↦ s.free_again y later
        ];
        other_pids = λ q l ne.
            s.other_pids q l (λ y i. ne y (inr i)) ∙ ground (arith, first_pid q, ne x (inl refl));
        none_new = λ q n. s.none_new q (ground (arith, first_pid q));
      },
    )
