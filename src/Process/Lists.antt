-- ===== src/Process/Lists.antt =====
-- `q_register_process` and `q_unregister_process` on the linked lists of processes.
pub mod Chain
pub mod Cut
use muxomucota.Base.{
  ℕ, zero, suc, ◌+◌, ◌≤◌, ◌<◌, ◌≡◌, ◌≢◌, Bool, true, false, ◌||◌, not, Option, none, some, ◌==◌,
  if◌then◌else◌, List, [], ◌∷◌, length, All, arith, refl, Bool-cases, inl, inr, ◌⊎◌, ℕ_discrete,
}
use muxomucota.Process.{
  Process, Kernel, Queue, runqueue, daemons, zombies, dead, update, set_head, next_of, with_next,
  is_runqueue,
}

-- `proc->next = *list; *list = proc;`: the compare-and-swap of the source repeats this until no
-- other processor comes between.
pub register : Queue → ℕ → Kernel → Kernel
register l p k = record k {
  proc = update k.proc p (with_next l (k.head l) (k.proc p));
  head = set_head l p k.head;
}

-- A `process_t **`: a list's variable, or the pointer to the next process in a structure.
pub data Link : Type 0 where
  first : Link
  after : ℕ → Link

abbrev pub load : Queue → Link → Kernel → ℕ
load l first k = k.head l
load l (after q) k = next_of l (k.proc q)

abbrev pub store : Queue → Link → ℕ → Kernel → Kernel
store l first p k = record k { head = set_head l p k.head }
store l (after q) p k = record k { proc = update k.proc q (with_next l p (k.proc q)) }

-- The loop for the link that holds `p` or the null pointer; `none` if the fuel runs out.
pub walk : ℕ → Queue → ℕ → Link → Kernel → Option Link
walk zero l p lp k = none
walk (suc fuel) l p lp k =
    let q = load l lp k in
    let more = walk fuel l p (after q) k in if q == 0 || q == p then some lp else more

-- `q_unregister_process` of a process other than the null pointer.
pub unregister : ℕ → Queue → ℕ → Kernel → Option Kernel
unfolding walk
unregister fuel l p k = elim (walk fuel l p first k) [
  | none ↦ none
  | some lp ↦ some (if load l lp k == p then store l lp (next_of l (k.proc p)) k else k)
]
