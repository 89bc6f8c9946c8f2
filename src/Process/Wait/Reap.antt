-- ===== src/Process/Wait/Reap.antt =====
-- What becomes of a process that ended: its parent learns how, and its identifier is free again.
use muxomucota.Base.{
  ℕ, ◌<◌, ◌≤◌, ◌≡◌, ◌≢◌, Bool, true, some, List, [], ◌∷◌, length, arith, inl, inr, ◌⊎◌, ◌∙◌, sym,
  subst, ap, ℕ_discrete,
}
use muxomucota.Base.Outcome.{ok}
use muxomucota.Process.{Kernel, Queue, runqueue, daemons, zombies}
use muxomucota.Process.Lists.{unregister}
use muxomucota.Process.Lists.Chain.{Holds, NotIn, Distinct, remove}
use muxomucota.Process.Lists.Cut.{unregister-Removed}
use muxomucota.Process.Scheduler.Survey.{In}
use muxomucota.Process.Lifecycle.{find_process_in, ending, destroy_process}
use muxomucota.Process.Lifecycle.Find.{first_named, find_process_in-Chain, find_process_lem}
use muxomucota.Process.Lifecycle.Destroy.{destroy_process_lem}
use muxomucota.Process.Wait.{reaped, is_zombie, destroy_process_struct, find_waited, raw_waitpid}

-- A list without `y` does not hold it.
NotIn-In : (y x : ℕ) (xs : List ℕ) → NotIn y xs → In x xs → x ≢ y
NotIn-In y x [] n i = elim i [ ]
NotIn-In y x (z ∷ xs) n (inl e) = λ h. n.0 (sym e ∙ h)
NotIn-In y x (z ∷ xs) n (inr i) = NotIn-In y x xs n.1 i

length-remove : (p : ℕ) (xs : List ℕ) → length (remove p xs) ≤ length xs
length-remove p [] = omega arith
length-remove p (x ∷ xs) = ground (arith, length-remove p xs)

remove_head : (p : ℕ) (xs : List ℕ) → remove p (p ∷ xs) ≡ xs
remove_head p xs = ground arith

first_named_head :
    (k : Kernel) (p pid : ℕ) (xs : List ℕ) → (k.proc p).pid ≡ pid → first_named k pid (p ∷ xs) ≡ p
first_named_head k p pid xs h = ground arith

In-remove : (x p : ℕ) (xs : List ℕ) → Distinct xs → In x (remove p xs) → In x xs × (x ≢ p)
In-remove x p [] d i = elim i [ ]
In-remove x p (y ∷ xs) d i = elim (ℕ_discrete y p) [
  | yes e ↦
      let here : remove p (y ∷ xs) ≡ xs = ground arith in
      let j = subst (λ (l : List ℕ). In x l) here i in
      (inr j, λ h. NotIn-In y x xs d.0 j (h ∙ sym e))
  | no ne ↦
      let later : remove p (y ∷ xs) ≡ y ∷ remove p xs = ground arith in
      elim (subst (λ (l : List ℕ). In x l) later i) [
        | inl e ↦ (inl e, λ h. ne (sym e ∙ h))
        | inr j ↦ let (m, q) = In-remove x p xs d.1 j in (inr m, q)
      ]
]

find_waited-zombie :
    (fuel p pid : ℕ) (rs ds zs : List ℕ) (k : Kernel)
    → length rs < fuel
    → length ds < fuel
    → length (p ∷ zs) < fuel
    → Holds k runqueue rs
    → Holds k daemons ds
    → Holds k zombies (p ∷ zs)
    → (k.proc p).pid ≡ pid
    → ((x : ℕ) → In x rs ⊎ In x ds → (k.proc x).pid ≢ pid)
    → find_waited fuel pid k ≡ ok p
unfolding find_waited
find_waited-zombie fuel p pid rs ds zs k lr ld lz hr hd hz named other =
    let (q, found, what) = find_process_lem fuel pid rs ds k lr ld hr hd in
    let in_zombies : find_process_in fuel zombies (k.head zombies) pid k ≡ ok p =
      find_process_in-Chain fuel zombies (k.head zombies) pid (p ∷ zs) k lz hz
      ∙ ap (λ (n : ℕ). ok n) (first_named_head k p pid zs named) in
    elim what [
      | inl (z, _) ↦ ground (arith, found, z, in_zombies)
      | inr (nz, i, e) ↦ absurd (other q i e)
    ]

raw_waitpid_found :
    (fuel : ℕ) (hang : Bool) (p pid : ℕ) (k k' : Kernel)
    → find_waited fuel pid k ≡ ok p
    → p ≢ 0
    → is_zombie (k.proc p).status ≡ true
    → unregister fuel zombies p k ≡ some k'
    → raw_waitpid fuel hang pid k
      ≡ ok (reaped (k.proc p).pid (k.proc p).exit_info (destroy_process_struct p k'))
unfolding raw_waitpid
raw_waitpid_found fuel hang p pid k k' f nz z u = ground (arith, f, u)

-- What a parent learns of a child that ended, and what is left of the child.
pub record Reaped (p info : ℕ) (zs : List ℕ) (k' k'' : Kernel) : Type 0 where
  pub undead : Holds k'' zombies zs
  pub others : (w : ℕ) → NotIn w (p ∷ zs) → k''.proc w ≡ k'.proc w
  pub other_heads : (m : Queue) → zombies ≢ m → k''.head m ≡ k'.head m

-- A process of the run queue ends, by `destroy_process`, and a process waits for it, by
-- `raw_waitpid` with its identifier, which no other process of the run queue and no daemon has. Given
-- fuel for the lengths of the lists, the wait returns at once, with the identifier and the exit
-- information of the process, whose structure is given up; the zombies are those of before.
pub raw_waitpid-destroy_process :
    (fuel p info : ℕ) (hang : Bool) (rs ds zs : List ℕ) (k : Kernel)
    → length rs < fuel
    → length ds < fuel
    → length (p ∷ zs) < fuel
    → p ≢ 0
    → Distinct rs
    → Distinct (p ∷ zs)
    → NotIn p ds
    → Holds k runqueue rs
    → Holds k daemons ds
    → Holds k zombies zs
    → ((x : ℕ) → In x rs ⊎ In x ds → x ≢ p → (k.proc x).pid ≢ (k.proc p).pid)
    → (k' k'' : Kernel) × (destroy_process fuel p info k ≡ ok (ending p k, k'))
      × (raw_waitpid fuel hang (k.proc p).pid k'
          ≡ ok (reaped (k.proc p).pid info (destroy_process_struct p k'')))
      × Reaped p info zs k' k''
raw_waitpid-destroy_process fuel p info hang rs ds zs k lr ld lz nz dr dz nd hr hd hz unique =
    let (k', e, d) =
      destroy_process_lem fuel p info rs ds zs k lr ld (omega arith) nz dr hr hd hz nd dz.0 in
    let (k'', u, r) = unregister-Removed fuel zombies p (p ∷ zs) k' lz nz dz d.undead in
    let named : (k'.proc p).pid ≡ (k.proc p).pid = d.pids p in
    let other : (x : ℕ) → In x (remove p rs) ⊎ In x ds → (k'.proc x).pid ≢ (k.proc p).pid = λ x i h.
      elim i [
        | inl j ↦ let (m, ne) = In-remove x p rs dr j in unique x (inl m) ne (sym (d.pids x) ∙ h)
        | inr j ↦ unique x (inr j) (λ same. NotIn-In p x ds nd j same) (sym (d.pids x) ∙ h)
      ] in
    let f =
      find_waited-zombie fuel p (k.proc p).pid (remove p rs) ds zs k'
        (omega (arith, lr, length-remove p rs)) ld lz d.queue d.served d.undead named other in
    (
      k',
      k'',
      e,
      raw_waitpid_found fuel hang p (k.proc p).pid k' k'' f nz (ap is_zombie d.status) u
          ∙ ap (λ (n : ℕ). ok (reaped n (k'.proc p).exit_info (destroy_process_struct p k''))) named
          ∙ ap (λ (n : ℕ). ok (reaped (k.proc p).pid n (destroy_process_struct p k''))) d.info_kept,
      record {
        undead = subst (λ (l : List ℕ). Holds k'' zombies l) (remove_head p zs) r.holds;
        others = r.frame;
        other_heads = r.other_heads;
      },
    )
