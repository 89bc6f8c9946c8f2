-- ===== src/Process/Lifecycle/Find.antt =====
-- What `find_process` finds.
use muxomucota.Base.{
  ℕ, zero, suc, ◌<◌, ◌≡◌, ◌≢◌, List, [], ◌∷◌, length, arith, ◌==◌, if◌then◌else◌, refl, inl, inr,
  ◌⊎◌, ◌∙◌, sym, subst, ap, ℕ_discrete,
}
use muxomucota.Base.Outcome.{ok}
use muxomucota.Process.{Kernel, Queue, runqueue, daemons}
use muxomucota.Process.Lists.Chain.{Chain, links, Holds}
use muxomucota.Process.Scheduler.Survey.{In}
use muxomucota.Process.Lifecycle.{find_process_in, find_process}

-- The search of a list by its contents: 0 if there is no such process.
abbrev pub first_named : Kernel → ℕ → List ℕ → ℕ
first_named k pid [] = 0
first_named k pid (x ∷ xs) = if (k.proc x).pid == pid then x else first_named k pid xs

pub find_process_in-Chain :
    (fuel : ℕ) (l : Queue) (q pid : ℕ) (xs : List ℕ) (k : Kernel)
    → length xs < fuel
    → Chain (links k l) q xs
    → find_process_in fuel l q pid k ≡ ok (first_named k pid xs)
unfolding find_process_in
find_process_in-Chain zero l q pid xs k h c = absurd (omega arith)
find_process_in-Chain (suc fuel) l q pid [] k h c = ground arith
find_process_in-Chain (suc fuel) l q pid (x ∷ xs) k h c =
    ground (arith, find_process_in-Chain fuel l (links k l x) pid xs k)

first_named_cases :
    (f : ℕ → ℕ) (q : ℕ) (k : Kernel) (pid : ℕ) (xs : List ℕ)
    → Chain f q xs
    → (first_named k pid xs ≡ 0) × ((x : ℕ) → In x xs → (k.proc x).pid ≢ pid)
      ⊎ (first_named k pid xs ≢ 0)
        × In (first_named k pid xs) xs
        × ((k.proc (first_named k pid xs)).pid ≡ pid)
first_named_cases f q k pid [] c = inl (refl, λ x i. elim i [ ])
first_named_cases f q k pid (x ∷ xs) c = elim (ℕ_discrete (k.proc x).pid pid) [
  | yes e ↦
      let here : first_named k pid (x ∷ xs) ≡ x = ground arith in
      inr (λ z. c.1 (sym here ∙ z), inl here, rw here e)
  | no ne ↦
      let later : first_named k pid (x ∷ xs) ≡ first_named k pid xs = ground arith in
      elim (first_named_cases f (f x) k pid xs c.2) [
        | inl (z, all) ↦ inl (
          later ∙ z,
          λ y i. elim i [
            | inl e ↦ λ h. ne (ap (λ (n : ℕ). (k.proc n).pid) (sym e) ∙ h)
            | inr r ↦ all y r
          ],
        )
        | inr (nz, i, e) ↦ inr (
          λ z. nz (sym later ∙ z),
          inr (subst (λ (n : ℕ). In n xs) (sym later) i),
          ap (λ (n : ℕ). (k.proc n).pid) later ∙ e,
        )
      ]
]

-- Given fuel for the lengths of the lists, `find_process` returns a process of the run queue or of
-- the daemons with the identifier, or the null pointer if neither list has one.
pub find_process_lem :
    (fuel pid : ℕ) (rs ds : List ℕ) (k : Kernel)
    → length rs < fuel
    → length ds < fuel
    → Holds k runqueue rs
    → Holds k daemons ds
    → (p : ℕ) × (find_process fuel pid k ≡ ok p)
      × ((p ≡ 0) × ((x : ℕ) → In x rs ⊎ In x ds → (k.proc x).pid ≢ pid)
          ⊎ (p ≢ 0) × (In p rs ⊎ In p ds) × ((k.proc p).pid ≡ pid))
unfolding find_process
find_process_lem fuel pid rs ds k lr ld hr hd =
    let er = find_process_in-Chain fuel runqueue (k.head runqueue) pid rs k lr hr in
    let ed = find_process_in-Chain fuel daemons (k.head daemons) pid ds k ld hd in
    elim (first_named_cases (links k runqueue) (k.head runqueue) k pid rs hr) [
      | inr (nz, i, e) ↦ (first_named k pid rs, ground (arith, er), inr (nz, inl i, e))
      | inl (z, none_there) ↦ (
        first_named k pid ds,
        ground (arith, er, ed),
        elim (first_named_cases (links k daemons) (k.head daemons) k pid ds hd) [
          | inr (nz, i, e) ↦ inr (nz, inr i, e)
          | inl (zd, none_here) ↦
              inl (zd, λ x i. elim i [ inl r ↦ none_there x r | inr d ↦ none_here x d ])
        ],
      )
    ]
