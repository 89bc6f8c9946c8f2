-- ===== src/Process/Scheduler/Survey.antt =====
-- What the loop of `schedule` finds in the run queue.
use muxomucota.Base.{
  ℕ, zero, suc, ◌≤◌, ◌<◌, ◌≡◌, Bool, true, ◌==◌, if◌then◌else◌, List, [], ◌∷◌, length, arith, refl,
  Bool-cases, inl, inr, ◌⊎◌, ◌∙◌, sym, subst, ap, ◌&&◌,
}
use muxomucota.Base.Outcome.{ok}
use muxomucota.Process.{Kernel, runqueue, is_active}
use muxomucota.Process.Scheduler.{Choice, waiting, wants_irq, consider, survey}
use muxomucota.Process.Lists.Chain.{Chain, links}

abbrev pub In : ℕ → List ℕ → Type 0
In p [] = ⊥
In p (x ∷ xs) = (p ≡ x) ⊎ In p xs

-- The rounds of the loop over the processes `xs`.
abbrev pub consider_all : Kernel → ℕ → Choice → List ℕ → Choice
consider_all k switch_to c [] = c
consider_all k switch_to c (x ∷ xs) = consider_all k switch_to (consider k switch_to x c) xs

pub survey-Chain :
    (fuel : ℕ) (k : Kernel) (switch_to p : ℕ) (c : Choice) (xs : List ℕ)
    → length xs < fuel
    → Chain (links k runqueue) p xs
    → survey fuel k switch_to p c ≡ ok (consider_all k switch_to c xs)
unfolding survey
survey-Chain zero k switch_to p c xs h ch = absurd (omega arith)
survey-Chain (suc fuel) k switch_to p c [] h ch = ground arith
survey-Chain (suc fuel) k switch_to p c (x ∷ xs) h ch =
    ground (arith, survey-Chain fuel k switch_to (k.proc x).rq_next (consider k switch_to x c) xs)

abbrev pub Active : Kernel → ℕ → Type 0
Active k p = is_active (k.proc p).status ≡ true

abbrev pub wait_of : Kernel → ℕ → ℕ
wait_of k p = waiting k.tick (k.proc p)

module _ (k : Kernel) (switch_to : ℕ) where
  -- `r` is what the loop over `xs` makes of `c`, as to the process that waited longest.
  pub record Longest (xs : List ℕ) (c r : Choice) : Type 0 where
    pub grows : c.max_sched_diff ≤ r.max_sched_diff
    pub bounds : (x : ℕ) → In x xs → Active k x → wait_of k x ≤ r.max_sched_diff
    pub reached :
        ((r.eldest ≡ c.eldest) × (r.max_sched_diff ≡ c.max_sched_diff))
        ⊎ (In r.eldest xs
            × Active k r.eldest
            × (wait_of k r.eldest ≡ r.max_sched_diff)
            × (0 < r.max_sched_diff))

  consider-Longest :
      (x : ℕ) (c : Choice)
      → let r = consider k switch_to x c in
        (c.max_sched_diff ≤ r.max_sched_diff)
        × (Active k x → wait_of k x ≤ r.max_sched_diff)
        × (((r.eldest ≡ c.eldest) × (r.max_sched_diff ≡ c.max_sched_diff))
            ⊎ ((r.eldest ≡ x)
                × Active k x
                × (wait_of k x ≡ r.max_sched_diff)
                × (0 < r.max_sched_diff)))
  unfolding consider
  consider-Longest x c = ground arith

  pub consider_all-Longest :
      (xs : List ℕ) (c : Choice) → Longest xs c (consider_all k switch_to c xs)
  consider_all-Longest [] c = record {
    grows = omega arith;
    bounds = λ x h a. elim h [ ];
    reached = inl (refl, refl);
  }
  consider_all-Longest (x ∷ xs) c =
      let (up, own, step) = consider-Longest x c in
      let rest = consider_all-Longest xs (consider k switch_to x c) in
      record {
        grows = omega (arith, up, rest.grows);
        bounds = λ y h a. elim h [
          | inl e ↦ omega (arith, own (subst (Active k) e a), rest.grows, ap (wait_of k) e)
          | inr later ↦ rest.bounds y later a
        ];
        reached = elim rest.reached [
          | inr (i, a, w, p) ↦ inr (inr i, a, w, p)
          | inl (e, m) ↦ elim step [
            | inl (e', m') ↦ inl (e ∙ e', m ∙ m')
            | inr (e', a, w, p) ↦ inr (
              inl (e ∙ e'),
              subst (Active k) (sym (e ∙ e')) a,
              ap (wait_of k) (e ∙ e') ∙ w ∙ sym m,
              omega (arith, m, p),
            )
          ]
        ];
      }

-- A field of the choice that the loop sets to the process of the round if a test holds.
module _ (k : Kernel) (switch_to : ℕ) (field : Choice → ℕ) (test : ℕ → Bool)
    (round : (x : ℕ) (c : Choice)
      → field (consider k switch_to x c) ≡ (if test x then x else field c)) where
  -- The field is as before, or holds a process that passes the test.
  pub consider_all_sound :
      (xs : List ℕ) (c : Choice)
      → (field (consider_all k switch_to c xs) ≡ field c)
        ⊎ (In (field (consider_all k switch_to c xs)) xs
            × (test (field (consider_all k switch_to c xs)) ≡ true))
  consider_all_sound [] c = inl refl
  consider_all_sound (x ∷ xs) c = elim (consider_all_sound xs (consider k switch_to x c)) [
    | inr (i, t) ↦ inr (inr i, t)
    | inl e ↦ elim (Bool-cases (test x)) [
      | inl t ↦ let q = e ∙ round x c ∙ rw t in inr (inl q, rw q t)
      | inr f ↦ inl (e ∙ round x c ∙ rw f)
    ]
  ]

  -- If some process passes the test, the field holds one that does.
  pub consider_all_complete :
      (xs : List ℕ) (c : Choice) (x : ℕ)
      → In x xs
      → test x ≡ true
      → In (field (consider_all k switch_to c xs)) xs
        × (test (field (consider_all k switch_to c xs)) ≡ true)
  consider_all_complete [] c x h t = elim h [ ]
  consider_all_complete (y ∷ ys) c x (inl e) t =
      elim (consider_all_sound ys (consider k switch_to y c)) [
        | inr (i, u) ↦ (inr i, u)
        | inl f ↦
            let u : test y ≡ true = rw (← e) t in let q = f ∙ round y c ∙ rw u in (inl q, rw q u)
      ]
  consider_all_complete (y ∷ ys) c x (inr h) t =
      let (i, u) = consider_all_complete ys (consider k switch_to y c) x h t in (inr i, u)

abbrev pub is_target : Kernel → ℕ → ℕ → Bool
is_target k switch_to p = is_active (k.proc p).status && (k.proc p).pid == switch_to

abbrev pub is_irq : Kernel → ℕ → Bool
is_irq k p = is_active (k.proc p).status && wants_irq (k.proc p)

pub consider-switch_target :
    (k : Kernel) (switch_to x : ℕ) (c : Choice)
    → (consider k switch_to x c).switch_target
      ≡ (if is_target k switch_to x then x else c.switch_target)
unfolding consider
consider-switch_target k switch_to x c = ground arith

pub consider-irq_process :
    (k : Kernel) (switch_to x : ℕ) (c : Choice)
    → (consider k switch_to x c).irq_process ≡ (if is_irq k x then x else c.irq_process)
unfolding consider
consider-irq_process k switch_to x c = ground arith
