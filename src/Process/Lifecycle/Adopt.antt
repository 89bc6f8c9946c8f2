-- ===== src/Process/Lifecycle/Adopt.antt =====
-- `adopt_orphans` gives the children of a process to its parent.
use mathlib.Core.Path.{fun_ext}
use muxomucota.Base.{
  ℕ, zero, suc, ◌<◌, ◌≡◌, List, [], ◌∷◌, ◌++◌, length, arith, ◌==◌, if◌then◌else◌, refl, inl, inr,
  ◌⊎◌, ◌∙◌, sym, subst, ap,
}
use muxomucota.Base.Outcome.{ok}
use muxomucota.Process.{Kernel, Queue, runqueue, daemons, zombies, next_of, update}
use muxomucota.Process.Lists.Chain.{Chain, links, Holds}
use muxomucota.Process.Scheduler.Survey.{In}
use muxomucota.Process.Lifecycle.{adopt, adopt_list, adopt_orphans}

abbrev pub new_parent : ℕ → ℕ → ℕ → ℕ
new_parent pid ppid a = if a == pid then ppid else a

-- Between `k` and `k'` the processes `xs` that were children of `pid` became children of `ppid`.
pub record Adopted (pid ppid : ℕ) (xs : List ℕ) (k k' : Kernel) : Type 0 where
  pub parents : (x : ℕ) → In x xs → (k'.proc x).ppid ≡ new_parent pid ppid (k.proc x).ppid
  pub either :
      (x : ℕ)
      → ((k'.proc x).ppid ≡ (k.proc x).ppid)
        ⊎ ((k'.proc x).ppid ≡ new_parent pid ppid (k.proc x).ppid)
  pub rest : (x : ℕ) → adopt 0 (k'.proc x) ≡ adopt 0 (k.proc x)
  pub heads : k'.head ≡ k.head

abbrev step : ℕ → ℕ → ℕ → Kernel → Kernel
step c pid ppid k = record k {
  proc = update k.proc c (if (k.proc c).ppid == pid then adopt ppid (k.proc c) else k.proc c);
}

links-step : (c pid ppid : ℕ) (k : Kernel) (m : Queue) → links (step c pid ppid k) m ≡ links k m
links-step c pid ppid k m = fun_ext (λ x. ground arith)

-- The link of a process depends on nothing that an adoption changes.
pub links-Adopted :
    {pid ppid : ℕ} {xs : List ℕ} {k k' : Kernel}
    → Adopted pid ppid xs k k'
    → (m : Queue) → links k' m ≡ links k m
links-Adopted a m = fun_ext (λ x. ap (next_of m) (a.rest x))

pub Holds-Adopted :
    {pid ppid : ℕ} {xs : List ℕ} {k k' : Kernel}
    → Adopted pid ppid xs k k'
    → (m : Queue) (ys : List ℕ) → Holds k m ys
    → Holds k' m ys
Holds-Adopted a m ys h = rw (links-Adopted a m, a.heads) h

-- An adoption behind one step.
Adopted-step :
    (x pid ppid : ℕ) (xs : List ℕ) (k k' : Kernel)
    → Adopted pid ppid xs (step x pid ppid k) k'
    → Adopted pid ppid (x ∷ xs) k k'
Adopted-step x pid ppid xs k k' a = record {
  parents = λ y i. elim i [
    | inl e ↦ ground (arith, a.either y, e)
    | inr later ↦ ground (arith, a.parents y later)
  ];
  either = λ y. ground (arith, a.either y);
  rest = λ y. ground (arith, a.rest y);
  heads = a.heads;
}

adopt_list-Adopted :
    (fuel : ℕ) (l : Queue) (c pid ppid : ℕ) (xs : List ℕ) (k : Kernel)
    → length xs < fuel
    → Chain (links k l) c xs
    → (k' : Kernel) × (adopt_list fuel l c pid ppid k ≡ ok k') × Adopted pid ppid xs k k'
unfolding adopt_list
adopt_list-Adopted zero l c pid ppid xs k h ch = absurd (omega arith)
adopt_list-Adopted (suc fuel) l c pid ppid [] k h ch = (
  k,
  ground arith,
  record { parents = λ x i. elim i [ ]; either = λ x. inl refl; rest = λ x. refl; heads = refl },
)
adopt_list-Adopted (suc fuel) l c pid ppid (x ∷ xs) k h ch =
    let (k', e, a) =
      adopt_list-Adopted fuel l (links k l x) pid ppid xs (step x pid ppid k) (omega arith)
        (rw (links-step x pid ppid k l) ch.2) in
    let next_same : next_of l ((step x pid ppid k).proc x) ≡ links k l x =
      ap (λ (f : ℕ → ℕ). f x) (links-step x pid ppid k l) in
    (
      k',
      subst (λ (q : ℕ). adopt_list (suc fuel) l q pid ppid k ≡ ok k') (sym ch.0)
          (ground (arith, ch.1, next_same, e)),
      Adopted-step x pid ppid xs k k' a,
    )

-- The parents of the processes after a call of `adopt_orphans` for `parent`.
pub record Orphans (parent : ℕ) (xs : List ℕ) (k k' : Kernel) : Type 0 where
  pub parents :
      (x : ℕ)
      → In x xs
      → (k'.proc x).ppid ≡ new_parent (k.proc parent).pid (k.proc parent).ppid (k.proc x).ppid
  pub rest : (x : ℕ) → adopt 0 (k'.proc x) ≡ adopt 0 (k.proc x)
  pub heads : k'.head ≡ k.head

In-append : (x : ℕ) (xs ys : List ℕ) → In x (xs ++ ys) → In x xs ⊎ In x ys
In-append x [] ys i = inr i
In-append x (y ∷ xs) ys (inl e) = inl (inl e)
In-append x (y ∷ xs) ys (inr i) = elim (In-append x xs ys i) [ inl a ↦ inl (inr a) | inr b ↦ inr b ]

-- Given fuel for the lengths of the lists, `adopt_orphans` returns. Every child of the process in
-- the run queue, among the daemons or the zombies then has the process's parent for its own, every
-- other process of these lists has the parent that it had, and but for the parents nothing changes.
pub adopt_orphans-Orphans :
    (fuel parent : ℕ) (rs ds zs : List ℕ) (k : Kernel)
    → length rs < fuel
    → length ds < fuel
    → length zs < fuel
    → Holds k runqueue rs
    → Holds k daemons ds
    → Holds k zombies zs
    → (k' : Kernel) × (adopt_orphans fuel parent k ≡ ok k') × Orphans parent (rs ++ (ds ++ zs)) k k'
unfolding adopt_orphans
adopt_orphans-Orphans fuel parent rs ds zs k lr ld lz hr hd hz =
    let pid = (k.proc parent).pid in
    let ppid = (k.proc parent).ppid in
    let (k₁, e₁, a₁) = adopt_list-Adopted fuel runqueue (k.head runqueue) pid ppid rs k lr hr in
    let (k₂, e₂, a₂) =
      adopt_list-Adopted fuel daemons (k₁.head daemons) pid ppid ds k₁ ld
        (Holds-Adopted a₁ daemons ds hd) in
    let (k₃, e₃, a₃) =
      adopt_list-Adopted fuel zombies (k₂.head zombies) pid ppid zs k₂ lz
        (Holds-Adopted a₂ zombies zs (Holds-Adopted a₁ zombies zs hz)) in
    (
      k₃,
      ground (arith, e₁, e₂, e₃),
      record {
        parents = λ x i. elim (In-append x rs (ds ++ zs) i) [
          | inl r ↦ ground (arith, a₁.parents x r, a₂.either x, a₃.either x)
          | inr o ↦ elim (In-append x ds zs o) [
            | inl d ↦ ground (arith, a₁.either x, a₂.parents x d, a₃.either x)
            | inr z ↦ ground (arith, a₁.either x, a₂.either x, a₃.parents x z)
          ]
        ];
        rest = λ x. a₃.rest x ∙ a₂.rest x ∙ a₁.rest x;
        heads = a₃.heads ∙ a₂.heads ∙ a₁.heads;
      },
    )

pub links-Orphans :
    {parent : ℕ} {xs : List ℕ} {k k' : Kernel}
    → Orphans parent xs k k'
    → (m : Queue) → links k' m ≡ links k m
links-Orphans a m = fun_ext (λ x. ap (next_of m) (a.rest x))

pub Holds-Orphans :
    {parent : ℕ} {xs : List ℕ} {k k' : Kernel}
    → Orphans parent xs k k'
    → (m : Queue) (ys : List ℕ) → Holds k m ys
    → Holds k' m ys
Holds-Orphans a m ys h = rw (links-Orphans a m, a.heads) h
