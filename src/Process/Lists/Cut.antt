-- ===== src/Process/Lists/Cut.antt =====
-- `q_unregister_process` takes one process out of a list.
use mathlib.Core.Path.{ap}
use muxomucota.Base.{
  ℕ, zero, suc, ◌<◌, ◌≡◌, ◌≢◌, ◌||◌, some, ◌==◌, if◌then◌else◌, List, [], ◌∷◌, length, arith, refl,
  ℕ_discrete, ◌∙◌, sym, subst,
}
use muxomucota.Process.{
  Process, Kernel, Queue, runqueue, daemons, zombies, dead, next_of, with_next,
}
use muxomucota.Process.Lists.{Link, first, after, load, store, walk, unregister}
use muxomucota.Process.Lists.Chain.{
  Chain, links, Holds, NotIn, Distinct, remove, Chain-congr, set_head_self, set_head_ne,
  links-update_self, links-update_ne,
}

-- What the last step of `q_unregister_process` does at the link that the loop stopped at.
abbrev cut : Queue → ℕ → Link → Kernel → Kernel
cut l p lp k = if load l lp k == p then store l lp (next_of l (k.proc p)) k else k

-- Behind the link `lp` the list held `xs`; now `p` is gone from it, and all else is the same.
record Cut (l : Queue) (p : ℕ) (lp : Link) (xs : List ℕ) (k k' : Kernel) : Type 0 where
  chain : Chain (links k' l) (load l lp k') (remove p xs)
  frame : (w : ℕ) → NotIn w xs → lp ≢ after w → k'.proc w ≡ k.proc w
  head_frame : lp ≢ first → k'.head ≡ k.head
  other_heads : (m : Queue) → l ≢ m → k'.head m ≡ k.head m
  contents : (w : ℕ) → with_next l 0 (k'.proc w) ≡ with_next l 0 (k.proc w)

with_next-with_next :
    (l : Queue) (a b : ℕ) (p : Process) → with_next l a (with_next l b p) ≡ with_next l a p
with_next-with_next runqueue a b p = refl
with_next-with_next daemons a b p = refl
with_next-with_next zombies a b p = refl
with_next-with_next dead a b p = refl

-- The link `lp` does not stand in a process of `xs`.
abbrev Before : Link → List ℕ → Type 0
Before first xs = Unit {0}
Before (after y) xs = NotIn y xs

remove_self : (p : ℕ) (xs : List ℕ) → remove p (p ∷ xs) ≡ xs
remove_self p xs = ground arith

remove_other : (p x : ℕ) (xs : List ℕ) → x ≢ p → remove p (x ∷ xs) ≡ x ∷ remove p xs
remove_other p x xs ne = ground arith

-- The link that holds `p` itself.
Cut-here :
    (l : Queue) (p : ℕ) (lp : Link) (xs : List ℕ) (k : Kernel)
    → p ≢ 0
    → Before lp (p ∷ xs)
    → load l lp k ≡ p
    → Chain (links k l) (links k l p) xs
    → Cut l p lp (p ∷ xs) k (store l lp (next_of l (k.proc p)) k)
Cut-here l p first xs k nz b e c = record {
  chain = rw (remove_self p xs) (
      subst (λ (q : ℕ). Chain (links k l) q xs)
        (sym (set_head_self l (next_of l (k.proc p)) k.head)) c);
  frame = λ w n ne. refl;
  head_frame = λ ne. absurd (ne refl);
  other_heads = λ m ne. set_head_ne l m (next_of l (k.proc p)) k.head ne;
  contents = λ w. refl;
}
Cut-here l p (after y) xs k nz b e c = record {
  chain = rw (remove_self p xs) (
      subst (λ (q : ℕ). Chain (links (store l (after y) (next_of l (k.proc p)) k) l) q xs)
        (sym (links-update_self k l y (next_of l (k.proc p))))
        (Chain-congr y (next_of l (k.proc p)) xs (links-update_ne k l l y (next_of l (k.proc p)))
          b.1 c));
  frame = λ w n ne. ground (arith, ne);
  head_frame = λ ne. refl;
  other_heads = λ m ne. refl;
  contents = λ w. ground (arith, with_next-with_next l 0 (next_of l (k.proc p)) (k.proc y));
}

cut_found :
    (l : Queue) (p x : ℕ) (lp : Link) (xs : List ℕ) (k : Kernel)
    → p ≢ 0
    → x ≡ p
    → Before lp (x ∷ xs)
    → load l lp k ≡ x
    → Chain (links k l) (links k l x) xs
    → Cut l p lp (x ∷ xs) k (cut l p lp k)
cut_found l p x lp xs k nz e b h c =
    let here : cut l p lp k ≡ store l lp (next_of l (k.proc p)) k = ground arith in
    subst (Cut l p lp (x ∷ xs) k) (sym here) (
      subst
        (λ (y : ℕ).
          Before lp (y ∷ xs)
          → load l lp k ≡ y
          → Chain (links k l) (links k l y) xs
          → Cut l p lp (y ∷ xs) k (store l lp (next_of l (k.proc p)) k))
        (sym e) (Cut-here l p lp xs k nz) b h c)

-- At the end of the list nothing is taken out.
cut_nil :
    (l : Queue) (p : ℕ) (lp : Link) (k : Kernel)
    → p ≢ 0
    → load l lp k ≡ 0
    → Cut l p lp [] k (cut l p lp k)
cut_nil l p lp k nz h =
    let same : cut l p lp k ≡ k = ground arith in
    subst (Cut l p lp [] k) (sym same) (record {
      chain = h;
      frame = λ w n ne. refl;
      head_frame = λ ne. refl;
      other_heads = λ m ne. refl;
      contents = λ w. refl;
    })

-- The link that leads to `x` is not touched by a cut behind `x`.
load-Cut :
    (l : Queue) (p x : ℕ) (lp : Link) (xs : List ℕ) (k k' : Kernel)
    → Before lp (x ∷ xs)
    → Cut l p (after x) xs k k'
    → load l lp k' ≡ load l lp k
load-Cut l p x first xs k k' b c = ap (λ (h : Queue → ℕ). h l) (c.head_frame (λ h. cc))
load-Cut l p x (after y) xs k k' b c = ap (next_of l) (c.frame y b.1 (λ h. b.0 (cc)))

-- A cut behind the process `x` is one behind the link that leads to `x`.
Cut-later :
    (l : Queue) (p x : ℕ) (lp : Link) (xs : List ℕ) (k k' : Kernel)
    → x ≢ 0
    → x ≢ p
    → Before lp (x ∷ xs)
    → NotIn x xs
    → load l lp k ≡ x
    → Cut l p (after x) xs k k'
    → Cut l p lp (x ∷ xs) k k'
Cut-later l p x lp xs k k' nz ne b n e c = record {
  chain = rw (remove_other p x xs ne) (load-Cut l p x lp xs k k' b c ∙ e, nz, c.chain);
  frame = λ w m far. c.frame w m.1 (λ same. m.0 (cc));
  head_frame = λ _. c.head_frame (λ h. cc);
  other_heads = c.other_heads;
  contents = c.contents;
}

walk-suc :
    (fuel : ℕ) (l : Queue) (p : ℕ) (lp : Link) (k : Kernel)
    → walk (suc fuel) l p lp k ≡ (
        if load l lp k == 0 || load l lp k == p
        then some lp
        else walk fuel l p (after (load l lp k)) k)
unfolding walk
walk-suc fuel l p lp k = ground arith

-- The loop ends at a link where the last step takes `p` out.
walk-Cut :
    (fuel : ℕ) (l : Queue) (p : ℕ) (lp : Link) (xs : List ℕ) (k : Kernel)
    → length xs < fuel
    → p ≢ 0
    → Before lp xs
    → Distinct xs
    → Chain (links k l) (load l lp k) xs
    → (lp' : Link) × (walk fuel l p lp k ≡ some lp') × Cut l p lp xs k (cut l p lp' k)
walk-Cut zero l p lp xs k h nz b d c = absurd (omega arith)
walk-Cut (suc fuel) l p lp [] k h nz b d c =
    (lp, ground (arith, walk-suc fuel l p lp k), cut_nil l p lp k nz c)
walk-Cut (suc fuel) l p lp (x ∷ xs) k h nz b d c = elim (ℕ_discrete x p) [
  | yes e ↦ (lp, ground (arith, walk-suc fuel l p lp k), cut_found l p x lp xs k nz e b c.0 c.2)
  | no ne ↦
      let (lp', w, r) = walk-Cut fuel l p (after x) xs k (omega arith) nz d.0 d.1 c.2 in
      (
        lp',
        ground (arith, walk-suc fuel l p lp k, w),
        Cut-later l p x lp xs k (cut l p lp' k) c.1 ne b d.0 c.0 r,
      )
]

-- What is the same after `q_unregister_process` from the list `l`, which held `xs`: the other
-- lists' variables, the processes that `l` did not hold, and all but the pointer in the others.
pub record Removed (l : Queue) (p : ℕ) (xs : List ℕ) (k k' : Kernel) : Type 0 where
  pub holds : Holds k' l (remove p xs)
  pub frame : (w : ℕ) → NotIn w xs → k'.proc w ≡ k.proc w
  pub other_heads : (m : Queue) → l ≢ m → k'.head m ≡ k.head m
  pub contents : (w : ℕ) → with_next l 0 (k'.proc w) ≡ with_next l 0 (k.proc w)

-- `q_unregister_process` returns, given fuel for the length of the list. The list then holds the
-- same processes in the same order, without `p`; and nothing changes but pointers of this list.
pub unregister-Removed :
    (fuel : ℕ) (l : Queue) (p : ℕ) (xs : List ℕ) (k : Kernel)
    → length xs < fuel
    → p ≢ 0
    → Distinct xs
    → Holds k l xs
    → (k' : Kernel) × (unregister fuel l p k ≡ some k') × Removed l p xs k k'
unfolding unregister
unregister-Removed fuel l p xs k h nz d c =
    let (lp, w, r) = walk-Cut fuel l p first xs k h nz tt d c in
    (
      cut l p lp k,
      ground (arith, w),
      record {
        holds = r.chain;
        frame = λ w n. r.frame w n (λ e. cc);
        other_heads = r.other_heads;
        contents = r.contents;
      },
    )
