-- ===== src/Process/Lists/Chain.antt =====
-- The sequence of processes that a linked list holds, and what `q_register_process` and
-- `q_unregister_process` make of it.
use muxomucota.Base.{
  ℕ, ◌≡◌, ◌≢◌, ◌==◌, if◌then◌else◌, List, [], ◌∷◌, All, arith, refl, inl, inr, ◌⊎◌, sym, subst,
}
use mathlib.Core.Path.{fun_ext}
use muxomucota.Process.{
  Process, Kernel, Queue, runqueue, daemons, zombies, dead, update, set_head, next_of, with_next,
  is_runqueue,
}
use muxomucota.Process.Lists.{register}

-- From the pointer `q` the next pointers lead through `xs` to the null pointer.
abbrev pub Chain : (ℕ → ℕ) → ℕ → List ℕ → Type 0
Chain f q [] = q ≡ 0
Chain f q (x ∷ xs) = (q ≡ x) × (x ≢ 0) × Chain f (f x) xs

abbrev pub links : Kernel → Queue → ℕ → ℕ
links k l p = next_of l (k.proc p)

-- The list `l` holds the processes `xs`, in this order.
abbrev pub Holds : Kernel → Queue → List ℕ → Type 0
Holds k l xs = Chain (links k l) (k.head l) xs

abbrev pub NotIn : ℕ → List ℕ → Type 0
NotIn p xs = All (λ x. x ≢ p) xs

abbrev pub Distinct : List ℕ → Type 0
Distinct [] = Unit
Distinct (x ∷ xs) = NotIn x xs × Distinct xs

abbrev pub remove : ℕ → List ℕ → List ℕ
remove p [] = []
remove p (x ∷ xs) = if x == p then xs else x ∷ remove p xs

-- A chain depends on the pointers of its processes alone.
pub Chain-congr :
    {f g : ℕ → ℕ} (p q : ℕ) (xs : List ℕ)
    → ((x : ℕ) → x ≢ p → g x ≡ f x)
    → NotIn p xs
    → Chain f q xs
    → Chain g q xs
Chain-congr p q [] e n c = c
Chain-congr {f} {g} p q (x ∷ xs) e n c = (c.0, c.1, rw (e x n.0) (Chain-congr p (f x) xs e n.1 c.2))

pub next_of-with_next : (l : Queue) (q : ℕ) (p : Process) → next_of l (with_next l q p) ≡ q
next_of-with_next runqueue q p = refl
next_of-with_next daemons q p = refl
next_of-with_next zombies q p = refl
next_of-with_next dead q p = refl

pub set_head_self : (l : Queue) (p : ℕ) (h : Queue → ℕ) → set_head l p h l ≡ p
set_head_self runqueue p h = refl
set_head_self daemons p h = refl
set_head_self zombies p h = refl
set_head_self dead p h = refl

-- The pointers of a list after one structure got a new pointer in the list `l`.
pub links-update_self :
    (k : Kernel) (l : Queue) (p q : ℕ)
    → next_of l (update k.proc p (with_next l q (k.proc p)) p) ≡ q
links-update_self k l p q = ground (arith, next_of-with_next l q (k.proc p))

pub links-update_ne :
    (k : Kernel) (l m : Queue) (p q x : ℕ)
    → x ≢ p
    → next_of m (update k.proc p (with_next l q (k.proc p)) x) ≡ next_of m (k.proc x)
links-update_ne k l m p q x ne = ground arith

-- Lists that use different pointers of a structure: the run queue, and any other.
abbrev pub Apart : Queue → Queue → Type 0
Apart l m = is_runqueue l ≢ is_runqueue m

pub links-update-Apart :
    (k : Kernel) (l m : Queue) (p q x : ℕ)
    → Apart l m
    → next_of m (update k.proc p (with_next l q (k.proc p)) x) ≡ next_of m (k.proc x)
links-update-Apart k l m p q x ne = ground arith

-- `q_register_process` of a process that the list does not hold puts it in front.
pub register-Holds :
    (k : Kernel) (l : Queue) (p : ℕ) (xs : List ℕ)
    → p ≢ 0
    → NotIn p xs
    → Holds k l xs
    → Holds (register l p k) l (p ∷ xs)
unfolding register
register-Holds k l p xs nz n c = (
  set_head_self l p k.head,
  nz,
  subst (λ (q : ℕ). Chain (links (register l p k) l) q xs)
      (sym (links-update_self k l p (k.head l)))
      (Chain-congr p (k.head l) xs (links-update_ne k l l p (k.head l)) n c),
)

pub set_head_ne : (l m : Queue) (p : ℕ) (h : Queue → ℕ) → l ≢ m → set_head l p h m ≡ h m
set_head_ne runqueue runqueue p h ne = absurd (ne refl)
set_head_ne daemons daemons p h ne = absurd (ne refl)
set_head_ne zombies zombies p h ne = absurd (ne refl)
set_head_ne dead dead p h ne = absurd (ne refl)
set_head_ne l m p h ne = refl

-- It leaves a list alone that uses other pointers, or that does not hold the process.
pub register-Holds_other :
    (k : Kernel) (l m : Queue) (p : ℕ) (ys : List ℕ)
    → l ≢ m
    → Apart l m ⊎ NotIn p ys
    → Holds k m ys
    → Holds (register l p k) m ys
unfolding register
register-Holds_other k l m p ys ne (inl apart) c =
    subst (λ (q : ℕ). Chain (links (register l p k) m) q ys) (sym (set_head_ne l m p k.head ne))
      (rw (fun_ext (λ x. links-update-Apart k l m p (k.head l) x apart)) c)
register-Holds_other k l m p ys ne (inr n) c =
    subst (λ (q : ℕ). Chain (links (register l p k) m) q ys) (sym (set_head_ne l m p k.head ne))
      (Chain-congr p (k.head m) ys (links-update_ne k l m p (k.head l)) n c)

-- A change of the lists is none of the parents or identifiers.
pub ppid-register :
    (l : Queue) (p x : ℕ) (k : Kernel) → ((register l p k).proc x).ppid ≡ (k.proc x).ppid
unfolding register
ppid-register l p x k = ground arith

pub pid-register :
    (l : Queue) (p x : ℕ) (k : Kernel) → ((register l p k).proc x).pid ≡ (k.proc x).pid
unfolding register
pid-register l p x k = ground arith

pub head-register_other :
    (l m : Queue) (p : ℕ) (k : Kernel) → l ≢ m → (register l p k).head m ≡ k.head m
unfolding register
head-register_other l m p k ne = set_head_ne l m p k.head ne
