-- ===== src/Locks/Rwl/Exclusion.antt =====
-- The lock for readers and writers in all orders of steps.
use muxomucota.Base.{ℕ, ◌+◌, ◌^◌, ◌<◌, ◌≡◌, ◌≢◌, arith, update, ◌⊎◌, inl, inr, ℕ_discrete, ap}
use muxomucota.Base.Family.{le-total, le-total_two}
use muxomucota.Locks.Rwl.{System, Steps, init, here, there, first, writing, reading}
use muxomucota.Locks.Rwl.Inv.{active, owning, pending, guarding, lone, Normal, moved}
use muxomucota.Locks.Rwl.Stuck.{Jammed, Step-Jammed, Steps-Normal}

-- Whatever less than 2^31 processes do with a lock for readers and writers, in whatever order: while
-- one is writing, no other one has the lock, neither as a reader nor as a writer.
pub rwl_exclusion :
    {n : ℕ} {s : System}
    → n < 2 ^ 31
    → Steps n init s
    → (p q : ℕ) → p < n
    → q < n
    → s.pc p ≡ writing
    → active (s.pc q) + owning (s.pc q) ≡ 1
    → p ≡ q
rwl_exclusion {n} {s} small steps p q hp hq e h = elim (ℕ_discrete p q) [
  | yes same ↦ same
  | no ne ↦
      let both = le-total_two owning n s.pc p q hp hq ne in
      let one = le-total owning n s.pc p hp in
      let other = le-total active n s.pc q hq in
      let w : owning (s.pc p) ≡ 1 = ap owning e in
      elim (Steps-Normal small steps) [
        | inl i ↦ absurd (ground (arith, i.exclusive))
        | inr j ↦ absurd (ground arith)
      ]
]

-- The state after the writer `w` became a reader by `rwl_drop_w`.
abbrev pub dropped : ℕ → System → System
dropped w s = record { rwl = record s.rwl { reader_count = 1 }; pc = update s.pc w reading }

-- With another reader pending the lock is stuck after `rwl_drop_w`.
dropped-Jammed :
    (n w r : ℕ) (s : System)
    → n < 2 ^ 31
    → w < n
    → r < n
    → w ≢ 0
    → Normal n s.rwl s.pc ⊎ Jammed n s.rwl s.pc
    → s.pc w ≡ writing
    → s.pc r ≡ first
    → Jammed n (dropped w s).rwl (dropped w s).pc
dropped-Jammed n w r s small hw hr nz i e f =
    let m = moved n w s.pc reading hw in
    let p = le-total pending n s.pc r hr in
    let o = le-total owning n s.pc w hw in
    let c : owning (s.pc w) ≡ 1 = ap owning e in
    let d : pending (s.pc r) ≡ 1 = ap pending f in
    let a : active (s.pc w) ≡ 0 = ap active e in
    let b : guarding (s.pc w) ≡ 0 = ap guarding e in
    let g : lone (s.pc w) ≡ 0 = ap lone e in
    let k : pending (s.pc w) ≡ 0 = ap pending e in
    elim i [ inl z ↦ ground arith | inr j ↦ absurd (ground arith) ]

Steps-Jammed :
    {n : ℕ} {s t : System} (r : ℕ)
    → n < 2 ^ 31
    → Steps n s t
    → Jammed n s.rwl s.pc
    → s.pc r ≡ first
    → Jammed n t.rwl t.pc × (t.pc r ≡ first)
Steps-Jammed r small here j e = (j, e)
Steps-Jammed r small (there steps step) j e =
    let (k, f) = Steps-Jammed r small steps j e in Step-Jammed r small step k f

-- A writer calls `rwl_drop_w` while a reader is in `rwl_lock_r`, counted as the first, before it has
-- the write lock. From then on, whatever the processes do, that reader never gets any further,
-- both inner locks stay taken, and no process is ever writing.
pub rwl_drop_w_deadlock :
    {n : ℕ} {s t : System} (w r : ℕ)
    → n < 2 ^ 31
    → w < n
    → r < n
    → w ≢ 0
    → Steps n init s
    → s.pc w ≡ writing
    → s.pc r ≡ first
    → Steps n (dropped w s) t
    → (p : ℕ) → p < n
    → (t.pc r ≡ first) × (t.rwl.write_lock ≢ 0) × (t.rwl.lock_lock ≢ 0) × (t.pc p ≢ writing)
rwl_drop_w_deadlock {n} {s} {t} w r small hw hr nz before e f steps p hp =
    let still : (dropped w s).pc r ≡ first = ground (arith, ap s.pc) in
    let start = dropped-Jammed n w r s small hw hr nz (Steps-Normal small before) e f in
    let (j, waits) = Steps-Jammed r small steps start still in
    (
      waits,
      j.locked,
      j.guarded,
      λ x. omega (arith, le-total owning n t.pc p hp, ap owning x, j.no_owner),
    )
