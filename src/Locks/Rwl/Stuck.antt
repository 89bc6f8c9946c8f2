-- ===== src/Locks/Rwl/Stuck.antt =====
-- The steps of processes and the invariant, and the state that `rwl_drop_w` leads to beside a reader
-- that waits for the write lock.
use muxomucota.Base.{ℕ, ◌^◌, ◌<◌, ◌≡◌, ◌≢◌, arith, ap, update, ◌⊎◌, inl, inr, ℕ_discrete}
use muxomucota.Base.Family.{total}
use muxomucota.Locks.Rwl.{RwLock, Pc, Move, System, Step, Steps, init}
use muxomucota.Locks.Rwl.{
  call_lock_r, take_entering, count_first, count_more, take_first, done_lock_r, call_unlock_r,
  take_leaving, discount_last, discount_more, unlock_last, unname, keep_name, done_unlock_r,
  call_lock_w, take_waiting, unlock_w, call_require_w, see_few, try_busy, try_free, check_alone,
  check_more, back_off, reset, done_require_w, drop_w, pick, here, there,
}
use muxomucota.Locks.Rwl.{first}
use muxomucota.Locks.Rwl.Inv.{
  pending, guarding, lone, owning, Normal, Moved, moved, taken, init-Normal,
}

-- A reader holds `lock_lock` and waits for a write lock that no process can release.
pub record Jammed (n : ℕ) (l : RwLock) (pc : ℕ → Pc) : Type 0 where
  pub one_pending : total pending n pc ≡ 1
  pub no_guard : total guarding n pc ≡ 0
  pub no_lone : total lone n pc ≡ 0
  pub no_owner : total owning n pc ≡ 0
  pub locked : l.write_lock ≢ 0
  pub guarded : l.lock_lock ≢ 0

module _ (n p : ℕ) (l : RwLock) (pc pc' : ℕ → Pc) (small : n < 2 ^ 31) (nz : p ≢ 0) where
  Move-Normal :
      {c c' : Pc} {l' : RwLock}
      → Normal n l pc
      → Move p l c l' c'
      → Moved n pc pc' c c'
      → Normal n l' pc' ⊎ Jammed n l' pc'
  Move-Normal i call_lock_r m = inl (ground arith)
  Move-Normal i (take_entering {v} h) m = let t = taken p l.lock_lock v h in inl (ground (arith, t))
  Move-Normal i (count_first z) m = inl (ground arith)
  Move-Normal i (count_more z) m = inl (ground arith)
  Move-Normal i (take_first {v} h) m = let t = taken p l.write_lock v h in inl (ground (arith, t))
  Move-Normal i done_lock_r m = inl (ground arith)
  Move-Normal i call_unlock_r m = inl (ground arith)
  Move-Normal i (take_leaving {v} h) m = let t = taken p l.lock_lock v h in inl (ground (arith, t))
  Move-Normal i (discount_last z) m = inl (ground arith)
  Move-Normal i (discount_more z) m = inl (ground arith)
  Move-Normal i unlock_last m = inl (ground arith)
  Move-Normal i (unname z) m = inl (ground arith)
  Move-Normal i (keep_name z) m = inl (ground arith)
  Move-Normal i done_unlock_r m = inl (ground arith)
  Move-Normal i call_lock_w m = inl (ground arith)
  Move-Normal i (take_waiting {v} h) m = let t = taken p l.write_lock v h in inl (ground (arith, t))
  Move-Normal i unlock_w m = inl (ground arith)
  Move-Normal i call_require_w m = inl (ground arith)
  Move-Normal i (see_few z) m = inl (ground arith)
  Move-Normal i (try_busy z) m = inl (ground arith)
  Move-Normal i (try_free z) m = inl (ground arith)
  Move-Normal i (check_alone z) m = inl (ground arith)
  Move-Normal i (check_more z) m = inl (ground arith)
  Move-Normal i back_off m = inl (ground arith)
  Move-Normal i reset m = inl (ground arith)
  Move-Normal i done_require_w m = inl (ground arith)
  Move-Normal i drop_w m = elim (ℕ_discrete (total pending n pc) 0) [
    | yes none_waits ↦ inl (ground arith)
    | no waits ↦ inr (ground arith)
  ]

  -- No step of a stuck lock is one of the reader that waits, and it stays stuck.
  Move-Jammed :
      {c c' : Pc} {l' : RwLock}
      → Jammed n l pc
      → Move p l c l' c'
      → Moved n pc pc' c c'
      → Jammed n l' pc' × (c ≢ first)
  Move-Jammed i call_lock_r m = (ground arith, λ h. cc)
  Move-Jammed i (take_entering {v} h) m =
      let t = taken p l.lock_lock v h in absurd (ground (arith, t))
  Move-Jammed i (count_first z) m = absurd (ground arith)
  Move-Jammed i (count_more z) m = absurd (ground arith)
  Move-Jammed i (take_first {v} h) m =
      let t = taken p l.write_lock v h in absurd (ground (arith, t))
  Move-Jammed i done_lock_r m = absurd (ground arith)
  Move-Jammed i call_unlock_r m = (ground arith, λ h. cc)
  Move-Jammed i (take_leaving {v} h) m =
      let t = taken p l.lock_lock v h in absurd (ground (arith, t))
  Move-Jammed i (discount_last z) m = absurd (ground arith)
  Move-Jammed i (discount_more z) m = absurd (ground arith)
  Move-Jammed i unlock_last m = absurd (ground arith)
  Move-Jammed i (unname z) m = absurd (ground arith)
  Move-Jammed i (keep_name z) m = absurd (ground arith)
  Move-Jammed i done_unlock_r m = absurd (ground arith)
  Move-Jammed i call_lock_w m = (ground arith, λ h. cc)
  Move-Jammed i (take_waiting {v} h) m =
      let t = taken p l.write_lock v h in absurd (ground (arith, t))
  Move-Jammed i unlock_w m = absurd (ground arith)
  Move-Jammed i call_require_w m = (ground arith, λ h. cc)
  Move-Jammed i (see_few z) m = (ground arith, λ h. cc)
  Move-Jammed i (try_busy z) m = (ground arith, λ h. cc)
  Move-Jammed i (try_free z) m = absurd (ground arith)
  Move-Jammed i (check_alone z) m = absurd (ground arith)
  Move-Jammed i (check_more z) m = absurd (ground arith)
  Move-Jammed i back_off m = absurd (ground arith)
  Move-Jammed i reset m = absurd (ground arith)
  Move-Jammed i done_require_w m = absurd (ground arith)
  Move-Jammed i drop_w m = absurd (ground arith)

pub Step-Normal :
    {n : ℕ} {s t : System}
    → n < 2 ^ 31
    → Step n s t
    → Normal n s.rwl s.pc
    → Normal n t.rwl t.pc ⊎ Jammed n t.rwl t.pc
Step-Normal {n} {s} small (pick p {l} {c} nz h mv) i =
    Move-Normal n p s.rwl s.pc (update s.pc p c) small nz i mv (moved n p s.pc c h)

pub Step-Jammed :
    {n : ℕ} {s t : System} (r : ℕ)
    → n < 2 ^ 31
    → Step n s t
    → Jammed n s.rwl s.pc
    → s.pc r ≡ first
    → Jammed n t.rwl t.pc × (t.pc r ≡ first)
Step-Jammed {n} {s} r small (pick p {l} {c} nz h mv) j e =
    let (j', other) =
      Move-Jammed n p s.rwl s.pc (update s.pc p c) small nz j mv (moved n p s.pc c h) in
    (j', ground (arith, other, ap s.pc))

Step-Jammed_any :
    {n : ℕ} {s t : System} → n < 2 ^ 31 → Step n s t → Jammed n s.rwl s.pc → Jammed n t.rwl t.pc
Step-Jammed_any {n} {s} small (pick p {l} {c} nz h mv) j =
    (Move-Jammed n p s.rwl s.pc (update s.pc p c) small nz j mv (moved n p s.pc c h)).0

pub Steps-Normal :
    {n : ℕ} {s : System} → n < 2 ^ 31 → Steps n init s → Normal n s.rwl s.pc ⊎ Jammed n s.rwl s.pc
Steps-Normal {n} small here = inl (init-Normal n)
Steps-Normal small (there steps step) = elim (Steps-Normal small steps) [
  | inl i ↦ Step-Normal small step i
  | inr j ↦ inr (Step-Jammed_any small step j)
]
