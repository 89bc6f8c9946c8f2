-- ===== src/Locks/Rwl/Inv.antt =====
-- The invariant of a lock for readers and writers, by numbers of processes.
use muxomucota.Base.{ℕ, ◌+◌, ◌≤◌, ◌<◌, ◌≡◌, some, arith, refl, update}
use muxomucota.Base.Outcome.{ok}
use muxomucota.Base.Family.{total, total-update, total-add, total_bound, total_zero, le-total}
use muxomucota.Locks.{lock_round}
use muxomucota.Locks.Rwl.{RwLock, Pc, init}
use muxomucota.Locks.Rwl.{
  counting, first, joined, reading, leaving, discounting, last, more, left, writing, wanting,
  tempted, checking, backing, alone, upgraded,
}

-- The readers that have the write lock together, and are in the count.
abbrev pub active : Pc → ℕ
active joined = 1
active reading = 1
active leaving = 1
active discounting = 1
active wanting = 1
active tempted = 1
active checking = 1
active backing = 1
active alone = 1
active _ = 0

-- The reader that waits for the write lock.
abbrev pub pending : Pc → ℕ
pending first = 1
pending _ = 0

-- The other processes that have `lock_lock`.
abbrev pub guarding : Pc → ℕ
guarding counting = 1
guarding joined = 1
guarding discounting = 1
guarding last = 1
guarding more = 1
guarding left = 1
guarding checking = 1
guarding backing = 1
guarding upgraded = 1
guarding _ = 0

-- The reader that has `lock_lock` and has seen that it is the only one.
abbrev pub lone : Pc → ℕ
lone alone = 1
lone _ = 0

-- The processes that have the write lock for themselves.
abbrev pub owning : Pc → ℕ
owning writing = 1
owning upgraded = 1
owning last = 1
owning _ = 0

pub record Normal (n : ℕ) (l : RwLock) (pc : ℕ → Pc) : Type 0 where
  pub count : l.reader_count ≡ total active n pc + total pending n pc
  pub one_guard : total pending n pc + total guarding n pc + total lone n pc ≤ 1
  pub guarded : l.lock_lock ≡ 0 → total pending n pc + total guarding n pc + total lone n pc ≡ 0
  pub one_owner : total owning n pc ≤ 1
  pub exclusive : total owning n pc ≡ 1 → total active n pc ≡ 0
  pub unowned : l.write_lock ≡ 0 → (total owning n pc ≡ 0) × (total active n pc ≡ 0)
  pub before_first : total pending n pc ≡ 1 → total active n pc ≡ 0
  pub only_one : total lone n pc ≡ 1 → total active n pc ≡ 1
  pub few : total active n pc + total pending n pc ≤ n

-- The numbers before and after a process went from `c` to `c'`.
pub record Moved (n : ℕ) (pc pc' : ℕ → Pc) (c c' : Pc) : Type 0 where
  pub actives : total active n pc' + active c ≡ total active n pc + active c'
  pub pendings : total pending n pc' + pending c ≡ total pending n pc + pending c'
  pub guards : total guarding n pc' + guarding c ≡ total guarding n pc + guarding c'
  pub lones : total lone n pc' + lone c ≡ total lone n pc + lone c'
  pub owners : total owning n pc' + owning c ≡ total owning n pc + owning c'
  pub is_active : active c ≤ total active n pc
  pub is_pending : pending c ≤ total pending n pc
  pub is_guard : guarding c ≤ total guarding n pc
  pub is_lone : lone c ≤ total lone n pc
  pub is_owner : owning c ≤ total owning n pc
  pub few' : total active n pc' + total pending n pc' ≤ n

counted_bound : (n : ℕ) (pc : ℕ → Pc) → total active n pc + total pending n pc ≤ n
counted_bound n pc = omega (
  arith,
  total-add active pending n pc,
  total_bound (λ c. active c + pending c) n pc (λ c. ground arith),
)

pub moved : (n p : ℕ) (pc : ℕ → Pc) (c' : Pc) → p < n → Moved n pc (update pc p c') (pc p) c'
moved n p pc c' h = record {
  actives = total-update active n pc p c' h;
  pendings = total-update pending n pc p c' h;
  guards = total-update guarding n pc p c' h;
  lones = total-update lone n pc p c' h;
  owners = total-update owning n pc p c' h;
  is_active = le-total active n pc p h;
  is_pending = le-total pending n pc p h;
  is_guard = le-total guarding n pc p h;
  is_lone = le-total lone n pc p h;
  is_owner = le-total owning n pc p h;
  few' = counted_bound n (update pc p c');
}

pub init-Normal : (n : ℕ) → Normal n init.rwl init.pc
init-Normal n =
    let a = total_zero active n init.pc (λ i. refl) in
    let b = total_zero pending n init.pc (λ i. refl) in
    let c = total_zero guarding n init.pc (λ i. refl) in
    let d = total_zero owning n init.pc (λ i. refl) in
    let e = total_zero lone n init.pc (λ i. refl) in ground arith

pub taken : (p v w : ℕ) → lock_round p v ≡ ok (some w) → (v ≡ 0) × (w ≡ p)
unfolding lock_round
taken p v w h = ground arith
