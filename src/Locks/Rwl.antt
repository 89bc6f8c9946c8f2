-- ===== src/Locks/Rwl.antt =====
-- Locks for readers and writers, src/lib/common/system/rwl_lock.c: the steps of processes that share
-- one. A step is one access to the lock; increments and decrements of the count are one access.
-- Where a process is, is the statement that it executes next.
pub mod Inv
pub mod Stuck
pub mod Exclusion
use muxomucota.Base.{ℕ, ◌+◌, ◌-◌, ◌%◌, ◌^◌, ◌≤◌, ◌<◌, ◌≡◌, ◌≢◌, false, true, some, ◌⊎◌, update}
use muxomucota.Base.Outcome.{ok}
use muxomucota.Locks.{lock_round, unlock, trylock}

-- `rw_lock_t`
pub record RwLock : Type 0 where
  pub write_lock : ℕ
  pub lock_lock : ℕ
  pub reader_count : ℕ

-- The write lock is taken by -1 when the process that took it has left.
abbrev pub nobody : ℕ
nobody = 2 ^ 32 - 1

pub data Pc : Type 0 where
  idle : Pc
  -- `rwl_lock_r`: before `lock(&rwl->lock_lock)`, the increment, `lock(&rwl->write_lock)` and the
  -- `unlock`; and behind it
  entering counting first joined reading : Pc
  -- `rwl_unlock_r`: before the `lock`, the decrement, `unlock(&rwl->write_lock)`, the test of the
  -- owner, and the last `unlock`
  leaving discounting last more left : Pc
  -- `rwl_lock_w`, and behind it
  waiting writing : Pc
  -- `rwl_require_w`: before the test of the count, `trylock`, the second test, the `unlock` of the
  -- loop, the reset of the count, and the last `unlock`
  wanting tempted checking backing alone upgraded : Pc

-- A step of the process `p`. A round of `lock` that does not take the lock changes nothing, and
-- one that fails its assertion stops the process; neither is a step.
pub data Move (p : ℕ) (l : RwLock) : Pc → RwLock → Pc → Type 0 where
  call_lock_r : Move p l idle l entering
  take_entering :
      {v : ℕ}
      → lock_round p l.lock_lock ≡ ok (some v)
      → Move p l entering (record l { lock_lock = v }) counting
  count_first : l.reader_count ≡ 0 → Move p l counting (record l { reader_count = 1 }) first
  count_more :
      l.reader_count ≢ 0
      → Move p l counting (record l { reader_count = (l.reader_count + 1) % 2 ^ 32 }) joined
  take_first :
      {v : ℕ}
      → lock_round p l.write_lock ≡ ok (some v)
      → Move p l first (record l { write_lock = v }) joined
  done_lock_r : Move p l joined (record l { lock_lock = unlock l.lock_lock }) reading
  call_unlock_r : Move p l reading l leaving
  take_leaving :
      {v : ℕ}
      → lock_round p l.lock_lock ≡ ok (some v)
      → Move p l leaving (record l { lock_lock = v }) discounting
  discount_last : l.reader_count ≡ 1 → Move p l discounting (record l { reader_count = 0 }) last
  discount_more :
      l.reader_count ≢ 1
      → Move p l discounting
          (record l { reader_count = (l.reader_count + 2 ^ 32 - 1) % 2 ^ 32 })
          more
  unlock_last : Move p l last (record l { write_lock = unlock l.write_lock }) left
  unname : l.write_lock ≡ p → Move p l more (record l { write_lock = nobody }) left
  keep_name : l.write_lock ≢ p → Move p l more l left
  done_unlock_r : Move p l left (record l { lock_lock = unlock l.lock_lock }) idle
  call_lock_w : Move p l idle l waiting
  take_waiting :
      {v : ℕ}
      → lock_round p l.write_lock ≡ ok (some v)
      → Move p l waiting (record l { write_lock = v }) writing
  unlock_w : Move p l writing (record l { write_lock = unlock l.write_lock }) idle
  call_require_w : Move p l reading l wanting
  -- The count is an `int`: what looks like 2^31 or more is negative.
  see_few : (l.reader_count ≤ 1) ⊎ (2 ^ 31 ≤ l.reader_count) → Move p l wanting l tempted
  try_busy : {v : ℕ} → trylock p l.lock_lock ≡ (false, v) → Move p l tempted l wanting
  try_free :
      {v : ℕ}
      → trylock p l.lock_lock ≡ (true, v)
      → Move p l tempted (record l { lock_lock = v }) checking
  check_alone : l.reader_count ≡ 1 → Move p l checking l alone
  check_more : l.reader_count ≢ 1 → Move p l checking l backing
  back_off : Move p l backing (record l { lock_lock = unlock l.lock_lock }) wanting
  reset : Move p l alone (record l { reader_count = 0 }) upgraded
  done_require_w : Move p l upgraded (record l { lock_lock = unlock l.lock_lock }) writing
  drop_w : Move p l writing (record l { reader_count = 1 }) reading

-- Processes with the identifiers below `n` that share a lock.
pub record System : Type 0 where
  pub rwl : RwLock
  pub pc : ℕ → Pc

pub data Step (n : ℕ) (s : System) : System → Type 0 where
  pick :
      (p : ℕ) {l : RwLock} {c : Pc}
      → p ≢ 0
      → p < n
      → Move p s.rwl (s.pc p) l c
      → Step n s (record { pc = update s.pc p c; rwl = l })

pub data Steps (n : ℕ) (s : System) : System → Type 0 where
  here : Steps n s s
  there : {t u : System} → Steps n s t → Step n t u → Steps n s u

-- `rwl_lock_init`
abbrev pub init : System
init = record { rwl = record { write_lock = 0; lock_lock = 0; reader_count = 0 }; pc = λ p. idle }
