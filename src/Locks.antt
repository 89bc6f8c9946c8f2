-- ===== src/Locks.antt =====
-- Locks, src/kernel/common/lib/lock.c and src/lib/common/system/lock.c. The value of a lock is the
-- identifier of the process that has it, in 32 bits, or 0.
pub mod Rwl
mod Tests
use muxomucota.Base.{ℕ, ◌-◌, ◌^◌, Bool, not, Option, none, some, ◌==◌, if◌then◌else◌}
use muxomucota.Base.Outcome.{Outcome, ok, ◌>>◌, kassert}

-- One round of the loop of `lock` by the process `mypid`, that is one compare-and-swap: the new
-- value if the lock was taken, and `none` after a `yield_to` the owner, before the next round.
pub lock_round : ℕ → ℕ → Outcome (Option ℕ)
lock_round mypid v = if v == 0 then ok (some mypid) else kassert (not (mypid == v)) >> ok none

-- `unlock`
abbrev pub unlock : ℕ → ℕ
unlock v = 0

-- `trylock`
abbrev pub trylock : ℕ → ℕ → Bool × ℕ
trylock mypid v = (v == 0, if v == 0 then mypid else v)
