-- ===== src/Locks/Tests.antt =====
-- Two processes that share a lock for readers and writers, at concrete orders of steps.
use muxomucota.Base.{ℕ, ◌≡◌, ◌≢◌, some, none, arith, refl, update}
use muxomucota.Base.Outcome.{ok, panic}
use muxomucota.Locks.{lock_round}
use muxomucota.Locks.Rwl.{
  System, Steps, init, here, there, pick, first, writing, entering, waiting, counting, call_lock_r,
  take_entering, count_first, call_lock_w, take_waiting,
}
use muxomucota.Locks.Rwl.Exclusion.{dropped, rwl_exclusion, rwl_drop_w_deadlock}

lock-runs : (lock_round 7 0 ≡ ok (some 7)) × (lock_round 7 9 ≡ ok none) × (lock_round 7 7 ≡ panic)
unfolding lock_round
lock-runs = (refl, refl, refl)

-- The process 1 is writing.
abbrev written : System
written = record {
  rwl = record { write_lock = 1; lock_lock = 0; reader_count = 0 };
  pc = update (update init.pc 1 waiting) 1 writing;
}

-- The process 2 is counted as a reader beside it.
abbrev beside : System
beside = record {
  rwl = record { write_lock = 1; lock_lock = 2; reader_count = 1 };
  pc = update (update (update written.pc 2 entering) 2 counting) 2 first;
}

one_taken : lock_round 1 0 ≡ ok (some 1)
unfolding lock_round
one_taken = refl

two_taken : lock_round 2 0 ≡ ok (some 2)
unfolding lock_round
two_taken = refl

written-Steps : Steps 3 init written
written-Steps =
    there (there here (pick 1 (λ z. cc) (omega arith) call_lock_w))
      (pick 1 (λ z. cc) (omega arith) (take_waiting one_taken))

beside-Steps : Steps 3 init beside
beside-Steps =
    there
      (there (there written-Steps (pick 2 (λ z. cc) (omega arith) call_lock_r))
        (pick 2 (λ z. cc) (omega arith) (take_entering two_taken)))
      (pick 2 (λ z. cc) (omega arith) (count_first refl))

rwl_exclusion_example : ◌≡◌ {A = ℕ} 1 1
rwl_exclusion_example =
    rwl_exclusion (omega arith) beside-Steps 1 1 (omega arith) (omega arith) refl refl

rwl_drop_w_deadlock_example :
    ((dropped 1 beside).pc 2 ≡ first)
    × ((dropped 1 beside).rwl.write_lock ≢ 0)
    × ((dropped 1 beside).rwl.lock_lock ≢ 0)
    × ((dropped 1 beside).pc 1 ≢ writing)
rwl_drop_w_deadlock_example =
    rwl_drop_w_deadlock 1 2 (omega arith) (omega arith) (omega arith) (λ z. cc) beside-Steps refl
      refl here 1 (omega arith)
