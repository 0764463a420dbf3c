-- ===== src/Auth/Lockout/Laws.antt =====
-- The block of a principal, one check at a time.
use board_old.Prelude.{◌+◌, ◌*◌, ◌<◌, ◌≤◌, true, false, ◌≡◌, arith, leb}
use board_old.Auth.Lockout.{AuthCheckResult, Readings, fresh, next_check, seconds_since}
use board_old.Auth.Lockout.{default_failed_times, default_deny_duration, second}

-- What every stored entry keeps: it is blocked exactly from the tenth failure on, one that is not
-- blocked has no time elapsed, and the remaining time of a blocked one is what its elapsed time
-- leaves of the duration.
pub record IsValid (r : AuthCheckResult) : Type 0 where
  pub gate : r.is_temporarily_blocked ≡ leb default_failed_times r.failed_times
  pub idle : r.is_temporarily_blocked ≡ false → (r.time_elapsed ≡ 0) × (r.time_remain ≡ 0)
  pub remain :
      r.is_temporarily_blocked ≡ true → r.time_remain + r.time_elapsed ≡ default_deny_duration

pub fresh-IsValid : IsValid fresh
fresh-IsValid = ground arith

-- Every check of a valid entry leaves a valid entry.
pub next_check-IsValid : (t : Readings) (r : AuthCheckResult) → IsValid r → IsValid (next_check t r)
unfolding next_check
next_check-IsValid t r v = ground arith

-- A check with fewer than nine failures behind it counts one more, and blocks nobody.
pub next_check_counts :
    (t : Readings) (r : AuthCheckResult)
    → IsValid r
    → r.failed_times + 1 < default_failed_times
    → ((next_check t r).failed_times ≡ r.failed_times + 1)
      × ((next_check t r).is_temporarily_blocked ≡ false)
unfolding next_check
next_check_counts t r v h = ground arith

-- The check that counts the tenth failure blocks, and records when.
pub next_check_blocks :
    (t : Readings) (r : AuthCheckResult)
    → IsValid r
    → r.failed_times + 1 ≡ default_failed_times
    → t.since_at < t.block_at + default_deny_duration * second
    → ((next_check t r).is_temporarily_blocked ≡ true)
      × ((next_check t r).time_now ≡ t.block_at)
      × ((next_check t r).time_elapsed < default_deny_duration)
unfolding next_check
next_check_blocks t r v h k = ground arith

-- While the duration since the block is not over, a blocked principal stays blocked, from the
-- same moment on.
pub next_check_keeps :
    (t : Readings) (r : AuthCheckResult)
    → IsValid r
    → r.is_temporarily_blocked ≡ true
    → t.since_at < r.time_now + default_deny_duration * second
    → ((next_check t r).is_temporarily_blocked ≡ true) × ((next_check t r).time_now ≡ r.time_now)
unfolding next_check
next_check_keeps t r v b h = ground arith

-- The first check more than the duration after the block clears the entry, if no check has fallen
-- into the duration's last second.
pub next_check_unlocks :
    (t : Readings) (r : AuthCheckResult)
    → IsValid r
    → r.is_temporarily_blocked ≡ true
    → r.time_elapsed < default_deny_duration
    → r.time_now + (default_deny_duration + 1) * second ≤ t.since_at
    → ((next_check t r).is_temporarily_blocked ≡ false) × ((next_check t r).failed_times ≡ 0)
unfolding next_check
next_check_unlocks t r v b e h = ground arith

-- A check in the second in which the duration ends records an elapsed time that equals it.
pub next_check_in_last_second :
    (t : Readings) (r : AuthCheckResult)
    → IsValid r
    → r.is_temporarily_blocked ≡ true
    → r.time_elapsed < default_deny_duration
    → seconds_since r.time_now t.since_at ≡ default_deny_duration
    → ((next_check t r).is_temporarily_blocked ≡ true)
      × ((next_check t r).time_elapsed ≡ default_deny_duration)
unfolding next_check
next_check_in_last_second t r v b e h = ground arith
