-- ===== src/Auth/Lockout.antt =====
-- apiserver/service/auth/auth.go: the count of failed sign-ins of a principal, and its temporary
-- block. Numbers of attempts and of seconds are natural numbers, times are in nanoseconds.
pub mod Laws
pub mod Trace
pub mod Tests
use board_old.Prelude.{ℕ, ◌+◌, ◌-◌, ◌*◌, ◌/◌, Bool, true, false, Option, none, some, String}
use board_old.Prelude.{ltb, leb, if◌then◌else◌}
use board_old.Cache.{Cache}

abbrev pub default_failed_times : ℕ
default_failed_times = 10

-- seconds
abbrev pub default_deny_duration : ℕ
default_deny_duration = 120

abbrev pub second : ℕ
second = 1_000_000_000

pub record AuthCheckResult : Type 0 where
  pub time_now : ℕ
  pub failed_times : ℕ
  pub is_temporarily_blocked : Bool
  pub time_elapsed : ℕ
  pub time_remain : ℕ

-- The zero value of the struct.
abbrev pub fresh : AuthCheckResult
fresh = record {
  time_now = 0;
  failed_times = 0;
  is_temporarily_blocked = false;
  time_elapsed = 0;
  time_remain = 0;
}

-- The readings of the clock during one call, in the order in which the code takes them.
pub record Readings : Type 0 where
  pub lookup_at : ℕ
  pub block_at : ℕ
  pub since_at : ℕ
  pub unlock_at : ℕ
  pub store_at : ℕ

-- `int(time.Since(t).Seconds())`
abbrev pub seconds_since : ℕ → ℕ → ℕ
seconds_since t now = (now - t) / second

-- `if !r.IsTemporarilyBlocked { r.TimeNow = time.Now() }`
stamp : Readings → AuthCheckResult → AuthCheckResult
stamp t r = if r.is_temporarily_blocked then r else record r { time_now = t.block_at }

-- `if r.TimeElapsed < defaultDenyDuration { ... }`
block : Readings → AuthCheckResult → AuthCheckResult
block t r =
    if ltb r.time_elapsed default_deny_duration
    then record r {
      is_temporarily_blocked = true;
      time_elapsed = seconds_since r.time_now t.since_at;
    }
    else r

-- `timeRemain := defaultDenyDuration - r.TimeElapsed`, which is not negative exactly when the
-- elapsed time is at most the duration, and the two branches on its sign.
settle : Readings → AuthCheckResult → AuthCheckResult
settle t r =
    if leb r.time_elapsed default_deny_duration
    then record r { time_remain = default_deny_duration - r.time_elapsed }
    else record {
      time_now = t.unlock_at;
      failed_times = 0;
      is_temporarily_blocked = false;
      time_elapsed = 0;
      time_remain = 0;
    }

-- What one more check makes of the entry of a principal that is in the store.
unfoldable pub next_check : Readings → AuthCheckResult → AuthCheckResult
unfolding stamp block settle
next_check t r =
    let counted = record r { failed_times = r.failed_times + 1 } in
    if leb default_failed_times counted.failed_times
    then settle t (block t (stamp t counted))
    else counted

-- 300 seconds
abbrev pub store_span : ℕ
store_span = 300 * second

module _ (C : Cache AuthCheckResult) where
  -- An entry that is gone between `IsExist` and `Get` gives the zero result and is not stored; the
  -- two are one reading of the clock here, and one lookup.
  unfoldable pub check_auth_failed_times : C.State → Readings → String → AuthCheckResult × C.State
  unfolding next_check
  check_auth_failed_times s t principal = elim (C.get s t.lookup_at principal) [
    | some r ↦ let r' = next_check t r in (r', C.put s t.store_at principal r' store_span)
    | none ↦ (fresh, C.put s t.store_at principal fresh store_span)
  ]

  -- `temporaryStore.Delete(principal)`; the Boolean is false when it returns an error.
  unfoldable pub reset_auth_failed_times : C.State → String → Bool × C.State
  reset_auth_failed_times s principal = C.delete s principal
