-- ===== src/Auth/Lockout/Trace.antt =====
-- Sequences of checks of one principal, on the entry and through the store.
use board_old.Prelude.{
  Option-cases, inl, inr, ℕ, suc, ◌+◌, ◌*◌, ◌<◌, ◌≤◌, true, false, ◌≡◌, refl, arith,
}
use board_old.Prelude.{List, [], ◌∷◌, some, none, String, ◌∙◌}
use board_old.Prelude.Text.{str_eq}
use board_old.Cache.{Cache, IsLawful, get-put_alive}
use board_old.Auth.Lockout.{AuthCheckResult, Readings, fresh, next_check, store_span}
use board_old.Auth.Lockout.{check_auth_failed_times}
use board_old.Auth.Lockout.{default_failed_times, default_deny_duration, second}
use board_old.Auth.Lockout.Laws.{IsValid, next_check-IsValid, fresh-IsValid, next_check_keeps}
use board_old.Auth.Lockout.Laws.{next_check_counts, next_check_blocks}

-- The entry after one check at each of the readings.
abbrev pub checks : List Readings → AuthCheckResult → AuthCheckResult
checks [] r = r
checks (t ∷ ts) r = checks ts (next_check t r)

abbrev pub length : List Readings → ℕ
length [] = 0
length (t ∷ ts) = suc (length ts)

-- Every reading that a block counts from lies before `limit`.
abbrev pub AllBefore : ℕ → List Readings → Type 0
AllBefore limit [] = Unit
AllBefore limit (t ∷ ts) = (t.since_at < limit) × AllBefore limit ts

pub checks-IsValid : (ts : List Readings) (r : AuthCheckResult) → IsValid r → IsValid (checks ts r)
checks-IsValid [] r v = v
checks-IsValid (t ∷ ts) r v = checks-IsValid ts (next_check t r) (next_check-IsValid t r v)

-- Below ten failures in all, each check counts one and none is blocked.
pub checks_count :
    (ts : List Readings) (r : AuthCheckResult)
    → IsValid r
    → r.failed_times + length ts < default_failed_times
    → ((checks ts r).failed_times ≡ r.failed_times + length ts)
      × ((checks ts r).is_temporarily_blocked ≡ false)
checks_count [] r v h = ground (arith, v.gate)
checks_count (t ∷ ts) r v h =
    let (counted, open_) = next_check_counts t r v (omega arith) in
    let (n, b) = checks_count ts (next_check t r) (next_check-IsValid t r v) (omega arith) in
    (omega arith, b)

-- A block holds, from the same moment on, through every check before its duration is over.
pub checks_keep :
    (ts : List Readings) (r : AuthCheckResult)
    → IsValid r
    → r.is_temporarily_blocked ≡ true
    → AllBefore (r.time_now + default_deny_duration * second) ts
    → ((checks ts r).is_temporarily_blocked ≡ true) × ((checks ts r).time_now ≡ r.time_now)
checks_keep [] r v b h = (b, refl)
checks_keep (t ∷ ts) r v b (before, rest) =
    let (b', same) = next_check_keeps t r v b before in
    let (b'', same') =
      checks_keep ts (next_check t r) (next_check-IsValid t r v) b' (rw same rest) in
    (b'', same' ∙ same)

-- From a fresh entry nine checks block nobody, the tenth does, if it takes less than 120 seconds,
-- and the principal stays blocked at every check in the 120 seconds that follow.
pub checks_block :
    (ts : List Readings) (t : Readings) (later : List Readings)
    → length ts ≡ 9
    → t.since_at < t.block_at + default_deny_duration * second
    → AllBefore (t.block_at + default_deny_duration * second) later
    → ((checks ts fresh).is_temporarily_blocked ≡ false)
      × ((checks later (next_check t (checks ts fresh))).is_temporarily_blocked ≡ true)
checks_block ts t later nine now before =
    let v = checks-IsValid ts fresh fresh-IsValid in
    let (n, open_) = checks_count ts fresh fresh-IsValid (omega arith) in
    let (b, at, _) = next_check_blocks t (checks ts fresh) v (omega arith) now in
    let v' = next_check-IsValid t (checks ts fresh) v in
    (open_, (checks_keep later (next_check t (checks ts fresh)) v' b (rw at before)).0)

next_check_stuck :
    (t : Readings) (r : AuthCheckResult)
    → IsValid r
    → r.is_temporarily_blocked ≡ true
    → r.time_elapsed ≡ default_deny_duration
    → ((next_check t r).is_temporarily_blocked ≡ true)
      × ((next_check t r).time_elapsed ≡ default_deny_duration)
unfolding next_check
next_check_stuck t r v b e = ground arith

-- An entry whose recorded elapsed time equals the duration stays blocked at every later check,
-- whatever the time: `TimeElapsed` is then neither below the duration, so that it would be
-- brought up to date, nor above it, so that the entry would be cleared.
pub checks_stuck :
    (ts : List Readings) (r : AuthCheckResult)
    → IsValid r
    → r.is_temporarily_blocked ≡ true
    → r.time_elapsed ≡ default_deny_duration
    → (checks ts r).is_temporarily_blocked ≡ true
checks_stuck [] r v b e = b
checks_stuck (t ∷ ts) r v b e =
    let (b', e') = next_check_stuck t r v b e in
    checks_stuck ts (next_check t r) (next_check-IsValid t r v) b' e'

module _ (C : Cache AuthCheckResult) where
  -- One call of the code for each of the readings.
  abbrev pub attempts : List Readings → String → C.State → C.State
  attempts [] p s = s
  attempts (t ∷ ts) p s = attempts ts p (check_auth_failed_times C s t p).1

  -- Each lookup comes within the lifespan of the entry that the call before it stored.
  abbrev pub InSpan : ℕ → List Readings → Type 0
  InSpan stored [] = Unit
  InSpan stored (t ∷ ts) = (t.lookup_at ≤ stored + store_span) × InSpan t.store_at ts

  abbrev pub last_stored : ℕ → List Readings → ℕ
  last_stored stored [] = stored
  last_stored stored (t ∷ ts) = last_stored t.store_at ts

  pub check-found :
      (s : C.State) (t : Readings) (p : String) (r : AuthCheckResult)
      → C.get s t.lookup_at p ≡ some r
      → check_auth_failed_times C s t p
        ≡ (next_check t r, C.put s t.store_at p (next_check t r) store_span)
  unfolding check_auth_failed_times
  check-found s t p r e = rw (e, check_auth_failed_times)

  pub check-absent :
      (s : C.State) (t : Readings) (p : String)
      → C.get s t.lookup_at p ≡ none
      → check_auth_failed_times C s t p ≡ (fresh, C.put s t.store_at p fresh store_span)
  unfolding check_auth_failed_times
  check-absent s t p e = rw (e, check_auth_failed_times)

module _ (C : Cache AuthCheckResult) (L : IsLawful C) where
  -- From a stored entry of a lawful cache on, calls that each come within the lifespan of the entry
  -- before leave in the cache the entry that the checks make of it.
  pub get-attempts :
      (ts : List Readings) (p : String) (s : C.State) (r : AuthCheckResult) (stored later : ℕ)
      → ((now : ℕ) → now ≤ stored + store_span → C.get s now p ≡ some r)
      → InSpan C stored ts
      → later ≤ last_stored C stored ts + store_span
      → C.get (attempts C ts p s) later p ≡ some (checks ts r)
  get-attempts [] p s r stored later found near h = found later h
  get-attempts (t ∷ ts) p s r stored later found (n, near) h =
      rw (check-found C s t p r (found t.lookup_at n)) (
        get-attempts ts p (C.put s t.store_at p (next_check t r) store_span) (next_check t r)
          t.store_at later
          (λ now k.
            get-put_alive C L s t.store_at now p (next_check t r) store_span (omega arith) k)
          near h)

  -- In a lawful cache a call for one principal leaves the entries of the others as they are.
  pub get-check_ne :
      (s : C.State) (t : Readings) (p q : String) (later : ℕ)
      → str_eq p q ≡ false
      → C.get (check_auth_failed_times C s t p).1 later q ≡ C.get s later q
  get-check_ne s t p q later ne = elim (Option-cases (C.get s t.lookup_at p)) [
    | inl e ↦ rw (check-absent C s t p e) (L.get-put_ne s t.store_at later p q fresh store_span ne)
    | inr (r, e) ↦
        rw (check-found C s t p r e)
          (L.get-put_ne s t.store_at later p q (next_check t r) store_span ne)
  ]
