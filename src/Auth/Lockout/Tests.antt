-- ===== src/Auth/Lockout/Tests.antt =====
-- Failed sign-ins of one principal, a second apart.
use board_old.Prelude.Go.{lookup}
use board_old.Prelude.{ℕ, ◌*◌, ◌≤◌, ◌≡◌, refl, true, false, some, arith}
use board_old.Prelude.{List, [], ◌∷◌}
use board_old.Prelude.Go.{lookup}
use board_old.Cache.{Cache}
use board_old.Cache.Memory.{memory, memory-IsLawful}
use board_old.Auth.Lockout.{AuthCheckResult, Readings, fresh, next_check, second, store_span}
use board_old.Auth.Lockout.Laws.{IsValid, fresh-IsValid, next_check-IsValid}
use board_old.Auth.Lockout.Trace.{checks, checks_block, checks_stuck, attempts, get-attempts}

-- All readings of one call at a second.
abbrev at : ℕ → Readings
at n = record {
  lookup_at = n * second;
  block_at = n * second;
  since_at = n * second;
  unlock_at = n * second;
  store_at = n * second;
}

abbrev two : List Readings
two = at 1 ∷ at 2 ∷ []

abbrev nine : List Readings
nine = at 1 ∷ at 2 ∷ at 3 ∷ at 4 ∷ at 5 ∷ at 6 ∷ at 7 ∷ at 8 ∷ at 9 ∷ []

-- The entry after the tenth failure.
abbrev blocked : AuthCheckResult
blocked = next_check (at 10) (checks nine fresh)

blocked_entry : blocked ≡ record {
  time_now = 10 * second;
  failed_times = 10;
  is_temporarily_blocked = true;
  time_elapsed = 0;
  time_remain = 120;
}
unfolding next_check
blocked_entry = refl

-- The entry after a check 120 seconds later.
abbrev stuck : AuthCheckResult
stuck = next_check (at 130) blocked

blocked-IsValid : IsValid blocked
blocked-IsValid = next_check-IsValid (at 10) (checks nine fresh) (
    next_check-IsValid (at 9) _ (
      next_check-IsValid (at 8) _ (
        next_check-IsValid (at 7) _ (
          next_check-IsValid (at 6) _ (
            next_check-IsValid (at 5) _ (
              next_check-IsValid (at 4) _ (
                next_check-IsValid (at 3) _ (
                  next_check-IsValid (at 2) _
                    (next_check-IsValid (at 1) fresh fresh-IsValid)))))))))

next_check-IsValid_example : IsValid (next_check (at 1) fresh)
next_check-IsValid_example = next_check-IsValid (at 1) fresh fresh-IsValid

checks_block_example :
    ((checks nine fresh).is_temporarily_blocked ≡ false)
    × ((checks (at 60 ∷ at 129 ∷ []) blocked).is_temporarily_blocked ≡ true)
checks_block_example =
    checks_block nine (at 10) (at 60 ∷ at 129 ∷ []) refl (omega arith)
      (omega arith, (omega arith, tt))

checks_stuck_example : (checks (at 200 ∷ at 400 ∷ at 600 ∷ []) stuck).is_temporarily_blocked ≡ true
unfolding next_check
checks_stuck_example =
    checks_stuck (at 200 ∷ at 400 ∷ at 600 ∷ []) stuck
      (next_check-IsValid (at 130) blocked blocked-IsValid) refl refl

abbrev Store : Cache AuthCheckResult
Store = memory AuthCheckResult

-- The store after a first failure, which is not counted, of the principal.
abbrev stored : Store.State
stored = ("ann", (fresh, store_span)) ∷ []

stored_is_found : (now : ℕ) → now ≤ store_span → Store.get stored now "ann" ≡ some fresh
unfolding lookup
stored_is_found now h = ground arith

get-attempts_example :
    Store.get (attempts Store two "ann" stored) (3 * second) "ann" ≡ some (checks two fresh)
get-attempts_example =
    get-attempts Store (memory-IsLawful AuthCheckResult) two "ann" stored fresh 0 (3 * second)
      stored_is_found (omega arith, (omega arith, tt)) (omega arith)
