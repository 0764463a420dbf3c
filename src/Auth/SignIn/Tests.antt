-- ===== src/Auth/SignIn/Tests.antt =====
-- A user signs in again, and a blocked one tries to.
use board_old.Prelude.Go.{insert}
use board_old.Auth.Lockout.{reset_auth_failed_times}
use board_old.Prelude.Go.{lookup}
use board_old.Prelude.{ℕ, ◌*◌, ◌≡◌, refl, true, false, not, ◌&&◌, none}
use board_old.Prelude.{some, [], ◌∷◌, arith, if◌then◌else◌}
use board_old.Prelude.Int.{pos}
use board_old.Prelude.Text.{str_eq}
use board_old.Prelude.Go.{lookup, delete}
use board_old.Cache.{Cache}
use board_old.Cache.Memory.{memory, memory-IsLawful}
use board_old.Auth.Lockout.{
  AuthCheckResult, Readings, fresh, second, store_span, check_auth_failed_times,
}
use board_old.Auth.Lockout.Laws.{IsValid}
use board_old.Auth.SignIn.Interface.{
  User, payload_of, Entry, token, session, World, Moments, refused, invalid_password,
  failed_retries,
}
use board_old.Auth.SignIn.{
  Outcome, process_auth, needs_captcha, flag_of, captcha_key, mode_of, info_of, remember, forget,
}
use board_old.Auth.SignIn.Laws.{
  process_auth_blocked, process_auth-Accepted, Accepted, asked_memory, IsOpened, IsOpened-get,
  IsOpened-one_session,
}

abbrev Attempts : Cache AuthCheckResult
Attempts = memory AuthCheckResult

abbrev Sessions : Cache Entry
Sessions = memory Entry

abbrev ann : User
ann = record {
  id = pos 7;
  username = "ann";
  email = "ann@board.org";
  realname = "Ann";
  system_admin = pos 0;
}

abbrev world : World
world = record {
  verify_captcha = true;
  auth_mode = "ldap_auth";
  is_registered = λ mode. true;
  decode_base64 = λ text. if str_eq text "c2VjcmV0" then some "secret" else none;
  do_auth = λ mode principal password. some (if str_eq password "secret" then some ann else none);
  sign_token = λ p. some "t2";
}

abbrev at : ℕ → Readings
at n = record {
  lookup_at = n * second;
  block_at = n * second;
  since_at = n * second;
  unlock_at = n * second;
  store_at = n * second;
}

abbrev moments : Moments
moments = record {
  captcha_at = second;
  flag_at = second;
  last_at = second;
  user_at = second;
  token_at = second;
}

abbrev span : ℕ
span = 1800 * second

-- A session of the user from before.
abbrev before : Sessions.State
before = ("ann", (token "t1", span)) ∷ ("t1", (session (payload_of ann), span)) ∷ []

abbrev signed_in : Outcome Attempts.State Sessions.State
signed_in = process_auth Attempts Sessions span world [] before (at 1) moments "ann" "c2VjcmV0"

signed_in_result : signed_in.result ≡ ("t2", true)
unfolding process_auth check_auth_failed_times lookup reset_auth_failed_times insert
signed_in_result = refl

-- A text that is no base64 is refused, and is checked as the empty password all the same.
undecoded_is_checked :
    (process_auth Attempts Sessions span world [] before (at 1) moments "ann" "?").replies
    ≡ refused (info_of 0 failed_retries "Incorrect username or password." 0)
      ∷ refused (info_of 0 invalid_password "Invalid password content." 0)
      ∷ []
unfolding process_auth check_auth_failed_times lookup
undecoded_is_checked = refl

abbrev blocked : AuthCheckResult
blocked = record {
  time_now = 0;
  failed_times = 10;
  is_temporarily_blocked = true;
  time_elapsed = 0;
  time_remain = 120;
}

blocked-IsValid : IsValid blocked
blocked-IsValid = record { gate = refl; idle = λ e. cc; remain = λ e. refl }

process_auth_blocked_example :
    let o =
      process_auth Attempts Sessions span world
        (("ann", (blocked, store_span)) ∷ [])
        before
        (at 60)
        moments
        "ann"
        "c2VjcmV0" in
    (o.result ≡ ("", false)) × (o.memory ≡ before)
unfolding lookup
process_auth_blocked_example =
    process_auth_blocked Attempts Sessions span world (("ann", (blocked, store_span)) ∷ []) before
      (at 60) moments "ann" "c2VjcmV0" blocked refl blocked-IsValid refl (omega arith)

process_auth-Accepted_example :
    let (checked, s') = check_auth_failed_times Attempts [] (at 1) "ann" in
    let asked =
      needs_captcha checked.failed_times (flag_of (Sessions.get before second captcha_key)) in
    (checked.is_temporarily_blocked ≡ false)
    × ((asked && not world.verify_captcha) ≡ false)
    × (world.is_registered (mode_of world "ann") ≡ true)
    × Accepted Attempts Sessions span world s'
        (asked_memory Attempts Sessions span checked.failed_times before moments)
        moments
        "ann"
        "c2VjcmV0"
        signed_in
unfolding process_auth check_auth_failed_times lookup reset_auth_failed_times insert
process_auth-Accepted_example =
    process_auth-Accepted Attempts Sessions span world [] before (at 1) moments "ann" "c2VjcmV0"
      refl

-- What a sign-in leaves that has found right credentials.
abbrev opened : Outcome Attempts.State Sessions.State
opened = record {
  result = ("t2", true);
  replies = [];
  attempts = [];
  memory = remember Attempts Sessions span [] moments ann "t2";
}

opened-IsOpened :
    IsOpened Attempts Sessions span world
      (("ann", (fresh, store_span)) ∷ [])
      before
      moments
      "ann"
      ann
      "t2"
      opened
unfolding forget lookup delete
opened-IsOpened = record { signed = refl; returned = refl; stored = refl; reset = refl }

IsOpened-get_example :
    (Sessions.get opened.memory (9 * second) "t2" ≡ some (session (payload_of ann)))
    × (Sessions.get opened.memory (9 * second) "ann" ≡ some (token "t2"))
    × (Attempts.get opened.attempts (9 * second) "ann" ≡ none)
IsOpened-get_example =
    IsOpened-get Attempts Sessions span (memory-IsLawful AuthCheckResult) (memory-IsLawful Entry)
      world (("ann", (fresh, store_span)) ∷ []) before moments "ann" ann "t2" opened opened-IsOpened
      (9 * second) (omega arith) (omega arith) (omega arith) refl

IsOpened-one_session_example : Sessions.get opened.memory (9 * second) "t1" ≡ none
unfolding lookup
IsOpened-one_session_example =
    IsOpened-one_session Attempts Sessions span (memory-IsLawful AuthCheckResult)
      (memory-IsLawful Entry) world (("ann", (fresh, store_span)) ∷ []) before moments "ann" ann
      "t2" opened opened-IsOpened "t1" (9 * second) refl refl refl refl
