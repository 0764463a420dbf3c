-- ===== src/Auth/SignIn.antt =====
-- apiserver/controllers/commons/auth.go: ProcessAuth, which signs a user in. It counts the attempt,
-- asks for a captcha after some failures, has the credentials checked, and keeps the session in the
-- memory cache under the user's name and under the token.
pub mod Interface
pub mod Laws
pub mod Tests
use board_old.Auth.SignIn.Interface.{
  User, Payload, payload_of, Entry, flag, token, session, ResolveType, unresolved, failed_retries,
  invalid_captcha, temporary_block, invalid_password, ResolveInfo, Reply, refused, aborted, World,
  decode_user_password, Moments,
}
use board_old.Prelude.{ℕ, ◌*◌, ◌≤◌, Bool, true, false, not, ◌&&◌, ◌||◌, Option, none, some, String}
use board_old.Prelude.{List, [], ◌∷◌, leb, ltb, if◌then◌else◌}
use board_old.Prelude.Int.{ℤ, pos}
use board_old.Prelude.Text.{str_eq}
use board_old.Prelude.Decimal.{itoa}
use board_old.Cache.{Cache}
use board_old.Auth.Lockout.{AuthCheckResult, Readings, second, default_failed_times}
use board_old.Auth.Lockout.{check_auth_failed_times, reset_auth_failed_times}

abbrev pub captcha_key : String
captcha_key = "validate_captcha"

abbrev pub default_failed_times_for_captcha : ℕ
default_failed_times_for_captcha = 3

-- The method that checks a principal.
abbrev pub mode_of : World → String → String
mode_of w principal = if str_eq principal "boardadmin" then "db_auth" else w.auth_mode

abbrev pub info_of : ℕ → ResolveType → String → ℕ → ResolveInfo
info_of retries kind description value = record {
  retries = retries;
  resolve_type = kind;
  description = description;
  value = value;
}

-- An entry that is the flag reads as it is, any other and none as false.
abbrev pub flag_of : Option Entry → Bool
flag_of (some (flag b)) = b
flag_of (some (token t)) = false
flag_of (some (session p)) = false
flag_of none = false

-- `authCheck.FailedTimes >= 3 && authCheck.FailedTimes < 10 || validateCaptcha`
abbrev pub needs_captcha : ℕ → Bool → Bool
needs_captcha failed flagged =
    (leb default_failed_times_for_captcha failed && ltb failed default_failed_times) || flagged

-- The token and the flag that are returned, the replies in order, and both stores.
pub record Outcome (T M : Type 0) : Type 0 where
  pub result : String × Bool
  pub replies : List Reply
  pub attempts : T
  pub memory : M

module _ (T : Cache AuthCheckResult) (M : Cache Entry) (cache_span : ℕ) where
  -- A sign-in without a token.
  abbrev pub failed : List Reply → T.State → M.State → Outcome T.State M.State
  failed replies attempts memory = record {
    result = ("", false);
    replies = replies;
    attempts = attempts;
    memory = memory;
  }

  -- The last token of the user, if there is one, and the user are forgotten.
  unfoldable pub forget : M.State → ℕ → String → M.State
  forget m now name = elim (M.get m now name) [
    | some (token last) ↦ (M.delete (M.delete m last).1 name).1
    | some (flag b) ↦ (M.delete m name).1
    | some (session p) ↦ (M.delete m name).1
    | none ↦ m
  ]

  -- The user under the name and the session under the token.
  unfoldable pub remember : M.State → Moments → User → String → M.State
  remember m now user text =
      M.put (M.put m now.user_at user.username (token text) cache_span) now.token_at text
        (session (payload_of user)) cache_span

  -- Lines 122 to 129: the count of failures is reset, by the answer of the store.
  abbrev pub reset_count : List Reply → Bool × T.State → M.State → String → Outcome T.State M.State
  reset_count replies (true, s) m text = record {
    result = (text, true);
    replies = replies;
    attempts = s;
    memory = m;
  }
  reset_count replies (false, s) m text = failed (aborted ∷ replies) s m

  -- Lines 114 to 129, by the answer of the token server.
  abbrev pub with_token :
      List Reply
      → T.State
      → M.State
      → Moments
      → String
      → User
      → Option String
      → Outcome T.State M.State
  with_token replies s m now principal user none = failed (aborted ∷ replies) s m
  with_token replies s m now principal user (some text) =
      reset_count replies (reset_auth_failed_times T s principal) (remember m now user text) text

  -- A user whose credentials are right: lines 97 to 129.
  unfoldable pub open_session :
      World → List Reply → T.State → M.State → Moments → String → User → Outcome T.State M.State
  unfolding forget remember
  open_session w replies s m now principal user =
      let forgotten = forget (M.delete m captcha_key).1 now.last_at user.username in
      with_token replies s forgotten now principal user (w.sign_token (payload_of user))

  abbrev pub wrong_credentials : ℕ → Reply
  wrong_credentials retries =
      refused (info_of retries failed_retries "Incorrect username or password." 0)

  abbrev pub bad_password : ℕ → Reply
  bad_password retries = refused (info_of retries invalid_password "Invalid password content." 0)

  -- Lines 84 to 129, by the answer of the method of sign-in.
  abbrev pub with_answer :
      World
      → List Reply
      → ℕ
      → T.State
      → M.State
      → Moments
      → String
      → Option (Option User)
      → Outcome T.State M.State
  with_answer w replies retries s m now principal none = failed (aborted ∷ replies) s m
  with_answer w replies retries s m now principal (some none) =
      failed (wrong_credentials retries ∷ replies) s m
  with_answer w replies retries s m now principal (some (some user)) =
      open_session w replies s m now principal user

  -- The check of the credentials: lines 67 to 129. A password that cannot be decoded is refused, and
  -- is checked all the same, as the source does. The latest reply stands first.
  unfoldable pub check_credentials :
      World → ℕ → T.State → M.State → Moments → String → String → Outcome T.State M.State
  unfolding open_session
  check_credentials w retries s m now principal password =
      let mode = mode_of w principal in
      let (decoded, fine) = decode_user_password w password in
      let replies = if fine then [] else bad_password retries ∷ [] in
      let answered =
        with_answer w replies retries s m now principal (w.do_auth mode principal decoded) in
      if w.is_registered mode then answered else failed (aborted ∷ []) s m

  unfoldable pub process_auth :
      World → T.State → M.State → Readings → Moments → String → String → Outcome T.State M.State
  unfolding check_credentials
  process_auth w s m t now principal password =
      let (checked, s') = check_auth_failed_times T s t principal in
      let retries = checked.failed_times in
      let asked = needs_captcha retries (flag_of (M.get m now.captcha_at captcha_key)) in
      let flagged = M.put m now.flag_at captcha_key (flag true) (300 * second) in
      let m' = if asked then flagged else m in
      let blocked = info_of retries temporary_block "Temporarily blocked." checked.time_remain in
      let wrong = info_of retries invalid_captcha "Invalid captcha." 0 in
      if checked.is_temporarily_blocked
      then failed (refused blocked ∷ []) s' m
      else if asked && not w.verify_captcha
      then failed (refused wrong ∷ []) s' flagged
      else check_credentials w retries s' m' now principal password
