-- ===== src/Auth/SignIn/Laws.antt =====
-- Who is signed in, and what a sign-in leaves in the stores.
use board_old.Prelude.{
  ℕ, ◌+◌, ◌*◌, ◌<◌, ◌≤◌, ◌≡◌, refl, ◌∙◌, ap, Bool, true, false, not, ◌&&◌, Option, none, some,
  String, List, [], ◌∷◌, if◌then◌else◌,
}
use board_old.Prelude.Text.{str_eq, str_eq_refl}
use board_old.Cache.{Cache, IsLawful, get-put_alive}
use board_old.Auth.Lockout.{AuthCheckResult, Readings, second, default_deny_duration}
use board_old.Auth.Lockout.{check_auth_failed_times, reset_auth_failed_times}
use board_old.Auth.Lockout.Laws.{IsValid, next_check_keeps}
use board_old.Auth.Lockout.Trace.{check-found}
use board_old.Auth.SignIn.Interface.{
  User, payload_of, Entry, token, session, flag, Reply, World, Moments, decode_user_password,
  refused, invalid_captcha,
}
use board_old.Auth.SignIn.{
  Outcome, mode_of, with_token, with_answer, reset_count, failed, info_of, forget, remember,
  open_session, check_credentials, process_auth, captcha_key, needs_captcha, flag_of,
}

module _ (T : Cache AuthCheckResult) (M : Cache Entry) (span : ℕ) where
  -- While the block of a principal lasts no sign-in succeeds, whatever the password and the answers
  -- of the world are, and no session changes.
  pub process_auth_blocked :
      (w : World) (s : T.State) (m : M.State) (t : Readings) (now : Moments)
      (principal password : String) (r : AuthCheckResult)
      → T.get s t.lookup_at principal ≡ some r
      → IsValid r
      → r.is_temporarily_blocked ≡ true
      → t.since_at < r.time_now + default_deny_duration * second
      → let o = process_auth T M span w s m t now principal password in
        (o.result ≡ ("", false)) × (o.memory ≡ m)
  unfolding process_auth
  process_auth_blocked w s m t now principal password r found v b before =
      let (still, _) = next_check_keeps t r v b before in
      rw (check-found T s t principal r found, still) (refl, refl)

  -- What a successful sign-in has found, and what it leaves: `text` is the token.
  pub record IsOpened (w : World) (s : T.State) (m : M.State) (now : Moments) (principal : String)
      (user : User) (text : String) (o : Outcome T.State M.State) : Type 0 where
    pub signed : w.sign_token (payload_of user) ≡ some text
    pub returned : o.result ≡ (text, true)
    pub stored :
        o.memory
        ≡ remember T M span
            (forget T M span (M.delete m captcha_key).1 now.last_at user.username)
            now
            user
            text
    pub reset : o.attempts ≡ (T.delete s principal).1

  reset_count_lem :
      (replies : List Reply) (p : Bool × T.State) (m : M.State) (text : String)
      → let o = reset_count T M span replies p m text in
        o.result.1 ≡ true → (o.result ≡ (text, true)) × (o.memory ≡ m) × (o.attempts ≡ p.1)
  reset_count_lem replies (true, s) m text h = (refl, refl, refl)
  reset_count_lem replies (false, s) m text h = cc

  with_token-IsOpened :
      (w : World) (replies : List Reply) (s : T.State) (m : M.State) (now : Moments)
      (principal : String) (user : User) (signed : Option String)
      → w.sign_token (payload_of user) ≡ signed
      → let forgotten = forget T M span (M.delete m captcha_key).1 now.last_at user.username in
        let o = with_token T M span replies s forgotten now principal user signed in
        o.result.1 ≡ true → (text : String) × IsOpened w s m now principal user text o
  unfolding reset_auth_failed_times
  with_token-IsOpened w replies s m now principal user none e h = cc
  with_token-IsOpened w replies s m now principal user (some text) e h =
      let (r, n, a) = reset_count_lem replies (T.delete s principal) _ text h in
      (text, record { signed = e; returned = r; stored = n; reset = a })

  -- The user that the method of sign-in has accepted, and the session that was opened.
  abbrev pub Accepted :
      World → T.State → M.State → Moments → String → String → Outcome T.State M.State → Type 0
  Accepted w s m now principal password o =
      (user : User) × (w.do_auth (mode_of w principal) principal (decode_user_password w password).0
        ≡ some (some user))
      × (text : String) × IsOpened w s m now principal user text o

  with_answer-Accepted :
      (w : World) (replies : List Reply) (retries : ℕ) (s : T.State) (m : M.State) (now : Moments)
      (principal password : String) (answer : Option (Option User))
      → w.do_auth (mode_of w principal) principal (decode_user_password w password).0 ≡ answer
      → let o = with_answer T M span w replies retries s m now principal answer in
        o.result.1 ≡ true → Accepted w s m now principal password o
  unfolding open_session
  with_answer-Accepted w replies retries s m now principal password none e h = cc
  with_answer-Accepted w replies retries s m now principal password (some none) e h = cc
  with_answer-Accepted w replies retries s m now principal password (some (some user)) e h =
      let (text, opened) = with_token-IsOpened w replies s m now principal user _ refl h in
      (user, e, text, opened)

  -- A test that a failed sign-in follows, one way or the other.
  passed :
      (b : Bool) (P : Outcome T.State M.State → Type 0) (o : Outcome T.State M.State)
      (replies : List Reply) (s : T.State) (m : M.State)
      → (o.result.1 ≡ true → P o)
      → (if b then o else failed T M span replies s m).result.1 ≡ true
      → (b ≡ true) × P (if b then o else failed T M span replies s m)
  passed true P o replies s m k h = (refl, k h)
  passed false P o replies s m k h = cc

  not_refused :
      (b : Bool) (P : Outcome T.State M.State → Type 0) (o : Outcome T.State M.State)
      (replies : List Reply) (s : T.State) (m : M.State)
      → (o.result.1 ≡ true → P o)
      → (if b then failed T M span replies s m else o).result.1 ≡ true
      → (b ≡ false) × P (if b then failed T M span replies s m else o)
  not_refused true P o replies s m k h = cc
  not_refused false P o replies s m k h = (refl, k h)

  check_credentials-Accepted :
      (w : World) (retries : ℕ) (s : T.State) (m : M.State) (now : Moments)
      (principal password : String)
      → let o = check_credentials T M span w retries s m now principal password in
        o.result.1 ≡ true
        → (w.is_registered (mode_of w principal) ≡ true) × Accepted w s m now principal password o
  unfolding check_credentials
  check_credentials-Accepted w retries s m now principal password h =
      passed (w.is_registered (mode_of w principal)) (Accepted w s m now principal password) _ _ s m
        (with_answer-Accepted w _ retries s m now principal password _ refl) h

  -- The memory cache that the credentials are checked on: with the flag, where a captcha was asked.
  abbrev pub asked_memory : ℕ → M.State → Moments → M.State
  asked_memory retries m now =
      if needs_captcha retries (flag_of (M.get m now.captcha_at captcha_key))
      then M.put m now.flag_at captcha_key (flag true) (300 * second)
      else m

  -- A sign-in succeeds only for a principal that is not blocked, with a right captcha where one is
  -- asked for, by a registered method that accepts the decoded password, and with a signed token.
  -- It returns the token, remembers the user and the session after the last token of the user has
  -- been forgotten, and deletes the count of failures.
  pub process_auth-Accepted :
      (w : World) (s : T.State) (m : M.State) (t : Readings) (now : Moments)
      (principal password : String)
      → let o = process_auth T M span w s m t now principal password in
        let (checked, s') = check_auth_failed_times T s t principal in
        let asked =
          needs_captcha checked.failed_times (flag_of (M.get m now.captcha_at captcha_key)) in
        o.result.1 ≡ true
        → (checked.is_temporarily_blocked ≡ false)
          × ((asked && not w.verify_captcha) ≡ false)
          × (w.is_registered (mode_of w principal) ≡ true)
          × Accepted w s' (asked_memory checked.failed_times m now) now principal password o
  unfolding process_auth
  process_auth-Accepted w s m t now principal password h =
      let (checked, s') = check_auth_failed_times T s t principal in
      let retries = checked.failed_times in
      let m' = asked_memory retries m now in
      let asked = needs_captcha retries (flag_of (M.get m now.captcha_at captcha_key)) in
      let Rest = λ (o : Outcome T.State M.State).
        (w.is_registered (mode_of w principal) ≡ true)
        × Accepted w s' m' now principal password o in
      let wrong = refused (info_of retries invalid_captcha "Invalid captcha." 0) ∷ [] in
      let flagged = M.put m now.flag_at captcha_key (flag true) (300 * second) in
      let final = check_credentials T M span w retries s' m' now principal password in
      let captcha =
        not_refused (asked && not w.verify_captcha) Rest final wrong s' flagged
          (check_credentials-Accepted w retries s' m' now principal password) in
      let (open_, (right, (known, accepted))) =
        not_refused checked.is_temporarily_blocked
          (λ o. ((asked && not w.verify_captcha) ≡ false) × Rest o)
          (if asked && not w.verify_captcha then failed T M span wrong s' flagged else final) _ s' m
          captcha h in
      (open_, right, known, accepted)

module _ (T : Cache AuthCheckResult) (M : Cache Entry) (span : ℕ) (K : IsLawful T)
    (L : IsLawful M) where
  -- After a successful sign-in with lawful caches, while the cache keeps them, the token reads as
  -- the session and the user, whose name is not the token, as the token, and the principal has no
  -- count of failures.
  pub IsOpened-get :
      (w : World) (s : T.State) (m : M.State) (now : Moments) (principal : String) (user : User)
      (text : String) (o : Outcome T.State M.State)
      (opened : IsOpened T M span w s m now principal user text o) (later : ℕ)
      → 0 < span
      → later ≤ now.token_at + span
      → later ≤ now.user_at + span
      → str_eq text user.username ≡ false
      → (M.get o.memory later text ≡ some (session (payload_of user)))
        × (M.get o.memory later user.username ≡ some (token text))
        × (T.get o.attempts later principal ≡ none)
  unfolding remember
  IsOpened-get w s m now principal user text o opened later positive h k apart =
      let m' = forget T M span (M.delete m captcha_key).1 now.last_at user.username in
      let m'' = M.put m' now.user_at user.username (token text) span in
      (
        ap (λ x. M.get x later text) opened.stored
            ∙ get-put_alive M L m'' now.token_at later text (session (payload_of user)) span
                positive h,
        ap (λ x. M.get x later user.username) opened.stored
            ∙ L.get-put_ne m'' now.token_at later text user.username _ span apart
            ∙ get-put_alive M L m' now.user_at later user.username (token text) span positive k,
        ap (λ x. T.get x later principal) opened.reset
            ∙ K.get-delete s later principal principal
            ∙ rw (str_eq_refl principal) refl,
      )

  -- A user has one session: with lawful caches the token that was stored for the user before a
  -- successful sign-in reads as nothing after it, if it is neither the new token nor the user's
  -- name, and the name is not the captcha's key.
  pub IsOpened-one_session :
      (w : World) (s : T.State) (m : M.State) (now : Moments) (principal : String) (user : User)
      (text : String) (o : Outcome T.State M.State)
      (opened : IsOpened T M span w s m now principal user text o) (last : String) (later : ℕ)
      → M.get m now.last_at user.username ≡ some (token last)
      → str_eq captcha_key user.username ≡ false
      → str_eq text last ≡ false
      → str_eq user.username last ≡ false
      → M.get o.memory later last ≡ none
  unfolding remember forget
  IsOpened-one_session w s m now principal user text o opened last later stored key new name =
      let m₀ = (M.delete m captcha_key).1 in
      let kept : M.get m₀ now.last_at user.username ≡ some (token last) =
        L.get-delete m now.last_at captcha_key user.username ∙ rw key stored in
      let m₁ = (M.delete (M.delete m₀ last).1 user.username).1 in
      let forgotten : forget T M span m₀ now.last_at user.username ≡ m₁ = rw (kept, forget) refl in
      ap (λ x. M.get x later last)
        (opened.stored ∙ ap (λ x. remember T M span x now user text) forgotten)
      ∙ L.get-put_ne _ now.token_at later text last _ span new
      ∙ L.get-put_ne m₁ now.user_at later user.username last _ span name
      ∙ L.get-delete (M.delete m₀ last).1 later user.username last
      ∙ rw name (L.get-delete m₀ later last last ∙ rw (str_eq_refl last) refl)
