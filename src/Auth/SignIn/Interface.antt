-- ===== src/Auth/SignIn/Interface.antt =====
-- controllers/commons/auth.go: the data of a sign-in, and what ProcessAuth asks of the rest of the
-- program and of other services.
use board_old.Prelude.{ℕ, Bool, true, false, Option, none, some, String}
use board_old.Prelude.Int.{ℤ}
use board_old.Prelude.Decimal.{itoa}

-- Of a user what ProcessAuth reads.
pub record User : Type 0 where
  pub id : ℤ
  pub username : String
  pub email : String
  pub realname : String
  pub system_admin : ℤ

-- The entries of the map that a token is signed with.
pub record Payload : Type 0 where
  pub id : String
  pub username : String
  pub email : String
  pub realname : String
  pub is_system_admin : ℤ

abbrev pub payload_of : User → Payload
payload_of user = record {
  id = itoa user.id;
  username = user.username;
  email = user.email;
  realname = user.realname;
  is_system_admin = user.system_admin;
}

-- What the memory cache holds here: the captcha's flag, a user's token, a token's payload.
pub data Entry : Type 0 where
  flag : Bool → Entry
  token : String → Entry
  session : Payload → Entry

pub data ResolveType : Type 0 where
  unresolved failed_retries invalid_captcha temporary_block invalid_password : ResolveType

pub record ResolveInfo : Type 0 where
  pub retries : ℕ
  pub resolve_type : ResolveType
  pub description : String
  pub value : ℕ

-- What is written to the response. After `aborted` nothing follows.
pub data Reply : Type 0 where
  refused : ResolveInfo → Reply
  aborted : Reply

-- What ProcessAuth asks of the request, of the captcha library, of the configuration, of the methods
-- of sign-in and of the token server. A method that is not registered, and an error, is `none`;
-- `do_auth` gives `some none` where the credentials are wrong.
-- A text that is no base64 is `none`.
pub record World : Type 0 where
  pub verify_captcha : Bool
  pub auth_mode : String
  pub is_registered : String → Bool
  pub decode_base64 : String → Option String
  pub do_auth : String → String → String → Option (Option User)
  pub sign_token : Payload → Option String

-- service.DecodeUserPassword: the password, and whether it could be decoded.
abbrev pub decode_user_password : World → String → String × Bool
decode_user_password w password = elim (w.decode_base64 password) [
  | none ↦ ("", false)
  | some text ↦ (text, true)
]

-- The readings of the clock by the memory cache.
pub record Moments : Type 0 where
  pub captcha_at : ℕ
  pub flag_at : ℕ
  pub last_at : ℕ
  pub user_at : ℕ
  pub token_at : ℕ
