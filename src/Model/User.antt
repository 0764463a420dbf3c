-- ===== src/Model/User.antt =====
-- common/model/user.go: users.
use board_old.Prelude.{ℕ, String}
use board_old.Prelude.Int.{ℤ, pos}

pub record User : Type 0 where
  pub id : ℤ
  pub username : String
  pub password : String
  pub email : String
  pub realname : String
  pub comment : String
  pub deleted : ℤ
  pub system_admin : ℤ
  pub reset_uuid : String
  pub salt : String
  pub repo_token : String
  pub creation_time : ℕ
  pub update_time : ℕ
  pub failed_times : ℤ

-- `User{}`
abbrev pub zero_user : User
zero_user = record {
  id = pos 0;
  username = "";
  password = "";
  email = "";
  realname = "";
  comment = "";
  deleted = pos 0;
  system_admin = pos 0;
  reset_uuid = "";
  salt = "";
  repo_token = "";
  creation_time = 0;
  update_time = 0;
  failed_times = pos 0;
}
