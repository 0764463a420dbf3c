-- ===== src/Users.antt =====
-- apiserver/service/user.go: reading, updating and deleting a user. The function that hides a password,
-- which calls a library for cryptography, is a parameter.
pub mod Laws
mod Tests
use board_old.Prelude.{
  Bool, true, false, Option, none, some, String, List, [], ◌∷◌, ◌&&◌, not, if◌then◌else◌,
}
use Prim.Native.String.{◌++◌}
use board_old.Prelude.Int.{ℤ, pos, eq_ℤ}
use board_old.Prelude.Effect.{Act, ◌>>=◌, return, fail, or_panic, attempt}
use board_old.Model.User.{User, zero_user}
use board_old.Dao.User.{UserTable, get_user}
use board_old.Dao.User as Dao

-- What is left of a deleted user.
abbrev pub deleted_user : User → User
deleted_user user = record user {
  username = "%" ++ (user.username ++ "%");
  email = "%" ++ (user.email ++ "%");
  deleted = pos 1;
}

abbrev pub is_other : ℤ → Option User → Bool
is_other user_id none = false
is_other user_id (some u) = not (eq_ℤ u.id user_id)

abbrev pub is_admin : Option User → Bool
is_admin none = false
is_admin (some u) = not (eq_ℤ u.id (pos 0)) && eq_ℤ u.system_admin (pos 1)

module _ (T : UserTable) where
  unfoldable pub get_user_by_id : ℤ → Act T.State (Option User)
  get_user_by_id user_id =
      get_user T (record zero_user { id = user_id; deleted = pos 0 }) ("id" ∷ "deleted" ∷ [])

  unfoldable pub get_user_by_name : String → Act T.State (Option User)
  get_user_by_name username =
      get_user T (record zero_user { username = username; deleted = pos 0 })
        ("username" ∷ "deleted" ∷ [])

  unfoldable pub get_user_by_email : String → Act T.State (Option User)
  get_user_by_email email =
      get_user T (record zero_user { email = email; deleted = pos 0 }) ("email" ∷ "deleted" ∷ [])

  unfoldable pub get_user_by_reset_uuid : String → Act T.State (Option User)
  get_user_by_reset_uuid reset_uuid =
      get_user T (record zero_user { reset_uuid = reset_uuid; deleted = pos 0 })
        ("reset_uuid" ∷ "deleted" ∷ [])

  unfoldable pub update_user : User → List String → Act T.State Bool
  update_user user selected_fields =
      let updated = (do _ ← Dao.update_user T user selected_fields; return true) in
      if eq_ℤ user.id (pos 0) then fail else updated

  unfoldable pub update_user_uuid : ℤ → String → Act T.State Bool
  update_user_uuid user_id reset_uuid =
      update_user (record zero_user { id = user_id; reset_uuid = reset_uuid }) ("reset_uuid" ∷ [])

  unfoldable pub reset_user_password : (String → String → String) → User → String → Act T.State Bool
  reset_user_password encrypt user new_password =
      update_user (record user { password = encrypt new_password user.salt; reset_uuid = "" })
        ("password" ∷ "reset_uuid" ∷ [])

  -- The rest of `DeleteUser`: `none` is an error of the look-up, which is not passed on, and a user
  -- that is not found is a nil pointer, which is written to.
  unfoldable pub delete_found : Option (Option User) → Act T.State Bool
  delete_found none = return false
  delete_found (some pointer) = do
    user ← or_panic pointer
    _ ← Dao.update_user T (deleted_user user) ("username" ∷ "email" ∷ "deleted" ∷ [])
    return true

  unfoldable pub delete_user : ℤ → Act T.State Bool
  delete_user user_id = do looked_up ← attempt (get_user_by_id user_id); delete_found looked_up

  unfoldable pub user_exists : String → String → ℤ → Act T.State Bool
  user_exists field_name value user_id = do
    user ←
        get_user T (record zero_user { id = user_id; username = value; email = value })
          (field_name ∷ [])
    return (is_other user_id user)

  unfoldable pub is_sys_admin : ℤ → Act T.State Bool
  is_sys_admin user_id = do
    user ← get_user T (record zero_user { id = user_id }) ("id" ∷ [])
    return (is_admin user)
