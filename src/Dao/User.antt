-- ===== src/Dao/User.antt =====
-- common/dao/user.go: the table of users.
use board_old.Prelude.{ℕ, ◌≡◌, ◌≢◌, String, Option, none, some, List, [], ◌∷◌, if◌then◌else◌}
use board_old.Prelude.Int.{ℤ, eq_ℤ}
use board_old.Prelude.Effect.{Act}
use board_old.Model.User.{User}
use board_old.Dao.{Answer, found, failed, or_nil, or_zero}

-- The mapper's calls for the table, and the clock. `read` looks for a row that agrees with the given
-- one in the named columns, and `update` writes the named columns of the row with the same id.
pub record UserTable : Type 1 where
  pub State : Type 0
  pub now : State → ℕ
  pub read : State → User → List String → Answer User
  pub update : State → User → List String → Answer ℤ × State

-- A row with the columns that the program names when it updates one.
abbrev pub renamed : User → User → User
renamed q u = record u { username = q.username; email = q.email; deleted = q.deleted }

abbrev pub with_password : User → User → User
with_password q u = record u { password = q.password; reset_uuid = q.reset_uuid }

abbrev pub changed : (User → User) → Option User → Option User
changed f none = none
changed f (some u) = some (f u)

-- The rows by their id. A row that is read by its id is the row of that id.
pub record IsLawful (T : UserTable) : Type 0 where
  pub row : T.State → ℤ → Option User
  pub read-row :
      (s : T.State) (q u : User)
      → T.read s q ("id" ∷ "deleted" ∷ []) ≡ found u
      → (row s q.id ≡ some u) × (u.id ≡ q.id) × (u.deleted ≡ q.deleted)
  pub update-renamed :
      (s : T.State) (q : User) (id : ℤ)
      → (T.update s q ("username" ∷ "email" ∷ "deleted" ∷ [])).0 ≢ failed
      → row (T.update s q ("username" ∷ "email" ∷ "deleted" ∷ [])).1 id
        ≡ (if eq_ℤ q.id id then changed (renamed q) (row s id) else row s id)
  pub update-password :
      (s : T.State) (q : User) (id : ℤ)
      → (T.update s q ("password" ∷ "reset_uuid" ∷ [])).0 ≢ failed
      → row (T.update s q ("password" ∷ "reset_uuid" ∷ [])).1 id
        ≡ (if eq_ℤ q.id id then changed (with_password q) (row s id) else row s id)

module _ (T : UserTable) where
  unfoldable pub get_user : User → List String → Act T.State (Option User)
  get_user user fields s = (or_nil (T.read s user fields), s)

  unfoldable pub update_user : User → List String → Act T.State ℤ
  update_user user fields s =
      let (answer, s') = T.update s (record user { update_time = T.now s }) fields in
      (or_zero answer, s')
