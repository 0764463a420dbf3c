-- ===== src/Dao/Member.antt =====
-- common/dao/projectmember.go: the table of the members of projects.
use board_old.Prelude.{
  ◌≡◌, ◌≢◌, ◌⊎◌, ◌&&◌, String, Option, none, some, List, [], ◌∷◌, if◌then◌else◌,
}
use board_old.Prelude.Int.{ℤ, eq_ℤ, add_int64}
use board_old.Prelude.Effect.{Act, Result, ok, err}
use board_old.Auth.SignIn.Interface.{User}
use board_old.Model.Project.{Project, ProjectMember}
use board_old.Dao.{Answer, found, no_rows, failed, or_zero}

-- The statements as the database runs them. The users and projects that are read are those not
-- marked as deleted. `upsert` is the "insert ... on duplicate key update role_id" with the row's
-- own id, `remove` deletes the rows of an id, and `members` lists the rows of a project whose user is
-- in the table of users.
pub record MemberTable : Type 1 where
  pub State : Type 0
  pub user_by_id : State → ℤ → Answer User
  pub project_by_id : State → ℤ → Answer Project
  pub project_by_name : State → String → Answer Project
  pub upsert : State → ProjectMember → Answer ℤ × State
  pub remove : State → ℤ → Answer ℤ × State
  pub members : State → ℤ → Answer (List ProjectMember)

abbrev pub Has : ProjectMember → List ProjectMember → Type 0
Has m [] = ⊥
Has m (x ∷ rest) = (x ≡ m) ⊎ Has m rest

-- The role in a row by the three columns of its primary key, and which users the table of users has.
-- A statement that does not fail writes the row of its three columns or, for `remove`, deletes
-- all rows of its id.
pub record IsLawful (D : MemberTable) : Type 1 where
  pub role : D.State → ℤ → ℤ → ℤ → Option ℤ
  pub has_user : D.State → ℤ → Type 0
  pub role-upsert :
      (s : D.State) (m : ProjectMember) (id p u : ℤ)
      → (D.upsert s m).0 ≢ failed
      → role (D.upsert s m).1 id p u ≡ (
          if eq_ℤ m.id id && eq_ℤ m.project_id p && eq_ℤ m.user_id u
          then some m.role_id
          else role s id p u)
  pub user-upsert :
      (s : D.State) (m : ProjectMember) (u : ℤ) → has_user s u → has_user (D.upsert s m).1 u
  pub role-remove :
      (s : D.State) (gone id p u : ℤ)
      → (D.remove s gone).0 ≢ failed
      → role (D.remove s gone).1 id p u ≡ (if eq_ℤ gone id then none else role s id p u)
  pub listed-role :
      (s : D.State) (p : ℤ) (ms : List ProjectMember) (m : ProjectMember)
      → D.members s p ≡ found ms
      → Has m ms
      → role s m.id p m.user_id ≡ some m.role_id
  pub role-listed :
      (s : D.State) (id p u r : ℤ) (ms : List ProjectMember)
      → D.members s p ≡ found ms
      → role s id p u ≡ some r
      → has_user s u
      → (m : ProjectMember) × Has m ms × (m.user_id ≡ u) × (m.role_id ≡ r)

module _ (D : MemberTable) where
  unfoldable pub insert_or_update_project_member : ProjectMember → Act D.State ℤ
  insert_or_update_project_member m s =
      let (answer, s') = D.upsert s (record m { id = add_int64 m.user_id m.project_id }) in
      (or_zero answer, s')

  -- Here the error is returned whatever it is.
  abbrev pub any_error : Answer ℤ → Result ℤ
  any_error (found n) = ok n
  any_error no_rows = err
  any_error failed = err

  unfoldable pub delete_project_member : ℤ → Act D.State ℤ
  delete_project_member id s = let (answer, s') = D.remove s id in (any_error answer, s')

  abbrev pub or_empty : Answer (List ProjectMember) → Result (List ProjectMember)
  or_empty (found ms) = ok ms
  or_empty no_rows = ok []
  or_empty failed = err

  unfoldable pub get_project_members : ℤ → Act D.State (List ProjectMember)
  get_project_members project_id s = (or_empty (D.members s project_id), s)
