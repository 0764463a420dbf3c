-- ===== src/Dao/Project.antt =====
-- common/dao/project.go: the table of projects.
use board_old.Prelude.{ℕ, ◌≡◌, String, Option, List}
use board_old.Prelude.Int.{ℤ}
use board_old.Prelude.Effect.{Act}
use board_old.Model.Project.{Project}
use board_old.Dao.{Answer, or_nil, or_zero}
use board_old.Dao.Member.{MemberTable}
use board_old.Dao.Member as Member

-- The mapper's calls for the table of projects, which stands beside the table of members, and the
-- clock. `read` looks for a row that agrees with the given one in the named columns.
pub record ProjectTable : Type 1 where
  pub members : MemberTable
  pub now : members.State → ℕ
  pub insert : members.State → Project → Answer ℤ × members.State
  pub read : members.State → Project → List String → Answer Project
  pub update : members.State → Project → List String → Answer ℤ × members.State

-- The insertion of a project changes no row of a member and no user.
pub record IsLawful (T : ProjectTable) (L : Member.IsLawful T.members) : Type 1 where
  pub insert-role :
      (s : T.members.State) (q : Project) (id p u : ℤ)
      → L.role (T.insert s q).1 id p u ≡ L.role s id p u
  pub insert-user :
      (s : T.members.State) (q : Project) (u : ℤ) → L.has_user s u → L.has_user (T.insert s q).1 u

module _ (T : ProjectTable) where
  unfoldable pub add_project : Project → Act T.members.State ℤ
  add_project project s = let (answer, s') = T.insert s project in (or_zero answer, s')

  unfoldable pub get_project : Project → List String → Act T.members.State (Option Project)
  get_project project fields s = (or_nil (T.read s project fields), s)

  unfoldable pub update_project : Project → List String → Act T.members.State ℤ
  update_project project fields s =
      let (answer, s') = T.update s (record project { update_time = T.now s }) fields in
      (or_zero answer, s')
