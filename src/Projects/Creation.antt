-- ===== src/Projects/Creation.antt =====
-- apiserver/service/project.go: the creation of a project, whose owner becomes a member of it, the
-- tests for a project, and its update.
use board_old.Prelude.{
  Bool, true, false, Option, none, some, String, List, [], ◌∷◌, ◌||◌, not, if◌then◌else◌,
}
use board_old.Prelude.Int.{ℤ, pos, eq_ℤ}
use board_old.Prelude.Text.{str_eq}
use board_old.Prelude.Effect.{Act, ◌>>=◌, return, fail}
use board_old.Model.Project.{Project, zero_project}
use board_old.Dao.Member.{insert_or_update_project_member}
use board_old.Dao.Project.{ProjectTable}
use board_old.Dao.Project as Dao
use board_old.Projects.{new_member, set_deletable, is_project_member, or_fail}

abbrev pub project_admin : ℤ
project_admin = pos 1

abbrev pub has_project_id : Option Project → Bool
has_project_id none = false
has_project_id (some p) = not (eq_ℤ p.id (pos 0))

abbrev pub has_project_name : Option Project → Bool
has_project_name none = false
has_project_name (some p) = not (str_eq p.name "")

module _ (T : ProjectTable) where
  unfoldable pub create_project : Project → Act T.members.State Bool
  create_project project = do
    project_id ← Dao.add_project T project
    project_member_id ←
        insert_or_update_project_member T.members
          (new_member project_id project.owner_id project_admin)
    if eq_ℤ project_id (pos 0) || eq_ℤ project_member_id (pos 0) then fail else return true

  unfoldable pub get_project : Project → List String → Act T.members.State (Option Project)
  get_project project selected_fields = do
    p ← Dao.get_project T project selected_fields
    return (set_deletable p)

  unfoldable pub project_exists : String → Act T.members.State Bool
  project_exists project_name = do
    project ← Dao.get_project T (record zero_project { name = project_name }) ("name" ∷ [])
    return (has_project_id project)

  unfoldable pub project_exists_by_id : ℤ → Act T.members.State Bool
  project_exists_by_id project_id = do
    project ← Dao.get_project T (record zero_project { id = project_id }) ("id" ∷ "deleted" ∷ [])
    return (has_project_name project)

  unfoldable pub update_project : Project → List String → Act T.members.State Bool
  update_project project field_names =
      let updated = (do _ ← Dao.update_project T project field_names; return true) in
      if eq_ℤ project.id (pos 0) then fail else updated

  unfoldable pub toggle_project_public : ℤ → ℤ → Act T.members.State Bool
  toggle_project_public project_id public =
      update_project (record zero_project { id = project_id; is_public = public }) ("public" ∷ [])

  unfoldable pub is_project_member_by_name : String → ℤ → Act T.members.State Bool
  is_project_member_by_name project_name user_id = do
    looked_up ← get_project (record zero_project { name = project_name }) ("name" ∷ [])
    project ← or_fail looked_up
    is_project_member T.members project.id user_id
