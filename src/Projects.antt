-- ===== src/Projects.antt =====
-- apiserver/service: the projects, projectmember.go with what it takes from project.go, user.go and
-- devops.go. The deletion of a repository on the server of the repositories, whose error is only
-- logged, is left out.
pub mod Creation
pub mod Keys
pub mod Members
pub mod Memory
pub mod Owner
mod Tests
use board_old.Prelude.{
  Bool, true, false, Option, none, some, String, List, [], ◌∷◌, ◌&&◌, not, if◌then◌else◌,
}
use Prim.Native.String.{◌++◌}
use board_old.Prelude.Int.{ℤ, pos, eq_ℤ, add_int64}
use board_old.Prelude.Text.{str_eq}
use board_old.Prelude.Effect.{Act, ◌>>=◌, ◌>>◌, return, fail, or_panic}
use board_old.Auth.SignIn.Interface.{User}
use board_old.Model.Project.{Project, ProjectMember}
use board_old.Dao.{or_nil}
use board_old.Dao.Member.{MemberTable}
use board_old.Dao.Member as Dao

abbrev pub undeletable_namespaces : List String
undeletable_namespaces =
    "kube-system" ∷ "istio-system" ∷ "kube-node-lease" ∷ "kube-public" ∷ "default" ∷ "library"
    ∷ "kubeedge" ∷ "cadvisor" ∷ []

unfoldable pub is_undeletable : List String → String → Bool
is_undeletable [] name = false
is_undeletable (n ∷ rest) name = if str_eq n name then true else is_undeletable rest name

abbrev pub set_deletable : Option Project → Option Project
unfolding is_undeletable
set_deletable none = none
set_deletable (some p) =
    some (record p { deletable = not (is_undeletable undeletable_namespaces p.name) })

-- `if project == nil { return ..., errors.New(...) }`
abbrev pub or_fail : {S A : Type 0} → Option A → Act S A
or_fail none = fail
or_fail (some a) = return a

unfoldable pub has_name : String → List ProjectMember → Bool
has_name name [] = false
has_name name (m ∷ rest) = if str_eq m.username name then true else has_name name rest

unfoldable pub has_member : ℤ → List ProjectMember → Bool
has_member user_id [] = false
has_member user_id (m ∷ rest) = if eq_ℤ m.user_id user_id then true else has_member user_id rest

abbrev pub new_member : ℤ → ℤ → ℤ → ProjectMember
new_member project_id user_id role_id = record {
  id = pos 0;
  user_id = user_id;
  username = "";
  project_id = project_id;
  role_id = role_id;
}

module _ (D : MemberTable) where
  unfoldable pub get_user_by_id : ℤ → Act D.State (Option User)
  get_user_by_id id s = (or_nil (D.user_by_id s id), s)

  unfoldable pub get_project_by_id : ℤ → Act D.State (Option Project)
  get_project_by_id id = do p ← (λ s. (or_nil (D.project_by_id s id), s)); return (set_deletable p)

  unfoldable pub get_project_by_name : String → Act D.State (Option Project)
  get_project_by_name name = do
    p ← (λ s. (or_nil (D.project_by_name s name), s))
    return (set_deletable p)

  unfoldable pub get_project_members : ℤ → Act D.State (List ProjectMember)
  get_project_members project_id = Dao.get_project_members D project_id

  unfoldable pub resolve_repo_name : String → String → Act D.State String
  resolve_repo_name project_name username = do
    looked_up ← get_project_by_name project_name
    project ← or_fail looked_up
    members ← get_project_members project.id
    return (
        if has_name username members && not (str_eq project.owner_name username)
        then username ++ ("_" ++ project.name)
        else project.name)

  unfoldable pub add_or_update_project_member : ℤ → ℤ → ℤ → Act D.State Bool
  add_or_update_project_member project_id user_id role_id = do
    _ ← Dao.insert_or_update_project_member D (new_member project_id user_id role_id)
    return true

  unfoldable pub is_project_member : ℤ → ℤ → Act D.State Bool
  is_project_member project_id user_id = do
    members ← get_project_members project_id
    return (has_member user_id members)

  -- A project that is not found is a nil pointer, which is read.
  unfoldable pub delete_project_member : ℤ → ℤ → Act D.State Bool
  delete_project_member project_id user_id = do
    looked_up ← get_user_by_id user_id
    user ← or_fail looked_up
    pointer ← get_project_by_id project_id
    project ← or_panic pointer
    _ ← resolve_repo_name project.name user.username
    _ ← Dao.delete_project_member D (add_int64 project_id user_id)
    return true
