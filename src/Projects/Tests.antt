-- ===== src/Projects/Tests.antt =====
-- The members of projects: user 2 in project 3, and user 3 in project 2, whose ids have one sum.
use board_old.Prelude.{inr, ◌≢◌, ℕ, suc, ◌≡◌, refl, true, false, List, [], ◌∷◌}
use board_old.Prelude.Int.{ℤ, pos, add_int64, to_int64}
use board_old.Prelude.Effect.{ok}
use board_old.Model.Project.{Project, ProjectMember}
use board_old.Dao.{found, no_rows}
use board_old.Dao.Project.{ProjectTable}
use board_old.Dao.Member.{Has}
use board_old.Dao.Member as Dao
use board_old.Dao.Project as Projects
use board_old.Projects as Service
use board_old.Projects.{
  add_or_update_project_member, is_project_member, delete_project_member, has_member, has_name,
  is_undeletable,
}
use board_old.Projects.Members.{IsKeyed}
use board_old.Projects.Memory.{
  memory, memory-IsLawful, memory_knows, memory_shipped, shipped, without, without_key, of_project,
}
use board_old.Projects.Memory.{project_of}
use board_old.Projects.Creation.{create_project, project_admin}
use board_old.Projects.Owner.{create_project_owner}
use board_old.Projects.Keys.{
  add_or_update_project_member-IsKeyed, add_or_update_project_member_is_member,
  delete_project_member_absent,
}

abbrev row : ℤ → ℤ → ℤ → ProjectMember
row p u r = record { id = add_int64 u p; user_id = u; username = ""; project_id = p; role_id = r }

abbrev one : List ProjectMember
one = row (pos 3) (pos 2) (pos 1) ∷ shipped

abbrev two : List ProjectMember
two = row (pos 2) (pos 3) (pos 2) ∷ one

abbrev two_admin : List ProjectMember
two_admin = row (pos 2) (pos 3) project_admin ∷ one

shipped-IsKeyed : IsKeyed memory memory-IsLawful shipped
shipped-IsKeyed id p u r h =
    let (at, project, user) = memory_shipped id p u r h in inr (at, (project, user))

add_first : add_or_update_project_member memory (pos 3) (pos 2) (pos 1) shipped ≡ (ok true, one)
unfolding add_or_update_project_member Dao.insert_or_update_project_member add_int64 to_int64
add_first = refl

add_second : add_or_update_project_member memory (pos 2) (pos 3) (pos 2) one ≡ (ok true, two)
unfolding add_or_update_project_member Dao.insert_or_update_project_member add_int64 to_int64
add_second = refl

one-IsKeyed : IsKeyed memory memory-IsLawful one
one-IsKeyed =
    add_or_update_project_member-IsKeyed memory memory-IsLawful (pos 3) (pos 2) (pos 1) shipped
      shipped-IsKeyed add_first

two-IsKeyed : IsKeyed memory memory-IsLawful two
two-IsKeyed =
    add_or_update_project_member-IsKeyed memory memory-IsLawful (pos 2) (pos 3) (pos 2) one
      one-IsKeyed add_second

add_or_update_project_member-IsKeyed_example : IsKeyed memory memory-IsLawful two
add_or_update_project_member-IsKeyed_example =
    add_or_update_project_member-IsKeyed memory memory-IsLawful (pos 2) (pos 3) (pos 2) one
      one-IsKeyed add_second

lists_second : memory.members two (pos 2) ≡ found (row (pos 2) (pos 3) (pos 2) ∷ [])
unfolding of_project without_key add_int64 to_int64
lists_second = refl

add_or_update_project_member_is_member_example :
    (is_project_member memory (pos 2) (pos 3) two ≡ (ok true, two))
    × (m : ProjectMember) × Has m (row (pos 2) (pos 3) (pos 2) ∷ [])
    × (m.user_id ≡ pos 3)
    × (m.role_id ≡ pos 2)
add_or_update_project_member_is_member_example =
    add_or_update_project_member_is_member memory memory-IsLawful (pos 2) (pos 3) (pos 2) one
      (row (pos 2) (pos 3) (pos 2) ∷ []) (memory_knows one (pos 3)) add_second lists_second

delete_first : delete_project_member memory (pos 3) (pos 2) two ≡ (ok true, shipped)
unfolding delete_project_member Dao.delete_project_member Service.get_user_by_id
    Service.get_project_by_id Service.get_project_by_name Service.resolve_repo_name
    Service.get_project_members Dao.get_project_members is_undeletable has_name of_project
    without_key without add_int64 to_int64
delete_first = refl

delete_project_member_absent_example :
    is_project_member memory (pos 2) (pos 3) shipped ≡ (ok false, shipped)
unfolding add_int64 to_int64 of_project
delete_project_member_absent_example =
    delete_project_member_absent memory memory-IsLawful (pos 3) (pos 2) (pos 2) (pos 3) two []
      two-IsKeyed (λ first. cc (first.0)) refl delete_first refl

-- The row that the database is set up with is not found under the sum of its ids: the member stays.
first_member_stays :
    (delete_project_member memory (pos 1) (pos 1) shipped ≡ (ok true, shipped))
    × (is_project_member memory (pos 1) (pos 1) shipped ≡ (ok true, shipped))
unfolding delete_project_member Dao.delete_project_member Service.get_user_by_id
    Service.get_project_by_id Service.get_project_by_name Service.resolve_repo_name
    Service.get_project_members Dao.get_project_members is_undeletable has_name of_project
    without_key without add_int64 to_int64 is_project_member has_member
first_member_stays = (refl, refl)

unfoldable count : List ProjectMember → ℕ
count [] = 0
count (x ∷ rest) = suc (count rest)

-- The projects themselves are not kept: one gets the number of the rows as its id.
abbrev projects : ProjectTable
projects = record {
  members = memory;
  now = λ s. 0;
  insert = λ s q. (found (pos (count s)), s);
  read = λ s q fields. no_rows;
  update = λ s q fields. (found q.id, s);
}

projects-IsLawful : Projects.IsLawful projects memory-IsLawful
projects-IsLawful = record { insert-role = λ s q id p u. refl; insert-user = λ s q u known. known }

abbrev shop : Project
shop = record (project_of (pos 0) "shop") { owner_id = pos 3 }

-- The project gets the id 2.
create_shop : create_project projects shop one ≡ (ok true, two_admin)
unfolding create_project Projects.add_project Dao.insert_or_update_project_member add_int64 to_int64
    count
create_shop = refl

lists_shop : memory.members two_admin (pos 2) ≡ found (row (pos 2) (pos 3) project_admin ∷ [])
unfolding of_project without_key add_int64 to_int64
lists_shop = refl

create_project_owner_example :
    (pos 2 ≢ pos 0)
    × (is_project_member memory (pos 2) (pos 3) two_admin ≡ (ok true, two_admin))
    × (m : ProjectMember) × Has m (row (pos 2) (pos 3) project_admin ∷ [])
    × (m.user_id ≡ pos 3)
    × (m.role_id ≡ project_admin)
unfolding count
create_project_owner_example =
    create_project_owner projects memory-IsLawful projects-IsLawful shop one (pos 2)
      (row (pos 2) (pos 3) project_admin ∷ []) (memory_knows one (pos 3)) create_shop refl
      lists_shop
