-- ===== src/Model/Project.antt =====
-- common/model/project.go and projectmember.go: projects and their members.
use board_old.Prelude.{ℕ, String, Bool, false}
use board_old.Prelude.Int.{ℤ, pos}

pub record Project : Type 0 where
  pub id : ℤ
  pub name : String
  pub comment : String
  pub creation_time : ℕ
  pub update_time : ℕ
  pub deleted : ℤ
  pub owner_id : ℤ
  pub owner_name : String
  pub is_public : ℤ
  pub toggleable : Bool
  pub current_user_role_id : ℤ
  pub service_count : ℤ
  pub istio_support : Bool
  pub deletable : Bool

-- `Project{}`
abbrev pub zero_project : Project
zero_project = record {
  id = pos 0;
  name = "";
  comment = "";
  creation_time = 0;
  update_time = 0;
  deleted = pos 0;
  owner_id = pos 0;
  owner_name = "";
  is_public = pos 0;
  toggleable = false;
  current_user_role_id = pos 0;
  service_count = pos 0;
  istio_support = false;
  deletable = false;
}

pub record ProjectMember : Type 0 where
  pub id : ℤ
  pub user_id : ℤ
  pub username : String
  pub project_id : ℤ
  pub role_id : ℤ
