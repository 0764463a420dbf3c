-- ===== src/Projects/Memory.antt =====
-- A table of members as a list of rows. Each user of the table is known, and no read fails.
use board_old.Prelude.{
  arith, ◌≡◌, refl, sym, ap, ◌∙◌, ◌⊎◌, inl, inr, Bool, true, false, not, ◌&&◌, Option, none, some,
  String, List, [], ◌∷◌, if◌then◌else◌, Bool-cases,
}
use mathlib.Core.Option.{some-injective}
use mathlib.Core.Path.{subst}
use board_old.Prelude.Int.{ℤ, pos, eq_ℤ, eq_ℤ→≡}
use board_old.Auth.SignIn.Interface.{User}
use board_old.Model.Project.{Project, ProjectMember}
use board_old.Dao.{found}
use board_old.Dao.Member.{MemberTable, IsLawful, Has}

abbrev pub user_of : ℤ → User
user_of id = record { id = id; username = "ann"; email = ""; realname = ""; system_admin = pos 0 }

abbrev pub project_of : ℤ → String → Project
project_of id name = record {
  id = id;
  name = name;
  comment = "";
  creation_time = 0;
  update_time = 0;
  deleted = pos 0;
  owner_id = pos 1;
  owner_name = "boardadmin";
  is_public = pos 0;
  toggleable = true;
  current_user_role_id = pos 0;
  service_count = pos 0;
  istio_support = false;
  deletable = false;
}

abbrev same_key : ProjectMember → ProjectMember → Bool
same_key m x = eq_ℤ m.id x.id && eq_ℤ m.project_id x.project_id && eq_ℤ m.user_id x.user_id

unfoldable pub role_in : List ProjectMember → ℤ → ℤ → ℤ → Option ℤ
role_in [] id p u = none
role_in (x ∷ rest) id p u =
    let later = role_in rest id p u in
    if eq_ℤ x.id id && eq_ℤ x.project_id p && eq_ℤ x.user_id u then some x.role_id else later

unfoldable pub without : ℤ → List ProjectMember → List ProjectMember
without gone [] = []
without gone (x ∷ rest) =
    let others = without gone rest in if eq_ℤ gone x.id then others else x ∷ others

unfoldable pub without_key : ProjectMember → List ProjectMember → List ProjectMember
without_key m [] = []
without_key m (x ∷ rest) =
    let others = without_key m rest in if not (same_key m x) then x ∷ others else others

-- The rows of a project, less those that an earlier row of the same key hides.
unfoldable pub of_project : ℤ → List ProjectMember → List ProjectMember
of_project p [] = []
of_project p (x ∷ rest) =
    let others = of_project p rest in
    if eq_ℤ x.project_id p then x ∷ without_key x others else others

abbrev pub memory : MemberTable
memory = record {
  State = List ProjectMember;
  user_by_id = λ s id. found (user_of id);
  project_by_id = λ s id. found (project_of id "shop");
  project_by_name = λ s name. found (project_of (pos 1) name);
  upsert = λ s m. (found (pos 1), m ∷ s);
  remove = λ s gone. (found (pos 1), without gone s);
  members = λ s p. found (of_project p s);
}

found-injective : {A : Type 0} {a b : A} → found a ≡ found b → a ≡ b
found-injective e = cc

role_in-without :
    (gone : ℤ) (s : List ProjectMember) (id p u : ℤ)
    → role_in (without gone s) id p u ≡ (if eq_ℤ gone id then none else role_in s id p u)
unfolding role_in without
role_in-without gone [] id p u = ground arith
role_in-without gone (x ∷ rest) id p u = ground (arith, role_in-without gone rest id p u)

head_or_tail :
    (b : Bool) (m y : ProjectMember) (xs ys : List ProjectMember)
    → Has m (if b then y ∷ xs else ys)
    → ((b ≡ true) × ((y ≡ m) ⊎ Has m xs)) ⊎ ((b ≡ false) × Has m ys)
head_or_tail true m y xs ys h = inl (refl, h)
head_or_tail false m y xs ys h = inr (refl, h)

either_way :
    (b : Bool) (m y : ProjectMember) (xs ys : List ProjectMember)
    → (b ≡ true → (y ≡ m) ⊎ Has m xs)
    → (b ≡ false → Has m ys)
    → Has m (if b then y ∷ xs else ys)
either_way true m y xs ys f g = f refl
either_way false m y xs ys f g = g refl

Has-without_key :
    (x m : ProjectMember) (s : List ProjectMember)
    → Has m (without_key x s)
    → Has m s × (same_key x m ≡ false)
unfolding without_key
Has-without_key x m [] h = elim h [ ]
Has-without_key x m (y ∷ rest) h =
    elim (head_or_tail (not (same_key x y)) m y (without_key x rest) (without_key x rest) h) [
      | inl (e, inl same) ↦ (inl same, ap (same_key x) (sym same) ∙ ground (arith, e))
      | inl (e, inr later) ↦
          let (there, apart) = Has-without_key x m rest later in (inr there, apart)
      | inr (e, later) ↦ let (there, apart) = Has-without_key x m rest later in (inr there, apart)
    ]

without_key-Has :
    (x m : ProjectMember) (s : List ProjectMember)
    → Has m s
    → same_key x m ≡ false
    → Has m (without_key x s)
unfolding without_key
without_key-Has x m [] h e = h
without_key-Has x m (y ∷ rest) (inl same) e =
    either_way (not (same_key x y)) m y _ _ (λ _. inl same)
      (λ f. let no = sym f ∙ ap (λ z. not (same_key x z)) same ∙ ap not e in cc no)
without_key-Has x m (y ∷ rest) (inr later) e =
    let there = without_key-Has x m rest later e in
    either_way (not (same_key x y)) m y _ _ (λ _. inr there) (λ _. there)

of_project-project :
    (p : ℤ) (m : ProjectMember) (s : List ProjectMember) → Has m (of_project p s) → m.project_id ≡ p
unfolding of_project
of_project-project p m [] h = elim h [ ]
of_project-project p m (x ∷ rest) h =
    elim (head_or_tail (eq_ℤ x.project_id p) m x (without_key x (of_project p rest))
      (of_project p rest) h) [
        | inl (e, inl same) ↦
            ap (λ (y : ProjectMember). y.project_id) (sym same) ∙ eq_ℤ→≡ x.project_id p e
        | inl (e, inr later) ↦
            of_project-project p m rest (Has-without_key x m (of_project p rest) later).0
        | inr (e, later) ↦ of_project-project p m rest later
      ]

head_role :
    (x m : ProjectMember) (rest : List ProjectMember)
    → x ≡ m
    → role_in (x ∷ rest) m.id m.project_id m.user_id ≡ some m.role_id
unfolding role_in
head_role x m rest same =
    ap (λ (y : ProjectMember). role_in (y ∷ rest) m.id m.project_id m.user_id) same ∙ ground arith

listed_role :
    (p : ℤ) (m : ProjectMember) (s : List ProjectMember)
    → Has m (of_project p s)
    → role_in s m.id m.project_id m.user_id ≡ some m.role_id
unfolding of_project role_in
listed_role p m [] h = elim h [ ]
listed_role p m (x ∷ rest) h =
    elim (head_or_tail (eq_ℤ x.project_id p) m x (without_key x (of_project p rest))
      (of_project p rest) h) [
        | inl (e, inl same) ↦ head_role x m rest same
        | inl (e, inr later) ↦
            let (there, apart) = Has-without_key x m (of_project p rest) later in
            let known = listed_role p m rest there in ground (arith, apart, known)
        | inr (e, later) ↦
            let known = listed_role p m rest later in
            let project = of_project-project p m rest later in
            let known_apart = ap (λ v. eq_ℤ x.project_id v) project ∙ e in
            ground (arith, known_apart, known)
      ]

role_listed :
    (id p u r : ℤ) (s : List ProjectMember)
    → role_in s id p u ≡ some r
    → (m : ProjectMember) × Has m (of_project p s) × (m.id ≡ id) × (m.user_id ≡ u) × (m.role_id ≡ r)
unfolding of_project role_in
role_listed id p u r [] h = cc
role_listed id p u r (x ∷ rest) h =
    elim (Bool-cases (eq_ℤ x.id id && eq_ℤ x.project_id p && eq_ℤ x.user_id u)) [
      | inl e ↦ (
        x,
        either_way (eq_ℤ x.project_id p) x x _ _ (λ _. inl refl) (λ f. ground (arith, e, f)),
        eq_ℤ→≡ x.id id (ground (arith, e)),
        eq_ℤ→≡ x.user_id u (ground (arith, e)),
        some-injective x.role_id r (ground (arith, e, h)),
      )
      | inr e ↦
          let (m, there, at, user, role) = role_listed id p u r rest (ground (arith, e, h)) in
          let project = of_project-project p m rest there in
          let apart =
            (λ i. eq_ℤ x.id (at i) && eq_ℤ x.project_id (project i) && eq_ℤ x.user_id (user i))
            ∙ e in
          (
            m,
            either_way (eq_ℤ x.project_id p) m x _ _
                (λ _. inr (without_key-Has x m (of_project p rest) there apart)) (λ _. there),
            at,
            user,
            role,
          )
    ]

pub memory-IsLawful : IsLawful memory
unfolding role_in
memory-IsLawful = record {
  role = role_in;
  has_user = λ s u. Unit;
  role-upsert = λ s m id p u fine. refl;
  user-upsert = λ s m u known. tt;
  role-remove = λ s gone id p u fine. role_in-without gone s id p u;
  listed-role = λ s p ms m listed there.
      let here = subst (Has m) (sym (found-injective listed)) there in
      ap (λ v. role_in s m.id v m.user_id) (sym (of_project-project p m s here))
      ∙ listed_role p m s here;
  role-listed = λ s id p u r ms listed row known.
      let (m, there, _, user, role) = role_listed id p u r s row in
      (m, subst (Has m) (found-injective listed) there, user, role);
}

pub memory_knows : (s : List ProjectMember) (u : ℤ) → memory-IsLawful.has_user s u
unfolding memory-IsLawful
memory_knows s u = tt

-- The row that the database is set up with: user 1, project 1, role 1, under the id 1.
abbrev pub shipped : List ProjectMember
shipped =
    record {
      id = pos 1;
      user_id = pos 1;
      username = "boardadmin";
      project_id = pos 1;
      role_id = pos 1;
    }
    ∷ []

pub memory_shipped :
    (id p u r : ℤ)
    → memory-IsLawful.role shipped id p u ≡ some r
    → (id ≡ pos 1) × (p ≡ pos 1) × (u ≡ pos 1)
unfolding memory-IsLawful role_in
memory_shipped id p u r h =
    elim (Bool-cases (eq_ℤ (pos 1) id && eq_ℤ (pos 1) p && eq_ℤ (pos 1) u)) [
      | inl e ↦ (
        sym (eq_ℤ→≡ (pos 1) id (ground (arith, e))),
        sym (eq_ℤ→≡ (pos 1) p (ground (arith, e))),
        sym (eq_ℤ→≡ (pos 1) u (ground (arith, e))),
      )
      | inr e ↦ let both = sym (ap (λ b. if b then some (pos 1) else none) e) ∙ h in cc both
    ]
