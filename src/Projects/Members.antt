-- ===== src/Projects/Members.antt =====
-- Who is a member of a project after one was added or deleted. The key of a row is the sum of the ids
-- of its user and its project.
use board_old.Prelude.{
  arith, ◌≡◌, ◌≢◌, refl, sym, ap, ◌∙◌, ◌⊎◌, inl, inr, Bool, true, false, Option, none, some, List,
  [], String, ◌∷◌, if◌then◌else◌, Bool-cases,
}
use mathlib.Core.Path.{subst}
use board_old.Prelude.Int.{ℤ, pos, eq_ℤ, eq_ℤ→≡, eq_ℤ_refl, add_int64, add_int64_comm}
use board_old.Prelude.Effect.{ok, Act, ◌>>=◌}
use board_old.Prelude.Effect.Laws.{bind-ok, panic-ok}
use board_old.Model.Project.{Project, ProjectMember}
use board_old.Dao.{Answer, found, no_rows, failed, or_zero, or_nil}
use board_old.Dao.Member.{MemberTable, IsLawful, Has, any_error, or_empty}
use board_old.Dao.Member as Dao
use board_old.Projects.{
  has_member, get_project_members, add_or_update_project_member, is_project_member,
  delete_project_member, get_user_by_id, get_project_by_id, resolve_repo_name, or_fail,
  get_project_by_name, new_member,
}

pub Has-has_member :
    (u : ℤ) (m : ProjectMember) (ms : List ProjectMember)
    → Has m ms
    → m.user_id ≡ u
    → has_member u ms ≡ true
unfolding has_member
Has-has_member u m [] h e = elim h [ ]
Has-has_member u m (x ∷ rest) (inl same) e =
    ap (λ b. if b then true else has_member u rest)
      (ap (λ v. eq_ℤ v u) (ap (λ y. y.user_id) same ∙ e) ∙ eq_ℤ_refl u)
Has-has_member u m (x ∷ rest) (inr later) e = ground (arith, Has-has_member u m rest later e)

has_member-Has :
    (u : ℤ) (ms : List ProjectMember)
    → has_member u ms ≡ true
    → (m : ProjectMember) × Has m ms × (m.user_id ≡ u)
unfolding has_member
has_member-Has u [] h = cc
has_member-Has u (x ∷ rest) h = elim (Bool-cases (eq_ℤ x.user_id u)) [
  | inl e ↦ (x, inl refl, eq_ℤ→≡ x.user_id u e)
  | inr e ↦
      let (m, there, same) = has_member-Has u rest (ground (arith, e, h)) in (m, inr there, same)
]

or_zero-returned : (a : Answer ℤ) {n : ℤ} → or_zero a ≡ ok n → a ≢ failed
or_zero-returned (found m) h = λ e. cc
or_zero-returned no_rows h = λ e. cc
or_zero-returned failed h = cc

any_error-returned : (D : MemberTable) (a : Answer ℤ) {n : ℤ} → any_error D a ≡ ok n → a ≢ failed
any_error-returned D (found m) h = λ e. cc
any_error-returned D no_rows h = cc
any_error-returned D failed h = cc

-- The id of the row of a project and a user.
abbrev pub key : ℤ → ℤ → ℤ
key project_id user_id = add_int64 user_id project_id

abbrev pub row_of : ℤ → ℤ → ℤ → ProjectMember
row_of p u r = record (new_member p u r) { id = key p u }

-- The user and the project of the row that the database is set up with.
abbrev pub IsFirst : ℤ → ℤ → Type 0
IsFirst p u = (p ≡ pos 1) × (u ≡ pos 1)

module _ (D : MemberTable) (L : IsLawful D) where
  -- Each row stands under the sum of the ids of its user and its project, but for the row that the
  -- database is set up with.
  abbrev pub IsKeyed : D.State → Type 0
  IsKeyed s =
      (id p u r : ℤ) → L.role s id p u ≡ some r → (id ≡ key p u) ⊎ ((id ≡ pos 1) × IsFirst p u)

  -- The table has a row of the pair under the sum of its ids.
  abbrev pub Row : D.State → ℤ → ℤ → Type 0
  Row s p u = (r : ℤ) × (L.role s (key p u) p u ≡ some r)

  listed-Row :
      (s : D.State) (p u : ℤ) (ms : List ProjectMember)
      → IsKeyed s
      → (IsFirst p u → ⊥)
      → D.members s p ≡ found ms
      → has_member u ms ≡ true
      → Row s p u
  listed-Row s p u ms keyed other listed h =
      let (m, there, same) = has_member-Has u ms h in
      let role = L.listed-role s p ms m listed there in
      elim (keyed m.id p m.user_id m.role_id role) [
        | inl sum ↦
            let at = sum ∙ ap (key p) same in
            (m.role_id, (λ i. L.role s (sym at i) p (sym same i)) ∙ role)
        | inr (_, (project, user)) ↦ elim (other (project, sym same ∙ user)) [ ]
      ]

  ok-injective : {A : Type 0} {x y : A} → ok x ≡ ok y → x ≡ y
  ok-injective e = cc

  members_by :
      (answer : Answer (List ProjectMember)) {ms : List ProjectMember}
      → or_empty D answer ≡ ok ms
      → ([] ≡ ms) ⊎ (answer ≡ found ms)
  members_by (found xs) h = inr (ap found (ok-injective h))
  members_by no_rows h = inl (ok-injective h)
  members_by failed h = cc

  -- Without a row of the pair the user is no member.
  pub is_project_member_absent :
      (s : D.State) (p u : ℤ) {b : Bool} {s' : D.State}
      → IsKeyed s
      → (IsFirst p u → ⊥)
      → (Row s p u → ⊥)
      → is_project_member D p u s ≡ (ok b, s')
      → b ≡ false
  unfolding is_project_member get_project_members Dao.get_project_members has_member
  is_project_member_absent s p u {b} keyed other lacks h =
      let (ms, s₁, e, last) = bind-ok (get_project_members D p) _ s h in
      let tested = ok-injective λ i. (last i).0 in
      elim (members_by (D.members s p) (λ i. (e i).0)) [
        | inl empty ↦ sym tested ∙ ap (has_member u) (sym empty)
        | inr listed ↦ elim (Bool-cases b) [
          | inl there ↦ elim (lacks (listed-Row s p u ms keyed other listed (tested ∙ there))) [ ]
          | inr absent ↦ absent
        ]
      ]

  -- What a statement leaves.
  pub add-rows :
      (p u r : ℤ) (s : D.State) {b : Bool} {s' : D.State}
      → add_or_update_project_member D p u r s ≡ (ok b, s')
      → (s' ≡ (D.upsert s (row_of p u r)).1) × ((D.upsert s (row_of p u r)).0 ≢ failed)
  unfolding add_or_update_project_member Dao.insert_or_update_project_member
  add-rows p u r s h =
      let (_, s₁, e, last) =
        bind-ok (Dao.insert_or_update_project_member D (new_member p u r)) _ s h in
      (
        sym (λ i. (last i).1) ∙ sym (λ i. (e i).1),
        or_zero-returned (D.upsert s (row_of p u r)).0 (λ i. (e i).0),
      )

  fail-ok :
      {A B : Type 0} (o : Option A) (f : A → Act D.State B) (s : D.State) {b : B} {s' : D.State}
      → (or_fail o >>= f) s ≡ (ok b, s')
      → (a : A) × (f a s ≡ (ok b, s'))
  fail-ok (some a) f s h = (a, h)
  fail-ok none f s h = cc

  project-keeps :
      (id : ℤ) (s : D.State) {o : Option Project} {s' : D.State}
      → get_project_by_id D id s ≡ (ok o, s')
      → s ≡ s'
  unfolding get_project_by_id
  project-keeps id s h =
      let (_, s₁, e, last) = bind-ok (λ t. (or_nil (D.project_by_id t id), t)) _ s h in
      (λ i. (e i).1) ∙ λ i. (last i).1

  resolve-keeps :
      (project user : String) (s : D.State) {name : String} {s' : D.State}
      → resolve_repo_name D project user s ≡ (ok name, s')
      → s ≡ s'
  unfolding resolve_repo_name get_project_by_name get_project_members Dao.get_project_members
  resolve-keeps project user s h =
      let (o, s₁, e, r) = bind-ok (get_project_by_name D project) _ s h in
      let (_, s₂, e', last) = bind-ok (λ t. (or_nil (D.project_by_name t project), t)) _ s e in
      let (p, r') = fail-ok o _ s₁ r in
      let (_, s₃, e'', last') = bind-ok (get_project_members D p.id) _ s₁ r' in
      (λ i. (e' i).1) ∙ (λ i. (last i).1) ∙ (λ i. (e'' i).1) ∙ λ i. (last' i).1

  remove-at : (p u : ℤ) (s t : D.State) → s ≡ t → D.remove t (add_int64 p u) ≡ D.remove s (key p u)
  remove-at p u s t same = λ i. D.remove (sym same i) (add_int64_comm p u i)

  pub delete-rows :
      (p u : ℤ) (s : D.State) {b : Bool} {s' : D.State}
      → delete_project_member D p u s ≡ (ok b, s')
      → (s' ≡ (D.remove s (key p u)).1) × ((D.remove s (key p u)).0 ≢ failed)
  unfolding delete_project_member Dao.delete_project_member get_user_by_id
  delete-rows p u s {b} {s'} h =
      let (o, s₁, e, r) = bind-ok (get_user_by_id D u) _ s h in
      let (user, r') = fail-ok o _ s₁ r in
      let (o', s₂, e', r'') = bind-ok (get_project_by_id D p) _ s₁ r' in
      let (project, _, q) = panic-ok o' _ s₂ r'' in
      let (_, s₃, e'', q') = bind-ok (resolve_repo_name D project.name user.username) _ s₂ q in
      let (_, s₄, d, last) = bind-ok (Dao.delete_project_member D (add_int64 p u)) _ s₃ q' in
      let same =
        (λ i. (e i).1) ∙ project-keeps p s₁ e' ∙ resolve-keeps project.name user.username s₂ e'' in
      let at = remove-at p u s s₃ same in
      (
        sym (λ i. (last i).1) ∙ sym (λ i. (d i).1) ∙ ap (λ a. a.1) at,
        subst (λ a. a.0 ≢ failed) at
            (any_error-returned D (D.remove s₃ (add_int64 p u)).0 (λ i. (d i).0)),
      )
