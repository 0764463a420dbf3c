-- ===== src/Projects/Keys.antt =====
-- The rows of the members as adding and deleting one leave them. Pairs of a project and a user
-- whose ids have the same sum share the id of their rows.
use board_old.Prelude.{
  arith, ◌≡◌, ◌≢◌, sym, ap, ◌∙◌, inl, inr, Bool, true, false, none, some, List, ◌&&◌, if◌then◌else◌,
  Bool-cases,
}
use mathlib.Core.Path.{subst}
use board_old.Prelude.Int.{ℤ, eq_ℤ, eq_ℤ→≡, eq_ℤ_refl}
use board_old.Prelude.Effect.{ok, after, return}
use board_old.Model.Project.{ProjectMember}
use board_old.Dao.{found}
use board_old.Dao.Member.{MemberTable, IsLawful, Has, or_empty}
use board_old.Dao.Member as Dao
use board_old.Projects.{
  has_member, get_project_members, add_or_update_project_member, is_project_member,
  delete_project_member,
}
use board_old.Projects.Members.{
  IsFirst, key, row_of, IsKeyed, add-rows, delete-rows, is_project_member_absent, Has-has_member,
}

chosen : {A : Type 0} (b : Bool) (x y z : A) → x ≡ (if b then y else z) → b ≡ true → x ≡ y
chosen b x y z e h = e ∙ ap (λ c. if c then y else z) h

left_out : {A : Type 0} (b : Bool) (x y z : A) → x ≡ (if b then y else z) → b ≡ false → x ≡ z
left_out b x y z e h = e ∙ ap (λ c. if c then y else z) h

all_true :
    (a b c : ℤ) (a' b' c' : ℤ)
    → (eq_ℤ a a' && eq_ℤ b b' && eq_ℤ c c') ≡ true
    → (a ≡ a') × (b ≡ b') × (c ≡ c')
all_true a b c a' b' c' h = (
  eq_ℤ→≡ a a' (ground (arith, h)),
  eq_ℤ→≡ b b' (ground (arith, h)),
  eq_ℤ→≡ c c' (ground (arith, h)),
)

all_refl : (a b c : ℤ) → (eq_ℤ a a && eq_ℤ b b && eq_ℤ c c) ≡ true
all_refl a b c = ground arith

differ : (a b c a' b' c' : ℤ) → c ≢ c' → (eq_ℤ a a' && eq_ℤ b b' && eq_ℤ c c') ≡ false
differ a b c a' b' c' h = elim (Bool-cases (eq_ℤ a a' && eq_ℤ b b' && eq_ℤ c c')) [
  | inl e ↦ elim (let (_, _, same) = all_true a b c a' b' c' e in h same) [ ]
  | inr e ↦ e
]

module _ (D : MemberTable) (L : IsLawful D) where
  added :
      (p u r : ℤ) (s : D.State) {b : Bool} {s' : D.State}
      → add_or_update_project_member D p u r s ≡ (ok b, s')
      → (id p' u' : ℤ)
      → L.role s' id p' u'
        ≡ (if eq_ℤ (key p u) id && eq_ℤ p p' && eq_ℤ u u' then some r else L.role s id p' u')
  added p u r s h id p' u' =
      let (left, fine) = add-rows D L p u r s h in
      ap (λ t. L.role t id p' u') left ∙ L.role-upsert s (row_of p u r) id p' u' fine

  deleted :
      (p u : ℤ) (s : D.State) {b : Bool} {s' : D.State}
      → delete_project_member D p u s ≡ (ok b, s')
      → (id p' u' : ℤ)
      → L.role s' id p' u' ≡ (if eq_ℤ (key p u) id then none else L.role s id p' u')
  deleted p u s h id p' u' =
      let (left, fine) = delete-rows D L p u s h in
      ap (λ t. L.role t id p' u') left ∙ L.role-remove s (key p u) id p' u' fine

  -- Adding a member keeps each row under the sum of the ids of its user and its project, but for the
  -- row of user 1 and project 1 under the id 1, which the database is set up with.
  pub add_or_update_project_member-IsKeyed :
      (p u r : ℤ) (s : D.State) {b : Bool} {s' : D.State}
      → IsKeyed D L s
      → add_or_update_project_member D p u r s ≡ (ok b, s')
      → IsKeyed D L s'
  add_or_update_project_member-IsKeyed p u r s keyed h id p' u' r' row =
      let here = eq_ℤ (key p u) id && eq_ℤ p p' && eq_ℤ u u' in
      elim (Bool-cases here) [
        | inl e ↦
            let (at, project, user) = all_true (key p u) p u id p' u' e in
            inl (sym at ∙ λ i. key (project i) (user i))
        | inr e ↦ keyed id p' u' r' (sym (left_out here _ _ _ (added p u r s h id p' u') e) ∙ row)
      ]

  -- So does deleting one.
  pub delete_project_member-IsKeyed :
      (p u : ℤ) (s : D.State) {b : Bool} {s' : D.State}
      → IsKeyed D L s
      → delete_project_member D p u s ≡ (ok b, s')
      → IsKeyed D L s'
  delete_project_member-IsKeyed p u s keyed h id p' u' r' row =
      elim (Bool-cases (eq_ℤ (key p u) id)) [
        | inl here ↦
            let gone =
              sym (chosen (eq_ℤ (key p u) id) _ _ _ (deleted p u s h id p' u') here) ∙ row in
            cc gone
        | inr apart ↦
            keyed id p' u' r'
              (sym (left_out (eq_ℤ (key p u) id) _ _ _ (deleted p u s h id p' u') apart) ∙ row)
      ]

  user_stays :
      (p u r : ℤ) (s : D.State) {b : Bool} {s' : D.State}
      → add_or_update_project_member D p u r s ≡ (ok b, s')
      → L.has_user s u
      → L.has_user s' u
  user_stays p u r s h known =
      subst (λ t. L.has_user t u) (sym (add-rows D L p u r s h).0)
        (L.user-upsert s (row_of p u r) u known)

  listed_asks :
      (p u : ℤ) (s : D.State) (ms : List ProjectMember)
      → D.members s p ≡ found ms
      → is_project_member D p u s ≡ (ok (has_member u ms), s)
  unfolding is_project_member get_project_members Dao.get_project_members
  listed_asks p u s ms listed =
      ap (λ a. after (or_empty D a, s) (λ xs. return (has_member u xs))) listed

  -- After a member was added, where the user is known and the rows of the project can be read: the
  -- user is a member, and the project has a row of the user with the role.
  pub add_or_update_project_member_is_member :
      (p u r : ℤ) (s : D.State) (ms : List ProjectMember) {b : Bool} {s' : D.State}
      → L.has_user s u
      → add_or_update_project_member D p u r s ≡ (ok b, s')
      → D.members s' p ≡ found ms
      → (is_project_member D p u s' ≡ (ok true, s'))
        × (m : ProjectMember) × Has m ms
        × (m.user_id ≡ u)
        × (m.role_id ≡ r)
  add_or_update_project_member_is_member p u r s ms {b} {s'} known h listed =
      let row =
        chosen (eq_ℤ (key p u) (key p u) && eq_ℤ p p && eq_ℤ u u) _ _ _
          (added p u r s h (key p u) p u) (all_refl (key p u) p u) in
      let (m, there, its, its_role) =
        L.role-listed s' (key p u) p u r ms listed row (user_stays p u r s h known) in
      (
        listed_asks p u s' ms listed ∙ ap (λ c. (ok c, s')) (Has-has_member u m ms there its),
        m,
        there,
        its,
        its_role,
      )

  -- The rows of other users stay.
  pub add_or_update_project_member_others :
      (p u r : ℤ) (s : D.State) {b : Bool} {s' : D.State}
      → add_or_update_project_member D p u r s ≡ (ok b, s')
      → (id p' u' : ℤ) → u ≢ u'
      → L.role s' id p' u' ≡ L.role s id p' u'
  add_or_update_project_member_others p u r s h id p' u' apart =
      left_out (eq_ℤ (key p u) id && eq_ℤ p p' && eq_ℤ u u') _ _ _ (added p u r s h id p' u')
        (differ (key p u) p u id p' u' apart)

  -- After a member was deleted from a table whose rows stand under the sums of their ids, but for
  -- the row that the database is set up with, and where the rows of the project can be read: no pair
  -- of a project and a user of the same sum is a member any more, unless it is the pair of that row.
  pub delete_project_member_absent :
      (p u p' u' : ℤ) (s : D.State) (ms : List ProjectMember) {b : Bool} {s' : D.State}
      → IsKeyed D L s
      → (IsFirst p' u' → ⊥)
      → key p' u' ≡ key p u
      → delete_project_member D p u s ≡ (ok b, s')
      → D.members s' p' ≡ found ms
      → is_project_member D p' u' s' ≡ (ok false, s')
  delete_project_member_absent p u p' u' s ms {b} {s'} keyed other same h listed =
      let gone =
        chosen (eq_ℤ (key p u) (key p u)) _ _ _ (deleted p u s h (key p u) p' u')
          (eq_ℤ_refl (key p u)) in
      let asked = listed_asks p' u' s' ms listed in
      let absent =
        is_project_member_absent D L s' p' u' (delete_project_member-IsKeyed p u s keyed h) other
          (λ found_row.
            let (_, row) = found_row in
            let clash = sym gone ∙ ap (λ k. L.role s' k p' u') (sym same) ∙ row in cc clash)
          asked in
      asked ∙ ap (λ c. (ok c, s')) absent
