-- ===== src/Projects/Owner.antt =====
-- The owner of a project that was created.
use board_old.Prelude.{◌≡◌, ◌≢◌, ap, sym, ◌∙◌, inl, inr, Bool, true, false, List, ◌||◌, arith}
use mathlib.Core.Path.{subst}
use board_old.Prelude.Int.{ℤ, pos, eq_ℤ}
use board_old.Prelude.Effect.{ok, after, return, fail}
use board_old.Prelude.Effect.Laws.{bind-ok, if-taken}
use board_old.Model.Project.{Project, ProjectMember}
use board_old.Dao.{Answer, found, no_rows, failed, or_zero}
use board_old.Dao.Member.{Has, insert_or_update_project_member}
use board_old.Dao.Member as Member
use board_old.Dao.Project.{ProjectTable, IsLawful, add_project}
use board_old.Projects.{new_member, is_project_member, add_or_update_project_member}
use board_old.Projects.Creation.{create_project, project_admin}
use board_old.Projects.Members.{IsKeyed}
use board_old.Projects.Keys.{
  add_or_update_project_member_is_member, add_or_update_project_member-IsKeyed,
}

found-injective : {A : Type 0} {a b : A} → found a ≡ found b → a ≡ b
found-injective e = cc

inserted : (a : Answer ℤ) (id : ℤ) → or_zero a ≡ ok id → id ≢ pos 0 → a ≡ found id
inserted (found n) id h apart = cc
inserted no_rows id h apart = let zero = zero_is id h in elim (apart (sym zero)) [ ]
  where
    zero_is : (id : ℤ) → ok (pos 0) ≡ ok id → pos 0 ≡ id
    zero_is id e = cc
inserted failed id h apart = cc

not_zero : (z : ℤ) → eq_ℤ z (pos 0) ≡ false → z ≢ pos 0
not_zero z h e = let same = ap (λ v. eq_ℤ v (pos 0)) (sym e) ∙ h in cc same

module _ (T : ProjectTable) (L : Member.IsLawful T.members) (P : IsLawful T L) where
  -- The two statements of a creation that returned.
  creation :
      (q : Project) (s : T.members.State) {b : Bool} {s' : T.members.State}
      → create_project T q s ≡ (ok b, s')
      → (id : ℤ) × ((T.insert s q).0 ≡ found id)
        × (id ≢ pos 0)
        × (add_or_update_project_member T.members id q.owner_id project_admin (T.insert s q).1
            ≡ (ok true, s'))
  unfolding create_project add_or_update_project_member add_project
  creation q s h =
      let (id, s₁, e, r) = bind-ok (add_project T q) _ s h in
      let (n, s₂, e', r') =
        bind-ok (insert_or_update_project_member T.members (new_member id q.owner_id project_admin))
          _ s₁ r in
      elim (if-taken (eq_ℤ id (pos 0) || eq_ℤ n (pos 0)) fail (return true) s₂ r') [
        | inl (_, stopped) ↦ cc stopped
        | inr (fine, last) ↦
            let apart = not_zero id (ground (arith, fine)) in
            (
              id,
              inserted (T.insert s q).0 id (λ i. (e i).0) apart,
              apart,
              (λ i.
                    after
                      (insert_or_update_project_member T.members
                        (new_member id q.owner_id project_admin) ((e i).1))
                      (λ _. return true))
                  ∙ (λ i. after (e' i) (λ _. return true))
                  ∙ λ i. (ok true, (last i).1),
            )
      ]

  -- After a project was created by an owner who is a known user, where the rows of the members of
  -- the id that the table of projects gave it can be read: the id is not 0, and the owner is a member
  -- of the project, with the role of an administrator.
  pub create_project_owner :
      (q : Project) (s : T.members.State) (id : ℤ) (ms : List ProjectMember)
      → {b : Bool} {s' : T.members.State} → L.has_user s q.owner_id
      → create_project T q s ≡ (ok b, s')
      → (T.insert s q).0 ≡ found id
      → T.members.members s' id ≡ found ms
      → (id ≢ pos 0)
        × (is_project_member T.members id q.owner_id s' ≡ (ok true, s'))
        × (m : ProjectMember) × Has m ms
        × (m.user_id ≡ q.owner_id)
        × (m.role_id ≡ project_admin)
  create_project_owner q s id ms {b} {s'} known h given listed =
      let (id', given', apart, member) = creation q s h in
      let same = found-injective (sym given ∙ given') in
      let (asked, m, there, user, role) =
        add_or_update_project_member_is_member T.members L id q.owner_id project_admin
          (T.insert s q).1 ms (P.insert-user s q q.owner_id known)
          (subst
            (λ v.
              add_or_update_project_member T.members v q.owner_id project_admin (T.insert s q).1
              ≡ (ok true, s'))
            (sym same) member)
          listed in
      (subst (λ v. v ≢ pos 0) (sym same) apart, asked, m, there, user, role)

  -- A creation keeps each row of a member under the sum of the ids of its user and its project, but
  -- for the row that the database is set up with.
  pub create_project-IsKeyed :
      (q : Project) (s : T.members.State) {b : Bool} {s' : T.members.State}
      → IsKeyed T.members L s
      → create_project T q s ≡ (ok b, s')
      → IsKeyed T.members L s'
  create_project-IsKeyed q s keyed h =
      let (id, _, _, member) = creation q s h in
      add_or_update_project_member-IsKeyed T.members L id q.owner_id project_admin (T.insert s q).1
        (λ at p u r row. keyed at p u r (sym (P.insert-role s q at p u) ∙ row)) member
