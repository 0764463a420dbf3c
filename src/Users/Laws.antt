-- ===== src/Users/Laws.antt =====
-- A user who was deleted.
use board_old.Prelude.{
  ◌≡◌, ◌≢◌, ap, sym, ◌∙◌, Bool, true, false, Option, none, some, [], ◌∷◌, if◌then◌else◌, refl,
}
use Prim.Native.String.{◌++◌}
use mathlib.Core.Path.{subst}
use mathlib.Core.Option.{some-injective}
use board_old.Prelude.Int.{ℤ, pos, eq_ℤ, eq_ℤ→≡, eq_ℤ_refl}
use board_old.Prelude.Effect.{ok, attempt}
use board_old.Prelude.Effect.Laws.{bind-ok, panic-ok}
use board_old.Model.User.{User, zero_user}
use board_old.Dao.{Answer, found, no_rows, failed, or_nil, or_zero}
use board_old.Dao.User.{UserTable, IsLawful, get_user, changed, renamed}
use board_old.Dao.User as Dao
use board_old.Users.{get_user_by_id, delete_user, delete_found, deleted_user}

nil_found : {A : Type 0} (a : Answer A) {x : A} → or_nil a ≡ ok (some x) → a ≡ found x
nil_found (found b) h = cc
nil_found no_rows h = cc
nil_found failed h = cc

zero_returned : (a : Answer ℤ) {n : ℤ} → or_zero a ≡ ok n → a ≢ failed
zero_returned (found m) h = λ e. cc
zero_returned no_rows h = λ e. cc
zero_returned failed h = cc

caught_found :
    {A S : Type 0} (a : Answer A) (s : S) {o : Option A} {s' : S}
    → attempt (λ t. (or_nil a, t)) s ≡ (ok (some o), s')
    → (or_nil a ≡ ok o) × (s ≡ s')
caught_found (found b) s h = (cc, cc)
caught_found no_rows s h = (cc, cc)
caught_found failed s h = cc

module _ (T : UserTable) (L : IsLawful T) where
  abbrev query : ℤ → User
  query user_id = record zero_user { id = user_id; deleted = pos 0 }

  -- The row that is sent to the table.
  abbrev stamped : T.State → User → User
  stamped s u = record (deleted_user u) { update_time = T.now s }

  at_row :
      (b : Bool) (s : T.State) (u : User) (user_id other : ℤ)
      → eq_ℤ user_id other ≡ b
      → L.row s user_id ≡ some u
      → (if b then changed (renamed (stamped s u)) (L.row s other) else L.row s other)
        ≡ (if b then some (deleted_user u) else L.row s other)
  at_row true s u user_id other e row =
      ap (changed (renamed (stamped s u))) (ap (L.row s) (sym (eq_ℤ→≡ user_id other e)) ∙ row)
  at_row false s u user_id other e row = refl

  found_then :
      (looked_up : Option (Option User)) (s : T.State) {s' : T.State}
      → delete_found T looked_up s ≡ (ok true, s')
      → (u : User) × (looked_up ≡ some (some u))
        × ((T.update s (stamped s u) ("username" ∷ "email" ∷ "deleted" ∷ [])).0 ≢ failed)
        × ((T.update s (stamped s u) ("username" ∷ "email" ∷ "deleted" ∷ [])).1 ≡ s')
  unfolding delete_found Dao.update_user
  found_then none s h = cc
  found_then (some pointer) s h =
      let (u, there, r) = panic-ok pointer _ s h in
      let (n, s₁, e, last) =
        bind-ok (Dao.update_user T (deleted_user u) ("username" ∷ "email" ∷ "deleted" ∷ [])) _ s
          r in
      (
        u,
        ap some there,
        zero_returned (T.update s (stamped s u) ("username" ∷ "email" ∷ "deleted" ∷ [])).0
            (λ i. (e i).0),
        (λ i. (e i).1) ∙ λ i. (last i).1,
      )

  -- The two statements of a deletion that returned true.
  deletion :
      (user_id : ℤ) (s : T.State) {s' : T.State}
      → delete_user T user_id s ≡ (ok true, s')
      → (u : User) × (T.read s (query user_id) ("id" ∷ "deleted" ∷ []) ≡ found u)
        × ((T.update s (stamped s u) ("username" ∷ "email" ∷ "deleted" ∷ [])).0 ≢ failed)
        × ((T.update s (stamped s u) ("username" ∷ "email" ∷ "deleted" ∷ [])).1 ≡ s')
  unfolding delete_user get_user_by_id get_user
  deletion user_id s {s'} h =
      let (looked_up, s₁, e, r) = bind-ok (attempt (get_user_by_id T user_id)) _ s h in
      let (u, there, fine, left) = found_then looked_up s₁ r in
      let answer = T.read s (query user_id) ("id" ∷ "deleted" ∷ []) in
      let (read, same) = caught_found answer s (e ∙ λ i. (ok (there i), s₁)) in
      (
        u,
        nil_found answer read,
        subst (λ t. (T.update t (stamped t u) ("username" ∷ "email" ∷ "deleted" ∷ [])).0 ≢ failed)
            (sym same) fine,
        (λ i. (T.update (same i) (stamped (same i) u) ("username" ∷ "email" ∷ "deleted" ∷ [])).1)
            ∙ left,
      )

  -- After a deletion that returned true, of the rows of all users: there was a row of the id, not
  -- marked as deleted; it is now marked so, with its user name and its address put in per-cent signs;
  -- all other rows are as before.
  pub delete_user-row :
      (user_id other : ℤ) (s : T.State) {s' : T.State}
      → delete_user T user_id s ≡ (ok true, s')
      → (u : User) × (L.row s user_id ≡ some u)
        × (u.deleted ≡ pos 0)
        × (L.row s' other ≡ (
            if eq_ℤ user_id other
            then some (record u {
              username = "%" ++ (u.username ++ "%");
              email = "%" ++ (u.email ++ "%");
              deleted = pos 1;
            })
            else L.row s other))
  delete_user-row user_id other s {s'} h =
      let (u, read, fine, left) = deletion user_id s h in
      let (row, same, live) = L.read-row s (query user_id) u read in
      let after_it =
        ap (λ t. L.row t other) (sym left) ∙ L.update-renamed s (stamped s u) other fine in
      (
        u,
        row,
        live,
        after_it
            ∙ ap
                (λ v.
                  if eq_ℤ v other
                  then changed (renamed (stamped s u)) (L.row s other)
                  else L.row s other)
                same
            ∙ at_row (eq_ℤ user_id other) s u user_id other refl row,
      )

  -- After a deletion that returned true the user is not found by the id any more.
  pub delete_user_gone :
      (user_id : ℤ) (s : T.State) {s' s'' : T.State} (o : Option User)
      → delete_user T user_id s ≡ (ok true, s')
      → get_user_by_id T user_id s' ≡ (ok o, s'')
      → o ≡ none
  unfolding get_user_by_id get_user
  delete_user_gone user_id s {s'} {s''} none h asked = refl
  delete_user_gone user_id s {s'} {s''} (some v) h asked =
      let (row, _, live) = L.read-row s' (query user_id) v (nil_found _ (λ i. (asked i).0)) in
      let (u, _, _, marked) = delete_user-row user_id user_id s h in
      let written =
        marked
        ∙ ap (λ b. if b then some (deleted_user u) else L.row s user_id) (eq_ℤ_refl user_id) in
      let same = some-injective _ _ (sym row ∙ written) in
      let no_mark = sym live ∙ ap (λ (x : User). x.deleted) same in cc no_mark
