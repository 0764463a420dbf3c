-- ===== src/Users/Tests.antt =====
-- A table of users as a list of rows, and the deletion of one of two users.
use board_old.Prelude.{
  arith, ◌≡◌, ap, sym, ◌∙◌, refl, Bool, true, false, Option, none, some, String, List, [], ◌∷◌,
  if◌then◌else◌, ◌&&◌,
}
use board_old.Prelude.Int.{ℤ, pos, eq_ℤ, eq_ℤ→≡}
use board_old.Prelude.Text.{str_eq}
use board_old.Prelude.Effect.{ok}
use board_old.Model.User.{User, zero_user}
use board_old.Dao.{Answer, found, no_rows}
use board_old.Dao.User.{UserTable, IsLawful, get_user, changed, renamed, with_password}
use board_old.Dao.User as Dao
use board_old.Users.{get_user_by_id, delete_user, delete_found, deleted_user}
use board_old.Users.Laws.{delete_user-row}

abbrev matching : User → Option User → Answer User
matching q none = no_rows
matching q (some u) = if eq_ℤ u.id q.id && eq_ℤ u.deleted q.deleted then found u else no_rows

abbrev writes : User → List String → User → User
writes q [] u = u
writes q (field ∷ rest) u = if str_eq field "username" then renamed q u else with_password q u

-- Rows are read by their id and the mark of a deletion.
abbrev memory : UserTable
memory = record {
  State = ℤ → Option User;
  now = λ s. 7;
  read = λ s q fields. matching q (s q.id);
  update = λ s q fields.
      (found (pos 1), λ id. if eq_ℤ q.id id then changed (writes q fields) (s id) else s id);
}

found-injective : {A : Type 0} {a b : A} → found a ≡ found b → a ≡ b
found-injective e = cc

tested : (b : Bool) (x u : User) → (if b then found x else no_rows) ≡ found u → (b ≡ true) × (x ≡ u)
tested true x u h = (refl, found-injective h)
tested false x u h = cc

matched :
    (q : User) (o : Option User) (u : User)
    → matching q o ≡ found u
    → (o ≡ some u) × (u.id ≡ q.id) × (u.deleted ≡ q.deleted)
matched q none u h = cc
matched q (some x) u h =
    let (b, same) = tested (eq_ℤ x.id q.id && eq_ℤ x.deleted q.deleted) x u h in
    (
      ap some same,
      sym (ap (λ (y : User). y.id) same) ∙ eq_ℤ→≡ x.id q.id (ground (arith, b)),
      sym (ap (λ (y : User). y.deleted) same) ∙ eq_ℤ→≡ x.deleted q.deleted (ground (arith, b)),
    )

memory-IsLawful : IsLawful memory
memory-IsLawful = record {
  row = λ s id. s id;
  read-row = λ s q u h. matched q (s q.id) u h;
  update-renamed = λ s q id fine. refl;
  update-password = λ s q id fine. refl;
}

abbrev ann : User
ann = record zero_user { id = pos 5; username = "ann"; email = "ann@board" }

abbrev users : ℤ → Option User
users id = if eq_ℤ id (pos 5) then some ann else none

abbrev left : ℤ → Option User
left id = if eq_ℤ (pos 5) id then changed (renamed (deleted_user ann)) (users id) else users id

delete_ann : delete_user memory (pos 5) users ≡ (ok true, left)
unfolding delete_user delete_found get_user_by_id get_user Dao.update_user
delete_ann = refl

delete_user-row_example :
    (u : User) × (users (pos 5) ≡ some u)
    × (u.deleted ≡ pos 0)
    × (left (pos 5) ≡ (if eq_ℤ (pos 5) (pos 5) then some (deleted_user u) else users (pos 5)))
unfolding memory-IsLawful
delete_user-row_example = delete_user-row memory memory-IsLawful (pos 5) (pos 5) users delete_ann

ann_is_gone : get_user_by_id memory (pos 5) left ≡ (ok none, left)
unfolding get_user_by_id get_user
ann_is_gone = refl
