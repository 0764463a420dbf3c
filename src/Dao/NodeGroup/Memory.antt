-- ===== src/Dao/NodeGroup/Memory.antt =====
-- A table of node groups as a list of rows, which are looked up by their name.
use board_old.Prelude.{
  arith, ◌≡◌, ◌≢◌, refl, ◌∙◌, Bool, true, false, not, ◌&&◌, some, String, List, [], ◌∷◌,
  if◌then◌else◌, inl, inr, sym, ◌⊎◌,
}
use mathlib.Core.Path.{subst}
use board_old.Prelude.Int.{ℤ, pos, eq_ℤ}
use board_old.Prelude.Text.{str_eq, str_eq_iff}
use board_old.Model.NodeGroup.{NodeGroup}
use board_old.Dao.{Answer, found, no_rows}
use board_old.Dao.NodeGroup.{GroupTable, IsLawful}

unfoldable pub find_row : String → List NodeGroup → Answer NodeGroup
find_row name [] = no_rows
find_row name (g ∷ rest) =
    let later = find_row name rest in
    if str_eq g.group_name name && not (eq_ℤ g.id (pos 0)) then found g else later

unfoldable pub without : ℤ → List NodeGroup → List NodeGroup
without id [] = []
without id (g ∷ rest) = let others = without id rest in if eq_ℤ g.id id then others else g ∷ others

abbrev pub memory : GroupTable
memory = record {
  State = List NodeGroup;
  now = λ s. 0;
  insert = λ s g. (found g.id, g ∷ s);
  read = λ s q fields. find_row q.group_name s;
  update = λ s g fields. (found g.id, g ∷ without g.id s);
  delete = λ s g. (found (pos 1), without g.id s);
  all = λ s. found (some s);
}

found-injective : {A : Type 0} {a b : A} → found a ≡ found b → a ≡ b
found-injective e = cc

-- The row that a test has picked.
picked :
    (b : Bool) (x g : NodeGroup) (later : Answer NodeGroup)
    → (if b then found x else later) ≡ found g
    → ((b ≡ true) × (x ≡ g)) ⊎ (later ≡ found g)
picked true x g later h = inl (refl, found-injective h)
picked false x g later h = inr h

eq_ℤ_refl : (v : ℤ) → eq_ℤ v v ≡ true
eq_ℤ_refl v = ground arith

apart : (z w : ℤ) → eq_ℤ z w ≡ false → z ≢ w
apart z w h = λ e. let same = sym (eq_ℤ_refl z) ∙ subst (λ v. eq_ℤ z v ≡ false) (sym e) h in cc same

find_row-name :
    (name : String) (s : List NodeGroup) (g : NodeGroup)
    → find_row name s ≡ found g
    → (g.group_name ≡ name) × (g.id ≢ pos 0)
unfolding find_row
find_row-name name [] g h = cc
find_row-name name (x ∷ rest) g h =
    elim (picked (str_eq x.group_name name && not (eq_ℤ x.id (pos 0))) x g (find_row name rest) h) [
      | inl (t, e) ↦
          subst (λ r. (r.group_name ≡ name) × (r.id ≢ pos 0)) e
            (
              (str_eq_iff x.group_name name).0 (ground (arith, t)),
              apart x.id (pos 0) (ground (arith, t)),
            )
      | inr later ↦ find_row-name name rest g later
    ]

find_row-without :
    (name : String) (id : ℤ) (s : List NodeGroup) (g : NodeGroup)
    → find_row name (without id s) ≡ found g
    → g.id ≢ id
unfolding find_row without
find_row-without name id [] g h = cc
find_row-without name id (x ∷ rest) g h =
    by_id (eq_ℤ x.id id) refl (λ k. find_row-without name id rest g k) h
  where
    by_id :
        (b : Bool)
        → eq_ℤ x.id id ≡ b
        → (find_row name (without id rest) ≡ found g → g.id ≢ id)
        → find_row name (if b then without id rest else x ∷ without id rest) ≡ found g
        → g.id ≢ id
    by_id true e go k = go k
    by_id false e go k =
        elim (picked (str_eq x.group_name name && not (eq_ℤ x.id (pos 0))) x g
          (find_row name (without id rest)) k) [
            | inl (_, same) ↦ subst (λ r. r.id ≢ id) same (apart x.id id e)
            | inr later ↦ go later
          ]

pub memory-IsLawful : IsLawful memory
memory-IsLawful = record {
  read-name = λ s q g h. (find_row-name q.group_name s g h).0;
  read-id = λ s q g fields h. (find_row-name q.group_name s g h).1;
  read-delete = λ s d q g fields fine h. find_row-without q.group_name d.id s g h;
}
