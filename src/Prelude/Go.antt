-- ===== src/Prelude/Go.antt =====
-- Go's slices and maps. A `nil` slice or map is `none`: it reads as an empty one, and is told apart
-- only by a comparison with `nil`. A map is a list of its entries.
use text.Mathlib.Text.{◌==◌ as str_eq}
use text.Mathlib.TextEquality.{eq_iff}
use board_old.Prelude.{
  ◌≡◌, refl, ap, ◌∙◌, sym, Option, none, some, List, [], ◌∷◌, ◌++◌, map, String,
}
use board_old.Prelude.{append_assoc, append-nil, arith, if◌then◌else◌}

abbrev pub Slice {ℓ} : Type ℓ → Type ℓ
Slice A = Option (List A)

abbrev pub elems {ℓ} : {A : Type ℓ} → Slice A → List A
elems none = []
elems (some xs) = xs

-- `append(s, x)`
abbrev pub append {ℓ} : {A : Type ℓ} → Slice A → A → Slice A
append s x = some (elems s ++ x ∷ [])

-- `for _, x := range xs { out = append(out, f(x)) }`
unfoldable pub append_each {ℓ κ} : {A : Type ℓ} {B : Type κ} → (A → B) → Slice B → List A → Slice B
append_each f out [] = out
append_each f out (x ∷ xs) = append_each f (append out (f x)) xs

module _ {ℓ κ} {A : Type ℓ} {B : Type κ} (f : A → B) where
  pub append_each-some :
      (ys : List B) (xs : List A) → append_each f (some ys) xs ≡ some (ys ++ map f xs)
  unfolding append_each
  append_each-some ys [] = ap some (sym (append-nil ys))
  append_each-some ys (x ∷ xs) =
      append_each-some (ys ++ f x ∷ []) xs ∙ ap some (append_assoc ys (f x ∷ []) (map f xs))

  pub elems-append_each :
      (out : Slice B) (xs : List A) → elems (append_each f out xs) ≡ elems out ++ map f xs
  unfolding append_each
  elems-append_each out [] = sym (append-nil (elems out))
  elems-append_each out (x ∷ xs) =
      ap elems (append_each-some (elems out ++ f x ∷ []) xs)
      ∙ append_assoc (elems out) (f x ∷ []) (map f xs)

-- What is left of a slice when a loop copies it into a `nil` slice: an empty one becomes `nil`.
abbrev pub nil_if_empty {ℓ} : {A : Type ℓ} → List A → Slice A
nil_if_empty [] = none
nil_if_empty (x ∷ xs) = some (x ∷ xs)

pub append_each-none {ℓ κ} :
    {A : Type ℓ} {B : Type κ} (f : A → B) (xs : List A)
    → append_each f none xs ≡ nil_if_empty (map f xs)
unfolding append_each
append_each-none f [] = refl
append_each-none f (x ∷ xs) = append_each-some f (f x ∷ []) xs

pub map-map {ℓ κ ι} :
    {A : Type ℓ} {B : Type κ} {C : Type ι} (g : B → C) (f : A → B) (xs : List A)
    → map g (map f xs) ≡ map (λ x. g (f x)) xs
map-map g f [] = refl
map-map g f (x ∷ xs) = ap (λ r. g (f x) ∷ r) (map-map g f xs)

pub map-inverse {ℓ κ} :
    {A : Type ℓ} {B : Type κ} (g : B → A) (f : A → B)
    → ((x : A) → g (f x) ≡ x)
    → (xs : List A) → map g (map f xs) ≡ xs
map-inverse g f h [] = refl
map-inverse g f h (x ∷ xs) = λ i. h x i ∷ map-inverse g f h xs i

-- Copying a list out and back in, from made slices, keeps it.
pub copy_back {ℓ κ} :
    {A : Type ℓ} {B : Type κ} (g : B → A) (f : A → B)
    → ((x : A) → g (f x) ≡ x)
    → (xs : List A) → append_each g (some []) (elems (append_each f (some []) xs)) ≡ some xs
copy_back g f h xs =
    ap (λ s. append_each g (some []) (elems s)) (append_each-some f [] xs)
    ∙ append_each-some g [] (map f xs)
    ∙ ap some (map-inverse g f h xs)

-- A map with keys of type `String`.
abbrev pub GoMap {ℓ} : Type ℓ → Type ℓ
GoMap V = Slice (String × V)

module _ {ℓ} {V : Type ℓ} where
  -- `v, ok := m[key]`
  unfoldable pub lookup : String → List (String × V) → Option V
  lookup key [] = none
  lookup key (entry ∷ entries) = if str_eq entry.0 key then some entry.1 else lookup key entries

  -- `m[key] = value` on a map that is not `nil`
  unfoldable pub insert : String → V → List (String × V) → List (String × V)
  insert key value [] = (key, value) ∷ []
  insert key value (entry ∷ entries) =
      if str_eq entry.0 key then (key, value) ∷ entries else entry ∷ insert key value entries

  -- `delete(m, key)`
  unfoldable pub delete : String → List (String × V) → List (String × V)
  delete key [] = []
  delete key (entry ∷ entries) =
      let rest = delete key entries in if str_eq entry.0 key then rest else entry ∷ rest

  -- Each key stands once, as in every Go map.
  abbrev pub NodupKeys : List (String × V) → Type ℓ
  NodupKeys [] = Unit
  NodupKeys ((k, _) ∷ m) = (lookup k m ≡ none) × NodupKeys m

  pub lookup-insert :
      (key other : String) (value : V) (entries : List (String × V))
      → lookup other (insert key value entries)
        ≡ (if str_eq key other then some value else lookup other entries)
  unfolding lookup insert
  lookup-insert key other value [] = refl
  lookup-insert key other value (entry ∷ entries) = ground (
    arith,
    lookup-insert key other value entries,
    eq_iff key other,
    eq_iff entry.0 key,
    eq_iff entry.0 other,
  )

  pub lookup-delete :
      (key other : String) (entries : List (String × V))
      → lookup other (delete key entries)
        ≡ (if str_eq key other then none else lookup other entries)
  unfolding lookup delete
  lookup-delete key other [] = ground arith
  lookup-delete key other (entry ∷ entries) = ground (
    arith,
    lookup-delete key other entries,
    eq_iff key other,
    eq_iff entry.0 key,
    eq_iff entry.0 other,
  )

-- `for k, v := range m { out[k] = f(v) }`
unfoldable pub fill {ℓ κ} :
    {V : Type ℓ} {W : Type κ} → (V → W) → List (String × V) → List (String × W) → List (String × W)
fill f [] out = out
fill f ((k, v) ∷ m) out = fill f m (insert k (f v) out)

-- The value that the loop leaves at a key: that of the source, and the old one where it has none.
abbrev pub filled {ℓ κ} : {V : Type ℓ} {W : Type κ} → (V → W) → Option V → Option W → Option W
filled f (some v) old = some (f v)
filled f none old = old

pub lookup-fill {ℓ κ} :
    {V : Type ℓ} {W : Type κ} (f : V → W) (j : String) (m : List (String × V))
    (out : List (String × W))
    → NodupKeys m
    → lookup j (fill f m out) ≡ filled f (lookup j m) (lookup j out)
unfolding fill lookup
lookup-fill f j [] out u = refl
lookup-fill f j ((k, v) ∷ m) out (fresh, u) =
    lookup-fill f j m (insert k (f v) out) u
    ∙ ground (arith, lookup-insert k j (f v) out, eq_iff k j)
