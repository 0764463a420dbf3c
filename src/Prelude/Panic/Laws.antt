-- ===== src/Prelude/Panic/Laws.antt =====
-- Code that does not panic.
use board_old.Prelude.{◌≡◌, refl, ap, ◌∙◌, ◌⊎◌, inl, inr, Option, none, some, List, [], ◌∷◌, map}
use board_old.Prelude.Effect.Laws.{AllOf}
use board_old.Prelude.Panic.{◌>>=◌, for_each}

module _ {ℓ κ} {A : Type ℓ} {B : Type κ} where
  pub bind-some :
      (m : Option A) (f : A → Option B) {a : A} {b : Option B}
      → m ≡ some a
      → f a ≡ b
      → (m >>= f) ≡ b
  bind-some m f h k = ap (λ o. o >>= f) h ∙ k

-- What code that did not panic has computed.
pub bind-some_inv {ℓ κ} :
    {A : Type ℓ} {B : Type κ} (m : Option A) (f : A → Option B) {b : B}
    → (m >>= f) ≡ some b
    → (a : A) × (m ≡ some a) × (f a ≡ some b)
bind-some_inv (some a) f h = (a, refl, h)
bind-some_inv none f h = cc

-- A loop does not panic where none of its rounds does.
pub for_each_all {ℓ κ} :
    {A : Type ℓ} {B : Type κ} {C : Type 0} (f : A → Option B) (g : C → A) (P : C → Type 0)
    → ((c : C) → P c → (b : B) × (f (g c) ≡ some b))
    → (cs : List C) → AllOf P cs
    → (bs : List B) × (for_each f (map g cs) ≡ some bs)
unfolding for_each
for_each_all f g P round [] all = ([], refl)
for_each_all f g P round (c ∷ cs) (p, ps) =
    let (b, e) = round c p in
    let (bs, es) = for_each_all f g P round cs ps in
    (b ∷ bs, bind-some (f (g c)) _ e (bind-some (for_each f (map g cs)) _ es refl))

all_units : {C : Type 0} (cs : List C) → AllOf (λ _. Unit {0}) cs
all_units [] = tt
all_units (c ∷ cs) = (tt, all_units cs)

pub for_each-map {ℓ κ} :
    {A : Type ℓ} {B : Type κ} {C : Type 0} (f : A → Option B) (g : C → A)
    → ((c : C) → (b : B) × (f (g c) ≡ some b))
    → (cs : List C) → (bs : List B) × (for_each f (map g cs) ≡ some bs)
for_each-map f g round cs = for_each_all f g (λ _. Unit {0}) (λ c _. round c) cs (all_units cs)

module _ {ℓ κ} {A : Type ℓ} {B : Type κ} where
  pub bind-none_first : (m : Option A) (f : A → Option B) → m ≡ none → (m >>= f) ≡ none
  bind-none_first m f h = ap (λ o. o >>= f) h

  pub bind-none : (m : Option A) (f : A → Option B) → ((a : A) → f a ≡ none) → (m >>= f) ≡ none
  bind-none none f h = refl
  bind-none (some a) f h = h a

-- A property of some item of a list.
abbrev pub AnyOf : {C : Type 0} → (C → Type 0) → List C → Type 0
AnyOf P [] = ⊥
AnyOf P (c ∷ cs) = P c ⊎ AnyOf P cs

-- A loop panics where one of its rounds does.
pub for_each_any {ℓ κ} :
    {A : Type ℓ} {B : Type κ} {C : Type 0} (f : A → Option B) (g : C → A) (P : C → Type 0)
    → ((c : C) → P c → f (g c) ≡ none)
    → (cs : List C) → AnyOf P cs
    → for_each f (map g cs) ≡ none
unfolding for_each
for_each_any f g P round [] any = elim any [ ]
for_each_any f g P round (c ∷ cs) (inl p) = bind-none_first (f (g c)) _ (round c p)
for_each_any f g P round (c ∷ cs) (inr any) =
    bind-none (f (g c)) _
      λ b. bind-none_first (for_each f (map g cs)) _ (for_each_any f g P round cs any)
