-- ===== src/Prelude/Effect/Laws.antt =====
-- What the parts of a computation that returned have done.
use board_old.Prelude.{
  ◌≡◌, ◌⊎◌, inl, inr, Bool, true, false, if◌then◌else◌, refl, Option, none, some, List, [], ◌∷◌,
}
use board_old.Prelude.Effect.{
  Result, ok, err, panics, Act, after, ◌>>=◌, answered, reads, calls, or_panic, each,
}
use mathlib.Core.Path.{subst}

-- A property of each item of a list.
abbrev pub AllOf {ℓ} : {A : Type 0} → (A → Type ℓ) → List A → Type ℓ
AllOf P [] = Unit
AllOf P (x ∷ xs) = P x × AllOf P xs

module _ {S A B : Type 0} where
  after-ok :
      (p : Result A × S) (f : A → Act S B) {b : B} {s' : S}
      → after p f ≡ (ok b, s')
      → (a : A) × (s₁ : S) × (p ≡ (ok a, s₁)) × (f a s₁ ≡ (ok b, s'))
  after-ok (ok a, s) f h = (a, s, refl, h)
  after-ok (err, s) f h = cc
  after-ok (panics, s) f h = cc

  pub bind-ok :
      (m : Act S A) (f : A → Act S B) (s : S) {b : B} {s' : S}
      → (m >>= f) s ≡ (ok b, s')
      → (a : A) × (s₁ : S) × (m s ≡ (ok a, s₁)) × (f a s₁ ≡ (ok b, s'))
  bind-ok m f s h = after-ok (m s) f h

  pub panic-ok :
      (o : Option A) (f : A → Act S B) (s : S) {b : B} {s' : S}
      → (or_panic o >>= f) s ≡ (ok b, s')
      → (a : A) × (o ≡ some a) × (f a s ≡ (ok b, s'))
  panic-ok (some a) f s h = (a, refl, h)
  panic-ok none f s h = cc

answered-ok : {A : Type 0} (o : Option A) {a : A} → answered o ≡ ok a → o ≡ some a
answered-ok (some a) h = cc
answered-ok none h = cc

module _ {S A : Type 0} where
  -- A branch that was taken.
  pub if-taken :
      (b : Bool) (m n : Act S A) (s : S) {r : Result A × S}
      → (if b then m else n) s ≡ r
      → ((b ≡ true) × (m s ≡ r)) ⊎ ((b ≡ false) × (n s ≡ r))
  if-taken true m n s h = inl (refl, h)
  if-taken false m n s h = inr (refl, h)

  pub reads-ok :
      (f : S → Option A) (s : S) {a : A} {s' : S}
      → reads f s ≡ (ok a, s')
      → (f s ≡ some a) × (s ≡ s')
  reads-ok f s h = (answered-ok (f s) cc, cc)

  pub calls-ok :
      (f : S → Option A × S) (s : S) {a : A} {s' : S} → calls f s ≡ (ok a, s') → f s ≡ (some a, s')
  calls-ok f s h = λ i. (answered-ok (f s).0 (λ j. (h j).0) i, (h i).1)

  each_stays :
      (body : A → Act S (Unit {0})) (Kept : S → Type 0) (Done : A → S → Type 0)
      → ((x : A) (s s' : S) → Kept s → body x s ≡ (ok tt, s') → Kept s' × Done x s')
      → ((x y : A) (s s' : S) → Kept s → Done x s → body y s ≡ (ok tt, s') → Done x s')
      → (x : A) (xs : List A) (s s' : S) → Kept s
      → Done x s
      → each body xs s ≡ (ok tt, s')
      → Done x s'
  unfolding each
  each_stays body Kept Done round stays x [] s s' k d h = subst (Done x) (λ i. (h i).1) d
  each_stays body Kept Done round stays x (y ∷ xs) s s' k d h =
      let (_, s₁, e, rest) = bind-ok (body y) (λ _. each body xs) s h in
      each_stays body Kept Done round stays x xs s₁ s' (round y s s₁ k e).0 (stays x y s s₁ k d e)
        rest

  -- What a loop keeps of the state, and what each of its rounds brings about for its item, where all
  -- rounds return.
  pub each-ok :
      (body : A → Act S (Unit {0})) (Kept : S → Type 0) (Done : A → S → Type 0)
      → ((x : A) (s s' : S) → Kept s → body x s ≡ (ok tt, s') → Kept s' × Done x s')
      → ((x y : A) (s s' : S) → Kept s → Done x s → body y s ≡ (ok tt, s') → Done x s')
      → (xs : List A) (s s' : S) → Kept s
      → each body xs s ≡ (ok tt, s')
      → Kept s' × AllOf (λ x. Done x s') xs
  unfolding each
  each-ok body Kept Done round stays [] s s' k h = (subst Kept (λ i. (h i).1) k, tt)
  each-ok body Kept Done round stays (x ∷ xs) s s' k h =
      let (_, s₁, e, rest) = bind-ok (body x) (λ _. each body xs) s h in
      let (k₁, d) = round x s s₁ k e in
      let (k', ds) = each-ok body Kept Done round stays xs s₁ s' k₁ rest in
      (k', (each_stays body Kept Done round stays x xs s₁ s' k₁ d rest, ds))
