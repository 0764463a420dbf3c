-- ===== src/ServiceConfig/Inversion.antt =====
-- What a handler of drafts has passed when it passes.
use board_old.Prelude.{◌≡◌, refl, Bool, true, false, Option, none, some, String, if◌then◌else◌}
use board_old.ServiceConfig.Handlers.{
  Stage, pass, stop, ◌>>=◌, ◌>>◌, refuse_if, or_abort, or_refuse,
}

module _ {ℓ} {A B : Type ℓ} {b : B} where
  pub bind-pass :
      (m : Stage A) (f : A → Stage B) → (m >>= f) ≡ pass b → (a : A) × (m ≡ pass a) × (f a ≡ pass b)
  bind-pass (pass a) f h = (a, refl, h)
  bind-pass (stop r) f h = cc

  pub abort-pass :
      (o : Option A) (f : A → Stage B)
      → (or_abort o >>= f) ≡ pass b
      → (a : A) × (o ≡ some a) × (f a ≡ pass b)
  abort-pass (some a) f h = (a, refl, h)
  abort-pass none f h = cc

  pub or_refuse-pass :
      (o : Option A) (message : String) (f : A → Stage B)
      → (or_refuse o message >>= f) ≡ pass b
      → (a : A) × (o ≡ some a) × (f a ≡ pass b)
  or_refuse-pass (some a) message f h = (a, refl, h)
  or_refuse-pass none message f h = cc

pub refuse-pass {ℓ} :
    {B : Type ℓ} {b : B} (t : Bool) (message : String) (k : Stage B)
    → (refuse_if t message >> k) ≡ pass b
    → (t ≡ false) × (k ≡ pass b)
refuse-pass true message k h = cc
refuse-pass false message k h = (refl, h)

pub pass-injective : {A : Type 0} {a b : A} → pass a ≡ pass b → a ≡ b
pass-injective h = cc

pub or_abort-eq {ℓ} : {A : Type ℓ} {a : A} (o : Option A) → or_abort o ≡ pass a → o ≡ some a
or_abort-eq (some a) h = cc
or_abort-eq none h = cc

-- A branch that passes is one of the two.
pub either-pass {ℓ} :
    {A : Type 0} {a : A} {P : Type ℓ} (t : Bool) {m n : Stage A}
    → (m ≡ pass a → P)
    → (n ≡ pass a → P)
    → (if t then m else n) ≡ pass a
    → P
either-pass true f g h = f h
either-pass false f g h = g h
