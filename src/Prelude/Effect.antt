-- ===== src/Prelude/Effect.antt =====
-- Go code that changes a state outside of it, such as the cluster or the database, and that may
-- return an error or panic. What the errors say is left out.
pub mod Laws
use board_old.Prelude.{Option, none, some, List, [], ◌∷◌}

pub data Result (A : Type 0) : Type 0 where
  ok : A → Result A
  err panics : Result A

abbrev pub Act : Type 0 → Type 0 → Type 0
Act S A = S → Result A × S

-- What follows an outcome: an error and a panic end the function.
abbrev pub after : {S A B : Type 0} → Result A × S → (A → Act S B) → Result B × S
after (ok a, s) f = f a s
after (err, s) f = (err, s)
after (panics, s) f = (panics, s)

infixl 5 ◌>>=◌ ◌>>◌
abbrev pub ◌>>=◌ : {S A B : Type 0} → Act S A → (A → Act S B) → Act S B
◌>>=◌ m f s = after (m s) f

abbrev pub ◌>>◌ : {S B : Type 0} → Act S (Unit {0}) → Act S B → Act S B
m >> k = m >>= λ _. k

abbrev pub return : {S A : Type 0} → A → Act S A
return a s = (ok a, s)

abbrev pub fail : {S A : Type 0} → Act S A
fail s = (err, s)

abbrev pub panic : {S A : Type 0} → Act S A
panic s = (panics, s)

-- A call of code outside of the repository: `none` is an error.
abbrev pub answered : {A : Type 0} → Option A → Result A
answered none = err
answered (some a) = ok a

-- A call that reads only.
abbrev pub reads : {S A : Type 0} → (S → Option A) → Act S A
reads f s = (answered (f s), s)

-- A call that may change the state.
abbrev pub calls : {S A : Type 0} → (S → Option A × S) → Act S A
calls f s = (answered (f s).0, (f s).1)

abbrev pub or_panic : {S A : Type 0} → Option A → Act S A
or_panic none = panic
or_panic (some a) = return a

-- An error that the caller looks at: `none` stands for it.
abbrev pub caught : {S A : Type 0} → Result A × S → Result (Option A) × S
caught (ok a, s) = (ok (some a), s)
caught (err, s) = (ok none, s)
caught (panics, s) = (panics, s)

abbrev pub attempt : {S A : Type 0} → Act S A → Act S (Option A)
attempt m s = caught (m s)

-- `defer func() { recover() }()` of a function whose result is `a` until its end.
abbrev pub recovered : {S A : Type 0} → A → Result A × S → Result A × S
recovered a (ok b, s) = (ok b, s)
recovered a (err, s) = (err, s)
recovered a (panics, s) = (ok a, s)

abbrev pub recover : {S A : Type 0} → A → Act S A → Act S A
recover a m s = recovered a (m s)

-- `for _, x := range xs { ... }`, which a return in its body ends.
unfoldable pub each : {S A : Type 0} → (A → Act S (Unit {0})) → List A → Act S (Unit {0})
each body [] = return tt
each body (x ∷ xs) = do body x; each body xs
