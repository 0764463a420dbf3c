-- ===== src/Cache.antt =====
-- The memory cache of the beego framework, which the API server keeps its sessions, its sign-in
-- counters and its service drafts in. The cache is not part of the repository's code: it is a
-- record of operations, with the documented behaviour as a record of laws.
pub mod Memory
use board_old.Prelude.{ℕ, ◌+◌, ◌≤◌, ◌<◌, ◌≡◌, Option, none, some, String, Bool}
use board_old.Prelude.{arith, leb, if◌then◌else◌}
use board_old.Prelude.Text.{str_eq}

-- Times are in nanoseconds. `get` reads at a time; `put` writes at a time, with a lifespan.
pub record Cache (V : Type 0) : Type 1 where
  pub State : Type 0
  pub get : State → ℕ → String → Option V
  pub put : State → ℕ → String → V → ℕ → State
  -- whether the key was there, and the state without it
  pub delete : State → String → Bool × State

-- A value can be read back exactly until its lifespan, which is not zero, is over; other keys are not touched; a deleted key
-- reads as absent, and what can be read can be deleted.
pub record IsLawful {V : Type 0} (C : Cache V) : Type 0 where
  pub get-put_self :
      (s : C.State) (now later : ℕ) (k : String) (v : V) (span : ℕ)
      → 0 < span
      → C.get (C.put s now k v span) later k ≡ (if leb later (now + span) then some v else none)
  pub get-put_ne :
      (s : C.State) (now later : ℕ) (k j : String) (v : V) (span : ℕ)
      → str_eq k j ≡ Bool.false
      → C.get (C.put s now k v span) later j ≡ C.get s later j
  pub get-delete :
      (s : C.State) (later : ℕ) (k j : String)
      → C.get (C.delete s k).1 later j ≡ (if str_eq k j then none else C.get s later j)
  pub delete-found :
      (s : C.State) (now : ℕ) (k : String) (v : V)
      → C.get s now k ≡ some v
      → (C.delete s k).0 ≡ Bool.true

pub get-put_alive :
    {V : Type 0} (C : Cache V) (L : IsLawful C) (s : C.State) (now later : ℕ) (k : String) (v : V)
    (span : ℕ)
    → 0 < span
    → later ≤ now + span
    → C.get (C.put s now k v span) later k ≡ some v
get-put_alive C L s now later k v span positive h =
    ground (arith, L.get-put_self s now later k v span positive)
