-- ===== src/Cache/Memory.antt =====
-- A cache that meets the laws: each value with the time up to which it can be read.
use board_old.Prelude.{ℕ, ◌+◌, Option, none, some, String, List, arith, true, false}
use board_old.Prelude.{leb, if◌then◌else◌}
use board_old.Prelude.Go
use board_old.Prelude.Go.{lookup-insert, lookup-delete}
use board_old.Prelude.Text.{str_eq_iff}
use board_old.Cache.{Cache, IsLawful}

abbrev alive : {V : Type 0} → ℕ → Option (V × ℕ) → Option V
alive now none = none
alive now (some (v, until)) = if leb now until then some v else none

abbrev pub memory : (V : Type 0) → Cache V
memory V = record {
  State = List (String × (V × ℕ));
  get = λ s now k. alive now (Go.lookup k s);
  put = λ s now k v span. Go.insert k (v, now + span) s;
  delete = λ s k. (elim (Go.lookup k s) [ none ↦ false | some e ↦ true ], Go.delete k s);
}

pub memory-IsLawful : (V : Type 0) → IsLawful (memory V)
memory-IsLawful V = record {
  get-put_self =
      λ s now later k v span h. ground (arith, lookup-insert k k (v, now + span) s, str_eq_iff k k);
  get-put_ne = λ s now later k j v span h. ground (arith, lookup-insert k j (v, now + span) s);
  get-delete = λ s later k j. ground (arith, lookup-delete k j s);
  delete-found = λ s now k v h. ground arith;
}
