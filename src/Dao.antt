-- ===== src/Dao.antt =====
-- common/dao: the access to the database, through the object mapper of beego, which is third-party
-- code.
pub mod NodeGroup
pub mod Member
pub mod Project
pub mod User
use board_old.Prelude.{Option, none, some}
use board_old.Prelude.Int.{ℤ, pos}
use board_old.Prelude.Effect.{Result, ok, err}

-- A call of the mapper gives a value, the error `orm.ErrNoRows`, or another error.
pub data Answer (A : Type 0) : Type 0 where
  found : A → Answer A
  no_rows failed : Answer A

-- `if err == orm.ErrNoRows { return nil, nil }`, and any other error is returned.
abbrev pub or_nil : {A : Type 0} → Answer A → Result (Option A)
or_nil (found a) = ok (some a)
or_nil no_rows = ok none
or_nil failed = err

-- `if err == orm.ErrNoRows { return 0, nil }`, and any other error is returned.
abbrev pub or_zero : Answer ℤ → Result ℤ
or_zero (found n) = ok n
or_zero no_rows = ok (pos 0)
or_zero failed = err
