-- ===== src/Model/Meta.antt =====
-- common/model/k8scli.go: what every object of the cluster carries. A `time.Time` is an instant in
-- nanoseconds, the zero time is 0. A named string type of the source is `String` here.
use board_old.Prelude.{ℕ, Option, String}
use board_old.Prelude.Go.{GoMap}

pub record ObjectMeta : Type 0 where
  pub name : String
  pub namespace : String
  pub creation_timestamp : ℕ
  pub deletion_timestamp : Option ℕ
  pub labels : GoMap String
  pub annotations : GoMap String
