-- ===== src/K8s/Api/Meta.antt =====
-- k8s.io/apimachinery: metadata and quantities.
use board_old.Prelude.{ℕ, ◌<◌, ◌^◌, Option, some, String, ◌≡◌, true, Bool}
use board_old.Prelude.Go.{GoMap}
use board_old.Prelude.Int.{ℤ, pos_part, neg_part}
use board_old.Prelude.Decimal.{InInt64, itoa}

pub record TypeMeta : Type 0 where
  pub kind : String
  pub api_version : String

-- `metav1.Time`, which wraps a `time.Time`
pub record Time : Type 0 where
  pub time : ℕ

pub record ObjectMeta : Type 0 where
  pub name : String
  pub namespace : String
  pub uid : String
  pub resource_version : String
  pub creation_timestamp : Time
  pub deletion_timestamp : Option Time
  pub labels : GoMap String
  pub annotations : GoMap String

-- The package `resource`: quantities, and the calls that are made of it. `must_parse` is `none`
-- where the call panics.
pub record Quantities : Type 1 where
  pub Quantity : Type 0
  pub new_quantity : ℤ → Quantity
  pub as_int64 : Quantity → ℤ × Bool
  pub to_string : Quantity → String
  pub must_parse : String → Option Quantity

-- An integer of at most 18 digits: `ParseQuantity` reads longer ones as big decimals, which
-- `AsInt64` does not give back.
abbrev pub IsShort : ℤ → Type 0
IsShort z = (pos_part z < 10 ^ 18) × (neg_part z < 10 ^ 18)

-- A quantity made of a 64-bit integer, or parsed from at most 18 digits, is read back as that integer.
pub record IsLawful (Q : Quantities) : Type 0 where
  pub as_int64-new_quantity : (z : ℤ) → InInt64 z → Q.as_int64 (Q.new_quantity z) ≡ (z, true)
  pub must_parse-itoa :
      (z : ℤ)
      → IsShort z
      → (q : Q.Quantity) × (Q.must_parse (itoa z) ≡ some q) × (Q.as_int64 q ≡ (z, true))
