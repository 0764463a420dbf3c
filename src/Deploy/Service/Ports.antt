-- ===== src/Deploy/Service/Ports.antt =====
-- The ports of a service: their names, and the type of the service.
use board_old.Prelude.{ℕ, suc, ◌+◌, ◌<◌, ◌≤◌, ◌^◌, String, Bool, true, false, some, ◌≡◌, refl}
use board_old.Prelude.{
  List, [], ◌∷◌, ◌∙◌, ap, sym, inl, inr, arith, if◌then◌else◌, Bool-cases, ◌||◌,
}
use mathlib.Core.Option.{some-injective}
use mathlib.Core.Path.{subst}
use text.Mathlib.TextLemmas.{append_cancel_left}
use board_old.Prelude.Go.{elems}
use board_old.Prelude.Int.{pos, pos_part}
use board_old.Prelude.Text.{str_eq, str_eq_iff}
use board_old.Prelude.Decimal.{itoa, atoi, Parsed}
use board_old.Prelude.Decimal.RoundTrip.{atoi-itoa}
use board_old.Model.Service.{Service, ServicePort}
use board_old.Model.ServiceConfig.{ExternalService, ConfigServiceStep}
use board_old.Deploy.Service.{
  is_configured, port_name, port_at, service_ports, service_kind, marshal_service,
}

abbrev pub has_name : String → List ServicePort → Bool
has_name name [] = false
has_name name (p ∷ rest) = str_eq name p.name || has_name name rest

-- No two ports of the list have one name.
abbrev pub NodupNames : List ServicePort → Type 0
NodupNames [] = Unit
NodupNames (p ∷ rest) = (has_name p.name rest ≡ false) × NodupNames rest

abbrev pub length : List ExternalService → ℕ
length [] = 0
length (x ∷ xs) = suc (length xs)

-- Different indices below 2^63 give different names.
port_name_apart : (i j : ℕ) → i < j → j < 2 ^ 63 → str_eq (port_name i) (port_name j) ≡ false
port_name_apart i j h k = elim (Bool-cases (str_eq (port_name i) (port_name j))) [
  | inl e ↦
      let same : itoa (pos i) ≡ itoa (pos j) =
        append_cancel_left "port" _ _ ((str_eq_iff (port_name i) (port_name j)).0 e) in
      let read =
        sym (atoi-itoa (pos i) (omega arith, omega arith))
        ∙ ap atoi same
        ∙ atoi-itoa (pos j) (omega arith, omega arith) in
      let equal : i ≡ j = ap (λ (p : Parsed). pos_part p.0) read in ground arith
  | inr e ↦ e
]

later_apart :
    (i j : ℕ) (xs : List ExternalService)
    → i < j
    → j + length xs ≤ 2 ^ 63
    → has_name (port_name i) (service_ports j xs) ≡ false
unfolding service_ports port_at
later_apart i j [] h k = refl
later_apart i j (x ∷ xs) h k = ground (
  arith,
  later_apart i (suc j) xs (omega arith) (omega arith),
  port_name_apart i j h (omega arith),
)

service_ports-NodupNames :
    (i : ℕ) (xs : List ExternalService) → i + length xs ≤ 2 ^ 63 → NodupNames (service_ports i xs)
unfolding service_ports port_at
service_ports-NodupNames i [] h = tt
service_ports-NodupNames i (x ∷ xs) h = elim (Bool-cases (is_configured x.node_config)) [
  | inl e ↦ simp e (
    later_apart i (suc i) xs (omega arith) (omega arith),
    service_ports-NodupNames (suc i) xs (omega arith),
  )
  | inr e ↦ simp e (service_ports-NodupNames (suc i) xs (omega arith))
]

abbrev pub no_port : List ServicePort → Bool
no_port [] = true
no_port (p ∷ ps) = false

abbrev pub kind_of : String → List ServicePort → String
kind_of kind ps = if no_port ps then kind else "NodePort"

kind_of_same : (ps : List ServicePort) → kind_of "NodePort" ps ≡ "NodePort"
kind_of_same [] = refl
kind_of_same (p ∷ ps) = refl

service_kind_lem :
    (kind : String) (i : ℕ) (xs : List ExternalService)
    → service_kind kind xs ≡ kind_of kind (service_ports i xs)
unfolding service_kind service_ports
service_kind_lem kind i [] = refl
service_kind_lem kind i (x ∷ xs) = elim (Bool-cases (is_configured x.node_config)) [
  | inl e ↦
      simp e (service_kind_lem "NodePort" (suc i) xs ∙ kind_of_same (service_ports (suc i) xs))
  | inr e ↦ simp e (service_kind_lem kind (suc i) xs)
]

-- A service is of type "NodePort" where it has a port, and "ClusterIP" where it has none, and no
-- two of its ports have one name, if the draft has at most 2^63 external services.
pub marshal_service_ports :
    (config : ConfigServiceStep) {s : Service}
    → marshal_service (some config) ≡ some s
    → length (elems config.external_service_list) ≤ 2 ^ 63
    → (s.service_type ≡ kind_of "ClusterIP" (elems s.ports)) × NodupNames (elems s.ports)
unfolding marshal_service
marshal_service_ports config e h =
    let xs = elems config.external_service_list in
    subst
      (λ (s : Service).
        (s.service_type ≡ kind_of "ClusterIP" (elems s.ports)) × NodupNames (elems s.ports))
      (some-injective _ _ e)
      (service_kind_lem "ClusterIP" 0 xs, service_ports-NodupNames 0 xs (omega arith))
