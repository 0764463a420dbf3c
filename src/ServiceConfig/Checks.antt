-- ===== src/ServiceConfig/Checks.antt =====
-- apiserver/v1/controller/serviceconfig.go and apiserver/service/serviceconfig.go: the checks on the
-- parts of a service draft. Also utils/validator.go's check of a length.
use Prim.Native.Char.{Char, code}
use Prim.Native.String.{len}
use board_old.Prelude.{ℕ, String, Bool, true, false, not, ◌&&◌, ◌||◌, Option, none, some}
use board_old.Prelude.{List, [], ◌∷◌, ◌++◌, leb, ◌==◌, if◌then◌else◌}
use board_old.Prelude.Go.{elems}
use board_old.Prelude.Int.{ℤ, pos, ltb_ℤ, eq_ℤ}
use board_old.Prelude.Text.{str_eq}
use board_old.Prelude.Decimal.{Parsed, atoi}
use board_old.Model.ServiceConfig.{Container, ExternalService}

abbrev pub maximum_port_num : ℤ
maximum_port_num = pos 32765

abbrev pub minimum_port_num : ℤ
minimum_port_num = pos 30000

-- `port != 0 && (port > maximumPortNum || port < minimumPortNum)`
unfoldable pub is_invalid_port : ℤ → Bool
is_invalid_port port =
    not (eq_ℤ port (pos 0)) && (ltb_ℤ maximum_port_num port || ltb_ℤ port minimum_port_num)

-- The loops over the external services: whether one has an invalid node port.
unfoldable pub has_invalid_port : List ExternalService → Bool
unfolding is_invalid_port
has_invalid_port [] = false
has_invalid_port (external ∷ rest) =
    is_invalid_port external.node_config.node_port || has_invalid_port rest

-- A character in front of what is left of the text behind it.
abbrev pub keep : (Char → Bool) → Char → String → String
keep cut c String.[] = if cut c then "" else String.◌∷◌ c ""
keep cut c (String.◌∷◌ d s) = String.◌∷◌ c (String.◌∷◌ d s)

-- Go's `strings.TrimRight`, with the set of characters as a test.
unfoldable pub trim_right : (Char → Bool) → String → String
trim_right cut String.[] = ""
trim_right cut (String.◌∷◌ c s) = keep cut c (trim_right cut s)

-- Go's `strings.TrimLeft`
unfoldable pub trim_left : (Char → Bool) → String → String
trim_left cut String.[] = ""
trim_left cut (String.◌∷◌ c s) =
    let rest = trim_left cut s in if cut c then rest else String.◌∷◌ c s

-- Go's `unicode.IsSpace`
abbrev pub is_space : Char → Bool
is_space c =
    let n = code c in
    (leb 9 n && leb n 13)
    || n == 32
    || n == 0x85
    || n == 0xa0
    || n == 0x1680
    || (leb 0x2000 n && leb n 0x200a)
    || n == 0x2028
    || n == 0x2029
    || n == 0x202f
    || n == 0x205f
    || n == 0x3000

-- `strings.TrimSpace`
unfoldable pub trim_space : String → String
unfolding trim_left trim_right
trim_space s = trim_right is_space (trim_left is_space s)

-- utils.ValidateWithLengthRange: Go's `len` counts bytes.
unfoldable pub validate_with_length_range : String → ℕ → ℕ → Bool
unfolding trim_space
validate_with_length_range target min max =
    let trimmed = trim_space target in leb min (len trimmed) && leb (len trimmed) max

abbrev is_m : Char → Bool
is_m c = code c == b'm'

abbrev is_m_or_i : Char → Bool
is_m_or_i c = code c == b'M' || code c == b'i'

-- Both texts read as numbers, the first at most the second.
abbrev pub in_order : Parsed → Parsed → Bool
in_order (request, none) (limit, none) = not (ltb_ℤ limit request)
in_order (request, some e) limit = false
in_order (request, none) (limit, some e) = false

-- `request != "" && limit != ""` asks for the comparison; the loop's body serves an error where it
-- is false.
unfoldable pub cpu_in_order : Container → Bool
unfolding trim_right
cpu_in_order c =
    if not (str_eq c.cpu_request "") && not (str_eq c.cpu_limit "")
    then in_order (atoi (trim_right is_m c.cpu_request)) (atoi (trim_right is_m c.cpu_limit))
    else true

unfoldable pub mem_in_order : Container → Bool
unfolding trim_right
mem_in_order c =
    if not (str_eq c.mem_request "") && not (str_eq c.mem_limit "")
    then in_order (atoi (trim_right is_m_or_i c.mem_request))
        (atoi (trim_right is_m_or_i c.mem_limit))
    else true

-- The loop over the containers: whether it runs to its end.
unfoldable pub resources_in_order : List Container → Bool
unfolding cpu_in_order mem_in_order
resources_in_order [] = true
resources_in_order (c ∷ cs) = cpu_in_order c && mem_in_order c && resources_in_order cs

abbrev pub contains : List ℤ → ℤ → Bool
contains [] p = false
contains (q ∷ qs) p = eq_ℤ q p || contains qs p

abbrev pub is_empty : List ℤ → Bool
is_empty [] = true
is_empty (q ∷ qs) = false

-- The external service itself where the container has its port, or names none, and else nil.
unfoldable pub exposed_item : Container → ExternalService → Option ExternalService
exposed_item dc ds =
    if contains (elems dc.container_port) ds.node_config.port || is_empty (elems dc.container_port)
    then some ds
    else none

-- `Collect` of the stream library: its collector panics at the first nil. The library recovers from
-- that, so that the items before it are returned, with an error, which the caller drops.
unfoldable pub collect : {A : Type 0} → List (Option A) → List A
collect [] = []
collect (none ∷ rest) = []
collect (some x ∷ rest) = x ∷ collect rest

-- The stream of what the function gives for the external services of the container.
unfoldable pub exposed_items : Container → List ExternalService → List (Option ExternalService)
exposed_items dc [] = []
exposed_items dc (ds ∷ rest) =
    let others = exposed_items dc rest in
    if str_eq dc.name ds.container_name then exposed_item dc ds ∷ others else others

-- CheckServiceConfigPortMap: for each container in order, the external services of its name up to
-- the first whose port it does not have.
unfoldable pub check_port_map : List ExternalService → List Container → List ExternalService
unfolding exposed_item exposed_items collect
check_port_map externals [] = []
check_port_map externals (dc ∷ rest) =
    collect (exposed_items dc externals) ++ check_port_map externals rest
