-- ===== src/ServiceConfig/Ports.antt =====
-- The node ports of the drafts, and the external services that a change of containers keeps.
use board_old.Prelude.{
  ◌≡◌, ◌≢◌, refl, sym, ap, ◌∙◌, ◌⊎◌, inl, inr, ◌↔◌, true, false, Bool-cases, String, ◌||◌, Option,
  none, some,
}
use board_old.Prelude.{List, [], ◌∷◌, ◌++◌, arith}
use mathlib.Core.Path.{subst}
use board_old.Prelude.Go.{elems}
use board_old.Prelude.Text.{str_eq, str_eq_iff}
use board_old.Prelude.Effect.Laws.{AllOf}
use board_old.Prelude.Int.{ℤ, pos, ◌≤ℤ◌, eq_ℤ, eq_ℤ→≡, eq_ℤ_refl}
use board_old.Model.ServiceConfig.{Container, ExternalService}
use board_old.ServiceConfig.Checks.{
  is_invalid_port, has_invalid_port, contains, is_empty, exposed_item, exposed_items, collect,
  check_port_map,
}

-- No port, or one of the range.
abbrev pub IsValidPort : ℤ → Type 0
IsValidPort p = (p ≡ pos 0) ⊎ ((pos 30000 ≤ℤ p) × (p ≤ℤ pos 32765))

abbrev pub AllPorts : List ExternalService → Type 0
AllPorts [] = Unit
AllPorts (ds ∷ rest) = IsValidPort ds.node_config.node_port × AllPorts rest

is_invalid_port_lem : (p : ℤ) → is_invalid_port p ≡ false → IsValidPort p
unfolding is_invalid_port
is_invalid_port_lem p h = ground (arith, eq_ℤ→≡ p (pos 0))

-- What the loop over the external services lets pass.
pub has_invalid_port-AllPorts :
    (xs : List ExternalService) → has_invalid_port xs ≡ false → AllPorts xs
unfolding has_invalid_port
has_invalid_port-AllPorts [] h = tt
has_invalid_port-AllPorts (ds ∷ rest) h = (
  is_invalid_port_lem ds.node_config.node_port (ground arith),
  has_invalid_port-AllPorts rest (ground arith),
)

append-AllPorts : (xs ys : List ExternalService) → AllPorts xs → AllPorts ys → AllPorts (xs ++ ys)
append-AllPorts [] ys h k = k
append-AllPorts (x ∷ xs) ys (p, h) k = (p, append-AllPorts xs ys h k)

-- Membership in a list, with the place.
abbrev pub In : {A : Type 0} → A → List A → Type 0
In x [] = ⊥
In x (y ∷ ys) = (x ≡ y) ⊎ In x ys

In-left : {A : Type 0} (x : A) (xs ys : List A) → In x xs → In x (xs ++ ys)
In-left x [] ys h = absurd h
In-left x (y ∷ xs) ys (inl e) = inl e
In-left x (y ∷ xs) ys (inr h) = inr (In-left x xs ys h)

In-right : {A : Type 0} (x : A) (xs ys : List A) → In x ys → In x (xs ++ ys)
In-right x [] ys h = h
In-right x (y ∷ xs) ys h = inr (In-right x xs ys h)

In-append : {A : Type 0} (x : A) (xs ys : List A) → In x (xs ++ ys) → In x xs ⊎ In x ys
In-append x [] ys h = inr h
In-append x (y ∷ xs) ys (inl e) = inl (inl e)
In-append x (y ∷ xs) ys (inr h) = elim (In-append x xs ys h) [ inl k ↦ inl (inr k) | inr k ↦ inr k ]

-- The container has the port, or names none at all.
abbrev pub HasPort : Container → ExternalService → Type 0
HasPort dc ds = In ds.node_config.port (elems dc.container_port) ⊎ (elems dc.container_port ≡ [])

contains-In : (ps : List ℤ) (p : ℤ) → contains ps p ≡ true → In p ps
contains-In [] p h = cc
contains-In (q ∷ qs) p h = elim (Bool-cases (eq_ℤ q p)) [
  | inl e ↦ inl (sym (eq_ℤ→≡ q p e))
  | inr e ↦ inr (contains-In qs p (ground (arith, e, h)))
]

In-contains : (ps : List ℤ) (p : ℤ) → In p ps → contains ps p ≡ true
In-contains [] p h = absurd h
In-contains (q ∷ qs) p (inl e) =
    ap (λ b. b || contains qs p) (ap (λ v. eq_ℤ v p) (sym e) ∙ eq_ℤ_refl p)
In-contains (q ∷ qs) p (inr h) = ground (arith, In-contains qs p h)

no_ports : (ps : List ℤ) → is_empty ps ≡ true → ps ≡ []
no_ports [] h = refl
no_ports (q ∷ qs) h = cc

item_cases :
    (dc : Container) (ds : ExternalService)
    → ((exposed_item dc ds ≡ some ds) × HasPort dc ds)
      ⊎ ((exposed_item dc ds ≡ none) × (HasPort dc ds → ⊥))
unfolding exposed_item
item_cases dc ds =
    let ports = elems dc.container_port in
    elim (Bool-cases (contains ports ds.node_config.port)) [
      | inl e ↦ inl (rw e refl, inl (contains-In ports ds.node_config.port e))
      | inr e ↦ elim (Bool-cases (is_empty ports)) [
        | inl f ↦ inl (rw (e, f) refl, inr (no_ports ports f))
        | inr f ↦ inr (
          rw (e, f) refl,
          λ has. elim has [
            | inl there ↦ let both = sym e ∙ In-contains ports ds.node_config.port there in cc both
            | inr nothing ↦ let both = sym f ∙ ap is_empty nothing in cc both
          ],
        )
      ]
    ]

-- One round of the stream of a container: an external service of its name, and one of another.
reached :
    (dc : Container) (ds : ExternalService) (rest : List ExternalService)
    {item : Option ExternalService}
    → str_eq dc.name ds.container_name ≡ true
    → exposed_item dc ds ≡ item
    → collect (exposed_items dc (ds ∷ rest)) ≡ collect (item ∷ exposed_items dc rest)
unfolding exposed_items
reached dc ds rest e it = rw (e, it) refl

passed :
    (dc : Container) (ds : ExternalService) (rest : List ExternalService)
    → str_eq dc.name ds.container_name ≡ false
    → collect (exposed_items dc (ds ∷ rest)) ≡ collect (exposed_items dc rest)
unfolding exposed_items
passed dc ds rest e = rw e refl

collect-AllPorts :
    (dc : Container) (xs : List ExternalService)
    → AllPorts xs
    → AllPorts (collect (exposed_items dc xs))
unfolding collect exposed_items
collect-AllPorts dc [] h = tt
collect-AllPorts dc (ds ∷ rest) (p, h) = elim (Bool-cases (str_eq dc.name ds.container_name)) [
  | inl e ↦ elim (item_cases dc ds) [
    | inl (it, has) ↦ subst AllPorts (sym (reached dc ds rest e it)) (p, collect-AllPorts dc rest h)
    | inr (it, lacks) ↦ subst AllPorts (sym (reached dc ds rest e it)) tt
  ]
  | inr e ↦ subst AllPorts (sym (passed dc ds rest e)) (collect-AllPorts dc rest h)
]

pub check_port_map-AllPorts :
    (xs : List ExternalService) (cs : List Container)
    → AllPorts xs
    → AllPorts (check_port_map xs cs)
unfolding check_port_map
check_port_map-AllPorts xs [] h = tt
check_port_map-AllPorts xs (dc ∷ rest) h =
    append-AllPorts (collect (exposed_items dc xs)) (check_port_map xs rest)
      (collect-AllPorts dc xs h) (check_port_map-AllPorts xs rest h)

-- The container lets the external service pass: it has another name, or the port.
abbrev pub Passes : Container → ExternalService → Type 0
Passes dc ds = (dc.name ≢ ds.container_name) ⊎ HasPort dc ds

-- The list has the external service at a place where the container exposes it and lets all before
-- it pass.
abbrev pub Kept : ExternalService → List ExternalService → Container → Type 0
Kept x xs dc =
    (before : List ExternalService) × (after : List ExternalService) × (xs ≡ before ++ (x ∷ after))
    × AllOf (Passes dc) before
    × (dc.name ≡ x.container_name)
    × HasPort dc x

later :
    (x y : ExternalService) (xs : List ExternalService) (dc : Container)
    → Passes dc y
    → Kept x xs dc
    → Kept x (y ∷ xs) dc
later x y xs dc p (before, after, e, all, name, port) =
    (y ∷ before, after, ap (λ l. y ∷ l) e, (p, all), name, port)

other_name : (s t : String) → str_eq s t ≡ false → s ≢ t
other_name s t h e = let both = sym h ∙ (str_eq_iff s t).1 e in cc both

collect_sound :
    (x : ExternalService) (dc : Container) (xs : List ExternalService)
    → In x (collect (exposed_items dc xs))
    → Kept x xs dc
unfolding collect exposed_items
collect_sound x dc [] h = absurd h
collect_sound x dc (ds ∷ rest) h = elim (Bool-cases (str_eq dc.name ds.container_name)) [
  | inl e ↦ elim (item_cases dc ds) [
    | inl (it, has) ↦
        head_or_tail has e (subst (In x) (reached dc ds rest e it) h) (collect_sound x dc rest)
    | inr (it, lacks) ↦ absurd (subst (In x) (reached dc ds rest e it) h)
  ]
  | inr e ↦
      later x ds rest dc (inl (other_name dc.name ds.container_name e))
        (collect_sound x dc rest (subst (In x) (passed dc ds rest e) h))
]
  where
    head_or_tail :
        HasPort dc ds
        → str_eq dc.name ds.container_name ≡ true
        → In x (ds ∷ collect (exposed_items dc rest))
        → (In x (collect (exposed_items dc rest)) → Kept x rest dc)
        → Kept x (ds ∷ rest) dc
    head_or_tail has e (inl same) go = (
      [],
      rest,
      ap (λ y. y ∷ rest) (sym same),
      tt,
      (str_eq_iff dc.name ds.container_name).0 e ∙ ap (λ y. y.container_name) (sym same),
      subst (HasPort dc) (sym same) has,
    )
    head_or_tail has e (inr k) go = later x ds rest dc (inr has) (go k)

collect_complete :
    (x : ExternalService) (dc : Container) (before after : List ExternalService)
    → AllOf (Passes dc) before
    → dc.name ≡ x.container_name
    → HasPort dc x
    → In x (collect (exposed_items dc (before ++ (x ∷ after))))
unfolding collect exposed_items
collect_complete x dc [] after all name port = elim (item_cases dc x) [
  | inl (it, _) ↦
      subst (In x) (sym (reached dc x after ((str_eq_iff dc.name x.container_name).1 name) it))
        (inl refl)
  | inr (_, lacks) ↦ absurd (lacks port)
]
collect_complete x dc (y ∷ ys) after (p, all) name port =
    let there = collect_complete x dc ys after all name port in
    elim (Bool-cases (str_eq dc.name y.container_name)) [
      | inl e ↦ elim (item_cases dc y) [
        | inl (it, _) ↦ subst (In x) (sym (reached dc y (ys ++ (x ∷ after)) e it)) (inr there)
        | inr (_, lacks) ↦ elim p [
          | inl apart ↦ absurd (apart ((str_eq_iff dc.name y.container_name).0 e))
          | inr has ↦ absurd (lacks has)
        ]
      ]
      | inr e ↦ subst (In x) (sym (passed dc y (ys ++ (x ∷ after)) e)) there
    ]

-- Some container of the list keeps it.
abbrev pub KeptBySome : ExternalService → List ExternalService → List Container → Type 0
KeptBySome x xs cs = (dc : Container) × In dc cs × Kept x xs dc

sound :
    (x : ExternalService) (xs : List ExternalService) (cs : List Container)
    → In x (check_port_map xs cs)
    → KeptBySome x xs cs
unfolding check_port_map
sound x xs [] h = absurd h
sound x xs (dc ∷ cs) h =
    elim (In-append x (collect (exposed_items dc xs)) (check_port_map xs cs) h) [
      | inl k ↦ (dc, inl refl, collect_sound x dc xs k)
      | inr k ↦ let (d, i, e) = sound x xs cs k in (d, inr i, e)
    ]

complete :
    (x : ExternalService) (xs : List ExternalService) (cs : List Container)
    → (dc : Container) → In dc cs
    → Kept x xs dc
    → In x (check_port_map xs cs)
unfolding check_port_map
complete x xs [] dc i k = absurd i
complete x xs (d ∷ cs) dc (inl same) (before, after, e, all, name, port) =
    In-left x (collect (exposed_items d xs)) (check_port_map xs cs) (
      subst (λ c. In x (collect (exposed_items c xs))) same
        (subst (λ l. In x (collect (exposed_items dc l))) (sym e)
          (collect_complete x dc before after all name port)))
complete x xs (d ∷ cs) dc (inr i) k =
    In-right x (collect (exposed_items d xs)) (check_port_map xs cs) (complete x xs cs dc i k)

-- After a change of containers exactly those external services of the draft are left that some new
-- container keeps: it has the name that the external service asks for, it has its port or names no
-- ports, and each external service before it in the draft that asks for the same name has a port of
-- the container too.
pub In-check_port_map :
    (x : ExternalService) (xs : List ExternalService) (cs : List Container)
    → In x (check_port_map xs cs) ↔ KeptBySome x xs cs
In-check_port_map x xs cs = (sound x xs cs, λ (dc, i, k). complete x xs cs dc i k)
