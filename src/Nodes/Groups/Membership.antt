-- ===== src/Nodes/Groups/Membership.antt =====
-- Which groups GetGroupOfNode finds.
use board_old.Prelude.{
  arith, ◌≡◌, refl, sym, ap, ◌∙◌, Bool, true, false, not, ◌&&◌, ◌||◌, Option, none, some, String,
  List, [], ◌∷◌, ◌++◌, if◌then◌else◌, Bool-cases, inl, inr,
}
use board_old.Prelude.Go.{Slice, elems, lookup}
use board_old.Prelude.Int.{eq_ℤ, pos}
use board_old.Prelude.Text.{str_eq, str_eq_iff, str_eq_refl, contains}
use mathlib.Core.Path.{subst}
use board_old.Prelude.Effect.{Act, ok, ◌>>=◌, return}
use board_old.Prelude.Effect.Laws.{bind-ok, if-taken}
use board_old.Model.NodeGroup.{NodeGroup, group_named}
use board_old.K8s.Api.Meta.{Quantities}
use board_old.K8s.Client.{NodeClient, IsLawful}
use board_old.K8s.Assist.Node as Nodes
use board_old.Dao.{Answer, found, no_rows, failed}
use board_old.Dao.NodeGroup.{GroupTable}
use board_old.Dao.NodeGroup as Dao
use board_old.Nodes.Store.{Store, on_cluster, on_table}
use board_old.Nodes.Listing.{is_some}
use board_old.Nodes.Groups.{
  k8s_label, node_group_exists, is_member, keep_if, group_round, groups_of, get_group_of_node,
  add_node_to_group, remove_node_from_group,
}
use board_old.Nodes.Groups.Labels.{
  label_of, read_label, get-ok, add_node_to_group_labels, remove_node_from_group_labels,
}

is_member-append :
    (g key : String) (groups : List String)
    → is_member g (groups ++ key ∷ []) ≡ (is_member g groups || str_eq g key)
unfolding is_member
is_member-append g key [] = ground arith
is_member-append g key (h ∷ groups) = ground (arith, is_member-append g key groups)

is_member-keep_if :
    (g key : String) (groups : Slice String) (b : Bool)
    → is_member g (elems (keep_if groups key b))
      ≡ (is_member g (elems groups) || (str_eq g key && b))
is_member-keep_if g key groups true = ground (arith, is_member-append g key (elems groups))
is_member-keep_if g key groups false = ground arith

either_entry :
    (known here : Bool) (v : String) (later : Option String) (f : Bool) {middle : Bool}
    → middle ≡ (known || (here && f))
    → (middle || (is_some later && f)) ≡ (known || (is_some (if here then some v else later) && f))
either_entry known here v later f h = ground (arith, h)

pub same_store :
    {C G : Type 0} {s s' : Store C G} → s.cluster ≡ s'.cluster → s.table ≡ s'.table → s ≡ s'
same_store c t = λ i. record { cluster = c i; table = t i }

module _ {C G A : Type 0} where
  pub on_cluster-ok :
      (m : Act C A) (s : Store C G) {a : A} {s' : Store C G}
      → on_cluster m s ≡ (ok a, s')
      → (m s.cluster ≡ (ok a, s'.cluster)) × (s'.table ≡ s.table)
  on_cluster-ok m s h = (λ i. ((h i).0, (h i).1.cluster), sym λ i. (h i).1.table)

  pub on_table-ok :
      (m : Act G A) (s : Store C G) {a : A} {s' : Store C G}
      → on_table m s ≡ (ok a, s')
      → (m s.table ≡ (ok a, s'.table)) × (s'.cluster ≡ s.cluster)
  on_table-ok m s h = (λ i. ((h i).0, (h i).1.table), sym λ i. (h i).1.cluster)

ok-injective : {A : Type 0} {a b : A} → ok a ≡ ok b → a ≡ b
ok-injective e = cc

abbrev pub is_row : Answer NodeGroup → Bool
is_row (found g) = not (eq_ℤ g.id (pos 0))
is_row no_rows = false
is_row failed = false

module _ (G : GroupTable) where
  -- Whether the table has a group of the name.
  abbrev pub is_group : G.State → String → Bool
  is_group t name = is_row (G.read t (group_named name) ("name" ∷ []))

  node_group_exists-ok :
      (name : String) (t : G.State) {b : Bool} {t' : G.State}
      → node_group_exists G name t ≡ (ok b, t')
      → (b ≡ is_group t name) × (t ≡ t')
  unfolding node_group_exists Dao.get_node_group
  node_group_exists-ok name t h = ground arith

  module _ (Q : Quantities) (C : NodeClient Q.Quantity) where
    -- What a round adds.
    abbrev Adds : Slice String → Bool → String → String → Slice String → Type 0
    Adds groups b key g out =
        is_member g (elems out) ≡ (is_member g (elems groups) || (str_eq g key && b))

    abbrev pub counts : G.State → String → Bool
    counts t key = not (contains key k8s_label) && is_group t key

    group_round_passed :
        (groups : Slice String) (key g : String) (s : Store C.State G.State) {out : Slice String}
        {s' : Store C.State G.State}
        → (do
          exist ← on_table {C = C.State} (node_group_exists G key)
          return (keep_if groups key exist))
            s
          ≡ (ok out, s')
        → (s ≡ s') × Adds groups (is_group s.table key) key g out
    group_round_passed groups key g s h =
        let (b, s₁, e, last) = bind-ok (on_table (node_group_exists G key)) _ s h in
        let (t, c) = on_table-ok (node_group_exists G key) s e in
        let (asked, same) = node_group_exists-ok key s.table t in
        (
          same_store (sym c) same ∙ λ i. (last i).1,
          ap (λ r. is_member g (elems r)) (sym (ok-injective λ i. (last i).0))
              ∙ is_member-keep_if g key groups b
              ∙ ap (λ e'. is_member g (elems groups) || (str_eq g key && e')) asked,
        )

    group_round-ok :
        (groups : Slice String) (key g : String) (s : Store C.State G.State) {out : Slice String}
        {s' : Store C.State G.State}
        → group_round Q C G groups key s ≡ (ok out, s')
        → (s ≡ s') × Adds groups (counts s.table key) key g out
    group_round-ok groups key g s h = elim (if-taken (contains key k8s_label) _ _ s h) [
      | inl (e, r) ↦ (
        λ i. (r i).1,
        ap (λ o. is_member g (elems o)) (sym (ok-injective λ i. (r i).0)) ∙ ground (arith, e),
      )
      | inr (e, r) ↦ (
        (group_round_passed groups key g s r).0,
        (group_round_passed groups key g s r).1 ∙ ground (arith, e),
      )
    ]

    same_key :
        (f : String → Bool) (g key : String) → (str_eq g key && f key) ≡ (str_eq key g && f g)
    same_key f g key = elim (Bool-cases (str_eq g key)) [
      | inl e ↦ subst (λ k. (str_eq g k && f k) ≡ (str_eq k g && f g)) ((str_eq_iff g key).0 e) refl
      | inr e ↦ ground (arith, str_eq_iff g key, str_eq_iff key g)
    ]

    groups_of-ok :
        (groups : Slice String) (labels : List (String × String)) (g : String)
        (s : Store C.State G.State) {out : Slice String} {s' : Store C.State G.State}
        → groups_of Q C G groups labels s ≡ (ok out, s')
        → (s ≡ s')
          × (is_member g (elems out)
              ≡ (is_member g (elems groups) || (is_some (lookup g labels) && counts s.table g)))
    unfolding groups_of lookup
    groups_of-ok groups [] g s h = (
      λ i. (h i).1,
      ap (λ o. is_member g (elems o)) (sym (ok-injective λ i. (h i).0)) ∙ ground arith,
    )
    groups_of-ok groups ((key, v) ∷ rest) g s h =
        let (middle, s₁, e, r) = bind-ok (group_round Q C G groups key) _ s h in
        let (same, added) = group_round-ok groups key g s e in
        let (same', added') = groups_of-ok middle rest g s₁ r in
        (
          same ∙ same',
          added'
              ∙ ap
                  (λ t. is_member g (elems middle) || (is_some (lookup g rest) && counts t.table g))
                  (sym same)
              ∙ either_entry (is_member g (elems groups)) (str_eq key g) v (lookup g rest)
                  (counts s.table g)
                  (added
                    ∙ ap (λ b. is_member g (elems groups) || b) (same_key (counts s.table) g key)),
        )

    -- GetGroupOfNode, where it returns without an error, changes nothing and gives exactly the groups
    -- of the database that the node has a label for, of those whose name does not contain
    -- "kubernetes.io".
    pub get_group_of_node_members :
        (name : String) (s : Store C.State G.State) {out : Slice String}
        {s' : Store C.State G.State}
        → get_group_of_node Q C G name s ≡ (ok out, s')
        → (s ≡ s')
          × ((g : String)
              → is_member g (elems out) ≡ (
                  is_some (label_of Q C s.cluster name g)
                  && (not (contains g k8s_label) && is_group s.table g)))
    unfolding get_group_of_node lookup is_member
    get_group_of_node_members name s h =
        let (n, s₁, e, r) = bind-ok (on_cluster (Nodes.get Q C name)) _ s h in
        let (got, table) = on_cluster-ok (Nodes.get Q C name) s e in
        let (k, at, _, labels, cluster) = get-ok Q C name s.cluster got in
        let stays = same_store cluster (sym table) in
        let shown = λ (g : String).
          ap (λ l. is_some (lookup g (elems l))) labels
          ∙ ap (λ o. is_some (read_label Q C o g)) (sym at) in
        (
          stays ∙ (groups_of-ok none (elems n.object_meta.labels) "" s₁ r).0,
          λ g. (groups_of-ok none (elems n.object_meta.labels) g s₁ r).1 ∙ λ i.
              shown g i && counts (sym stays i).table g,
        )

  module _ (Q : Quantities) (C : NodeClient Q.Quantity) (L : IsLawful C) where
    -- Once AddNodeToGroup has returned without an error, GetGroupOfNode of that node, where it
    -- returns without an error, gives the group just if the database has it and its name does not
    -- contain "kubernetes.io"; once RemoveNodeFromGroup has, it does not give it.
    pub add_then_remove :
        (name g : String) (s s₁ s₂ s₃ s₄ : Store C.State G.State) {out out' : Slice String}
        → on_cluster (add_node_to_group Q C name g) s ≡ (ok tt, s₁)
        → get_group_of_node Q C G name s₁ ≡ (ok out, s₂)
        → on_cluster (remove_node_from_group Q C name g) s₂ ≡ (ok tt, s₃)
        → get_group_of_node Q C G name s₃ ≡ (ok out', s₄)
        → (is_member g (elems out) ≡ counts Q C s.table g) × (is_member g (elems out') ≡ false)
    add_then_remove name g s s₁ s₂ s₃ s₄ added shown removed shown' =
        let (a, t) = on_cluster-ok (add_node_to_group Q C name g) s added in
        let (at, _) = add_node_to_group_labels Q C L name g s.cluster s₁.cluster a in
        let (r, _) = on_cluster-ok (remove_node_from_group Q C name g) s₂ removed in
        let (gone, _) = remove_node_from_group_labels Q C L name g s₂.cluster s₃.cluster r in
        let (_, members) = get_group_of_node_members Q C name s₁ shown in
        let (_, members') = get_group_of_node_members Q C name s₃ shown' in
        (
          members g
              ∙ ap (λ o. is_some o && counts Q C s₁.table g)
                  (at g
                    ∙ ap (λ b. if b then some "true" else label_of Q C s.cluster name g)
                        (str_eq_refl g))
              ∙ ap (λ u. counts Q C u g) t,
          members' g
              ∙ ap (λ o. is_some o && counts Q C s₃.table g)
                  (gone g
                    ∙ ap (λ b. if b then none else label_of Q C s₂.cluster name g) (str_eq_refl g)),
        )
