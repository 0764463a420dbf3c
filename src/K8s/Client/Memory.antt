-- ===== src/K8s/Client/Memory.antt =====
-- A cluster that keeps its nodes by name and has no errors but that of a missing node.
use board_old.Prelude.{
  ◌≡◌, refl, ap, ◌∙◌, true, Option, none, some, String, List, map, if◌then◌else◌,
}
use board_old.Prelude.Go.{lookup, insert, delete, lookup-insert}
use board_old.Prelude.Text.{str_eq_refl}
use board_old.K8s.Api.Node as Api
use board_old.K8s.Client.{NodeClient, IsLawful}

module _ (Q : Type 0) where
  abbrev named : String → Option (Api.Node Q) → Option (Api.Node Q)
  named name none = none
  named name (some n) = some (record n { object_meta = record n.object_meta { name = name } })

  abbrev pub memory : NodeClient Q
  memory = record {
    State = List (String × Api.Node Q);
    list = λ s selector. some (record { items = some (map (λ e. e.1) s) });
    get = λ s name. named name (lookup name s);
    create = λ s n. (some n, insert n.object_meta.name n s);
    update = λ s n. (some n, insert n.object_meta.name n s);
    update_status = λ s n. (some n, insert n.object_meta.name n s);
    delete = λ s name. (true, delete name s);
  }

  named-name :
      (name : String) (o : Option (Api.Node Q)) (n : Api.Node Q)
      → named name o ≡ some n
      → n.object_meta.name ≡ name
  named-name name none n h = cc
  named-name name (some m) n h = cc

  pub memory-IsLawful : IsLawful memory
  memory-IsLawful = record {
    get-name = λ s name n h. named-name name (lookup name s) n h;
    get-update_self = λ s n n' h. (
      ap (named n.object_meta.name) (lookup-insert n.object_meta.name n.object_meta.name n s)
          ∙ ap (λ b. named n.object_meta.name (if b then some n else lookup n.object_meta.name s))
              (str_eq_refl n.object_meta.name)
          ∙ h,
      λ key. cc h,
    );
    get-update_ne =
        λ s n name h. ap (named name) (lookup-insert n.object_meta.name name n s ∙ rw h refl);
  }
