-- ===== src/Nodes/Store.antt =====
-- node.go: what its functions act on, the cluster and the table of node groups.
use board_old.Prelude.Effect.{Act}

pub record Store (C G : Type 0) : Type 0 where
  pub cluster : C
  pub table : G

module _ {C G A : Type 0} where
  abbrev pub on_cluster : Act C A → Act (Store C G) A
  on_cluster m s = ((m s.cluster).0, record s { cluster = (m s.cluster).1 })

  abbrev pub on_table : Act G A → Act (Store C G) A
  on_table m s = ((m s.table).0, record s { table = (m s.table).1 })
