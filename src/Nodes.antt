-- ===== src/Nodes.antt =====
-- apiserver/service/node.go: the nodes of the cluster and their groups. A group is a row of the
-- database; a node belongs to it by a label of the group's name.
pub mod Store
pub mod Listing
pub mod Groups
pub mod Members
pub mod Control
pub mod Tests
use board_old.Prelude.{}
