-- ===== src/Trees/Node.antt =====
-- The tree of crates/core/src/trees/patricia.rs.
use zk_clob.Prelude.{Option, none, some}
use zk_clob.Types.Batch.{PatriciaSubtree}

-- `Commitment`, and the subtree that it converts to and from.
abbrev pub Commitment : Type 0
Commitment = PatriciaSubtree

pub data Node : Type 0 where
  empty : Node
  leaf : Commitment → Node
  branch : Commitment → Node → Node → Node

-- `Node::commitment`
abbrev pub commitment : Node → Option Commitment
commitment Node.empty = none
commitment (Node.leaf c) = some c
commitment (Node.branch c l r) = some c
