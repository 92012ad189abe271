-- ===== src/Patricia/VirtualNode.antt =====
-- A node with an edge that is not committed yet
-- (starkware/starkware_utils/commitment_tree/patricia_tree/virtual_patricia_node.py).
pub mod Parts
use pip_cairo_lang.Prelude.{
  eqb_zero, ℕ, zero, suc, ◌-◌, ◌^◌, Bool, true, false, not, ◌==◌, if◌then◌else◌, ◌∷◌,
}
use Prim.Native.Nat.{bit_and}
use pip_cairo_lang.Prelude.Bits.{shr}
use pip_cairo_lang.Exec.{Exec, pure}
use pip_cairo_lang.Result.{
  Result, ok, err, ◌>>=◌, ◌>>◌, assert, assertion, leaf_children, not_binary,
}
use pip_cairo_lang.Patricia.Calculation.{note}
use pip_cairo_lang.Patricia.Nodes.{
  HashFunction, NodeFactDict, edge_node, NodeFact, verify_path_value, empty_node_hash, Storage,
  read_node_fact,
}

pub record VirtualPatriciaNode : Type 0 where
  pub bottom_node : ℕ
  pub path : ℕ
  pub length : ℕ
  pub height : ℕ

-- the class called
unfoldable pub virtual_node : ℕ → ℕ → ℕ → ℕ → Result VirtualPatriciaNode
virtual_node bottom_node path length height = do
  verify_path_value path length
  ok (record { bottom_node = bottom_node; path = path; length = length; height = height })

-- A node without an edge is legal, so these give it.
abbrev pub from_hash : ℕ → ℕ → VirtualPatriciaNode
from_hash hash_value height = record {
  bottom_node = hash_value;
  path = 0;
  length = 0;
  height = height;
}

abbrev pub empty_node : ℕ → VirtualPatriciaNode
empty_node height = from_hash empty_node_hash height

abbrev pub is_empty : VirtualPatriciaNode → Bool
is_empty n = n.bottom_node == empty_node_hash

-- The hash of a node; the fact of an edge is written.
unfoldable pub commit : HashFunction → VirtualPatriciaNode → Exec NodeFactDict ℕ
commit hash n =
    if eqb_zero n.length
    then pure n.bottom_node
    else note hash (edge_node n.bottom_node n.path n.length)

abbrev pub Children : Type 0
Children = VirtualPatriciaNode × VirtualPatriciaNode

-- `_get_virtual_edge_node_children`
unfoldable pub edge_children : VirtualPatriciaNode → Result Children
edge_children n = do
  let children_height = n.height - 1
  let children_length = n.length - 1
  non_empty_child ←
      virtual_node n.bottom_node (bit_and n.path (2 ^ children_length - 1)) children_length
        children_height
  let edge_child_direction = shr n.path children_length
  let empty_child = empty_node children_height
  ok (
      if edge_child_direction == 0
      then (non_empty_child, empty_child)
      else (empty_child, non_empty_child))

-- the children that a fact read from the storage gives
unfoldable pub children_of : NodeFact → ℕ → Result Children
children_of (NodeFact.edge bottom path length) height = do
  edge_node ← virtual_node bottom path length height
  edge_children edge_node
children_of (NodeFact.binary left right) height =
    ok (from_hash left (height - 1), from_hash right (height - 1))
children_of NodeFact.empty height = err (assertion not_binary)

unfoldable pub inner_children : Storage → VirtualPatriciaNode → Result Children
inner_children storage n = do fact ← read_node_fact storage n.bottom_node; children_of fact n.height

unfoldable pub get_children : Storage → VirtualPatriciaNode → Result Children
get_children storage n = do
  assert (not (eqb_zero n.height)) leaf_children
  if is_empty n
      then ok (empty_node (n.height - 1), empty_node (n.height - 1))
      else (if eqb_zero n.length then inner_children storage n else edge_children n)
