-- ===== src/Patricia/Nodes.antt =====
-- The nodes of a Patricia tree as they are stored
-- (starkware/starkware_utils/commitment_tree/patricia_tree/nodes.py). A hash is the number of its 32
-- bytes, big-endian; the hash function is an argument.
use pip_cairo_lang.Prelude.{
  ℕ, ◌+◌, ◌^◌, Bool, not, ltb, ◌==◌, ◌&&◌, Option, none, some, List, if◌then◌else◌,
}
use pip_cairo_lang.Result.{
  Result, ok, err, ◌>>=◌, ◌>>◌, assert, assertion, overflow_error, path_value, binary_child,
  edge_length, missing_fact,
}

-- a leaf, an abstract class: its hash, and whether it has no value
pub record LeafFact : Type 0 where
  pub leaf_hash : ℕ
  pub is_empty : Bool

-- `EmptyNodeFact`, `BinaryNodeFact` with its left and right node, `EdgeNodeFact` with its bottom
-- node, path and length
pub data NodeFact : Type 0 where
  empty : NodeFact
  binary : ℕ → ℕ → NodeFact
  edge : ℕ → ℕ → ℕ → NodeFact

abbrev pub HashFunction : Type 0
HashFunction = ℕ → ℕ → ℕ

abbrev pub empty_node_hash : ℕ
empty_node_hash = 0

unfoldable pub verify_path_value : ℕ → ℕ → Result (Unit {0})
verify_path_value path length = assert (ltb path (2 ^ length)) path_value

-- the class `BinaryNodeFact` called
unfoldable pub binary_node : ℕ → ℕ → Result NodeFact
binary_node left right = do
  assert (not (left == empty_node_hash) && not (right == empty_node_hash)) binary_child
  ok (NodeFact.binary left right)

-- the class `EdgeNodeFact` called
unfoldable pub edge_node : ℕ → ℕ → ℕ → Result NodeFact
edge_node bottom path length = do
  assert (ltb 0 length) edge_length
  verify_path_value path length
  ok (NodeFact.edge bottom path length)

-- `to_bytes` at its default width, 32 bytes
unfoldable pub to_bytes : ℕ → Result ℕ
to_bytes value = if ltb value (2 ^ 256) then ok value else err overflow_error

-- `_hash` of each class
unfoldable pub hash_of : HashFunction → NodeFact → Result ℕ
hash_of hash NodeFact.empty = ok empty_node_hash
hash_of hash (NodeFact.binary left right) = ok (hash left right)
hash_of hash (NodeFact.edge bottom path length) = do
  path' ← to_bytes path
  to_bytes (hash bottom path' + length)

-- The facts that can be read, by their hash.
abbrev pub Storage : Type 0
Storage = ℕ → Option NodeFact

abbrev pub found : Option NodeFact → Result NodeFact
found none = err (assertion missing_fact)
found (some fact) = ok fact

unfoldable pub read_node_fact : Storage → ℕ → Result NodeFact
read_node_fact storage fact_hash = found (storage fact_hash)

-- `NodeFactDict`: the new facts, a later one of the same hash first
pub data AnyFact : Type 0 where
  leaf : LeafFact → AnyFact
  inner : NodeFact → AnyFact

abbrev pub NodeFactDict : Type 0
NodeFactDict = List (ℕ × AnyFact)
