-- ===== src/Patricia/Serial.antt =====
-- The bytes of the nodes that are stored: `serialize` and `deserialize` of
-- starkware/starkware_utils/commitment_tree/patricia_tree/nodes.py.
pub mod Blocks
pub mod RoundTrip
use pip_cairo_lang.Prelude.{
  ℕ, zero, suc, ◌==◌, List, [], ◌∷◌, ◌++◌, length, take, drop, if◌then◌else◌,
}
use pip_cairo_lang.Prelude.Int.{pos}
use pip_cairo_lang.Result.{Result, ok, err, ◌>>=◌, not_implemented, value_error}
use pip_cairo_lang.Relocatable.Bytes.{ByteOrder, int_to_bytes, int_from_bytes}
use pip_cairo_lang.Patricia.Nodes.{NodeFact, binary_node, edge_node}

abbrev pub hash_bytes : ℕ
hash_bytes = 32

-- A hash has its bytes already, so a number that is not one of 32 bytes is no hash.
abbrev pub big_bytes : ℕ → ℕ → Result (List ℕ)
big_bytes value length = int_to_bytes (pos value) length ByteOrder.big

abbrev pub big_value : List ℕ → ℕ
big_value bytes = int_from_bytes bytes ByteOrder.big

unfoldable pub serialize : NodeFact → Result (List ℕ)
serialize NodeFact.empty = ok []
serialize (NodeFact.binary left right) = do
  left_node ← big_bytes left hash_bytes
  right_node ← big_bytes right hash_bytes
  ok (left_node ++ right_node)
serialize (NodeFact.edge bottom path length) = do
  bottom_node ← big_bytes bottom hash_bytes
  edge_path ← big_bytes path hash_bytes
  edge_length ← big_bytes length 1
  ok (bottom_node ++ (edge_path ++ edge_length))

-- `blockify`, with the number of bytes as fuel: each block takes one at least
unfoldable pub blockify : ℕ → List ℕ → ℕ → List (List ℕ)
blockify zero bytes chunk_size = []
blockify (suc n) [] chunk_size = []
blockify (suc n) (x ∷ xs) chunk_size =
    take chunk_size (x ∷ xs) ∷ blockify n (drop chunk_size (x ∷ xs)) chunk_size

-- `bottom_node, edge_path, edge_length = ...`
abbrev pub edge_of_blocks : List (List ℕ) → Result NodeFact
edge_of_blocks (bottom ∷ path ∷ length ∷ []) =
    edge_node (big_value bottom) (big_value path) (big_value length)
edge_of_blocks _ = err value_error

-- `get_node_type` by the number of bytes, and `deserialize` of the class
unfoldable pub deserialize : List ℕ → Result NodeFact
deserialize bytes =
    if length bytes == 64
    then binary_node (big_value (take hash_bytes bytes)) (big_value (drop hash_bytes bytes))
    else (if length bytes == 65
        then edge_of_blocks (blockify (length bytes) bytes hash_bytes)
        else (if length bytes == 0 then ok NodeFact.empty else err not_implemented))
