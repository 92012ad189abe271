-- ===== src/Patricia/Utils.antt =====
-- The nodes of a Patricia tree as the hints of Cairo programs have them
-- (starkware/cairo/common/patricia_utils.py): the length and the path of an edge, and the hash under it.
use pip_cairo_lang.Prelude.{
  eqb_zero, ℕ, suc, ◌+◌, ◌-◌, ◌^◌, Bool, true, false, ◌==◌, ◌&&◌, Option, none, some, if◌then◌else◌,
}
use pip_cairo_lang.Prelude.Bits.{shr}
use pip_cairo_lang.Result.{Result, ok, err, ◌>>=◌, key_error, value_error}
use pip_cairo_lang.Patricia.Nodes.{NodeFact, HashFunction, Storage}

abbrev pub Triplet : Type 0
Triplet = ℕ × ℕ × ℕ

abbrev pub empty_triplet : Triplet
empty_triplet = (0, 0, 0)

-- `node == EMPTY`
abbrev pub is_empty_triplet : Triplet → Bool
is_empty_triplet (length, path, bottom) =
    (eqb_zero length) && ((eqb_zero path) && (eqb_zero bottom))

abbrev pub hash_node : HashFunction → Triplet → ℕ
hash_node hash (length, path, bottom) =
    if eqb_zero length then bottom else hash bottom path + length

-- The parent of two nodes, in `compute_patricia_from_leaves_for_test`, by whether the left and the
-- right one are EMPTY.
abbrev pub next_by : Bool → Bool → HashFunction → Triplet → Triplet → Triplet
next_by true true hash left right = empty_triplet
next_by true false hash left (r_len, r_path, r_bottom) = (suc r_len, r_path + 2 ^ r_len, r_bottom)
next_by false true hash (l_len, l_path, l_bottom) right = (suc l_len, l_path, l_bottom)
next_by false false hash left right = (0, 0, hash (hash_node hash left) (hash_node hash right))

abbrev pub next_node : HashFunction → Triplet → Triplet → Triplet
next_node hash left right = next_by (is_empty_triplet left) (is_empty_triplet right) hash left right

-- the tuple of three that a hash stands for, if it does
abbrev pub back_of : Option NodeFact → ℕ → Triplet
back_of (some (NodeFact.edge bottom path length)) node_hash = (length, path, bottom)
back_of _ node_hash = (0, 0, node_hash)

abbrev pub canonic : Storage → ℕ → Triplet
canonic preimage node_hash = back_of (preimage node_hash) node_hash

-- `left, right = preimage[node_hash]`
abbrev pub pair_of : Option NodeFact → Result (ℕ × ℕ)
pair_of none = err key_error
pair_of (some (NodeFact.binary left right)) = ok (left, right)
pair_of (some _) = err value_error

-- The children of a node without an edge
abbrev pub inner_children : Storage → ℕ → Result (Triplet × Triplet)
inner_children preimage node_hash = do
  pair ← if node_hash == 0 then ok (0, 0) else pair_of (preimage node_hash)
  ok (canonic preimage pair.0, canonic preimage pair.1)

unfoldable pub get_children : Storage → Triplet → Result (Triplet × Triplet)
get_children preimage (length, word, node_hash) =
    if eqb_zero length
    then inner_children preimage node_hash
    else (if shr word (length - 1) == 0
        then ok ((length - 1, word, node_hash), empty_triplet)
        else ok (empty_triplet, (length - 1, word - 2 ^ (length - 1), node_hash)))
