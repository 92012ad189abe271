-- ===== src/Patricia/UpdateTree.antt =====
-- The tree that a list of modified leaves induces (`build_update_tree` of
-- starkware/starkware_utils/commitment_tree/update_tree.py).
pub mod Layers
pub mod Dict
pub mod Leaves
use pip_cairo_lang.Prelude.{
  ℕ, zero, suc, ◌+◌, ◌*◌, ◌/◌, Bool, true, false, ◌||◌, ◌==◌, List, [], ◌∷◌, map, length,
  if◌then◌else◌,
}
use pip_cairo_lang.Result.{Result, ok, err, ◌>>◌, assert, key_error, top_layer}
use pip_cairo_lang.Patricia.Nodes.{LeafFact}

-- None, a leaf, or a pair of trees
pub data UpdateTree : Type 0 where
  absent : UpdateTree
  leaf : LeafFact → UpdateTree
  pair : UpdateTree → UpdateTree → UpdateTree

abbrev pub Modifications : Type 0
Modifications = List (ℕ × LeafFact)

-- a dictionary from the index in a layer to a tree
abbrev pub Layer : Type 0
Layer = List (ℕ × UpdateTree)

-- `layer.get(index)`
unfoldable pub get_tree : ℕ → Layer → UpdateTree
get_tree k [] = absent
get_tree k ((j, t) ∷ d) = if k == j then t else get_tree k d

-- `layer[index] = tree`
unfoldable pub put_tree : ℕ → UpdateTree → Layer → Layer
put_tree k t [] = (k, t) ∷ []
put_tree k t ((j, u) ∷ d) = if k == j then (j, t) ∷ d else (j, u) ∷ put_tree k t d

-- `dict(modifications)`, into a dictionary
unfoldable pub dict_of : Layer → Modifications → Layer
dict_of d [] = d
dict_of d ((k, fact) ∷ ms) = dict_of (put_tree k (leaf fact) d) ms

unfoldable pub member : ℕ → List ℕ → Bool
member k [] = false
member k (j ∷ js) = (k == j) || member k js

abbrev pub add_to_set : ℕ → List ℕ → List ℕ
add_to_set k js = if member k js then js else k ∷ js

-- `set(index // 2 for index in layer.keys())`
unfoldable pub parents : Layer → List ℕ
parents [] = []
parents ((j, t) ∷ d) = add_to_set (j / 2) (parents d)

abbrev pub with_children : Layer → ℕ → ℕ × UpdateTree
with_children d index = (index, pair (get_tree (index * 2) d) (get_tree (index * 2 + 1) d))

unfoldable pub next_layer : Layer → Layer
next_layer d = map (with_children d) (parents d)

-- the layer after `height` rounds of the loop
unfoldable pub layers : ℕ → Layer → Layer
layers zero d = d
layers (suc n) d = layers n (next_layer d)

-- `layer[0]`
unfoldable pub root_of : Layer → Result UpdateTree
root_of [] = err key_error
root_of ((j, t) ∷ d) = if 0 == j then ok t else root_of d

unfoldable pub build_update_tree : ℕ → Modifications → Result UpdateTree
build_update_tree height [] = ok absent
build_update_tree height (m ∷ ms) =
    let layer = layers height (dict_of [] (m ∷ ms)) in
    assert (length layer == 1) top_layer >> root_of layer
