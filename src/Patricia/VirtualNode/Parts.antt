-- ===== src/Patricia/VirtualNode/Parts.antt =====
-- Nodes of given parts
-- (starkware/starkware_utils/commitment_tree/patricia_tree/virtual_patricia_node.py).
use pip_cairo_lang.Prelude.{ℕ, ◌^◌, ◌<◌, ◌≡◌, refl, lt→ltb}
use pip_cairo_lang.Result.{ok}
use pip_cairo_lang.Patricia.Nodes.{verify_path_value}
use pip_cairo_lang.Patricia.VirtualNode.{VirtualPatriciaNode, virtual_node}

-- a node of these parts
abbrev pub vnode : ℕ → ℕ → ℕ → ℕ → VirtualPatriciaNode
vnode b p l h = record { bottom_node = b; path = p; length = l; height = h }

pub virtual_node-legal : (b p l h : ℕ) → p < 2 ^ l → virtual_node b p l h ≡ ok (vnode b p l h)
unfolding virtual_node verify_path_value
virtual_node-legal b p l h legal = rw (lt→ltb p (2 ^ l) legal) refl
