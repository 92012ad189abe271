-- ===== src/Patricia/Root.antt =====
-- The root of an updated tree, computed and committed
-- (starkware/starkware_utils/commitment_tree/calculation.py and update_tree.py).
use pip_cairo_lang.Prelude.{ℕ}
use pip_cairo_lang.Exec.{Exec, asks, ◌>>=◌}
use pip_cairo_lang.Patricia.Nodes.{HashFunction, NodeFactDict}
use pip_cairo_lang.Patricia.VirtualNode.{VirtualPatriciaNode, virtual_node, commit}
use pip_cairo_lang.Patricia.Calculation.{full_calculate}
use pip_cairo_lang.Patricia.CalculationNode.{VirtualCalculationNode}

-- `full_calculate` of a node: the dependencies of its bottom calculation, and then the bottom.
unfoldable pub calculate_node :
    HashFunction → VirtualCalculationNode → Exec NodeFactDict VirtualPatriciaNode
calculate_node hash c = do
  bottom_hash ← full_calculate hash c.bottom_calculation
  asks (λ d. virtual_node bottom_hash c.path c.length c.height)

-- The new root as `update_tree` has it, and its `commit`; the facts are those that are written.
unfoldable pub commit_root : HashFunction → VirtualCalculationNode → Exec NodeFactDict ℕ
commit_root hash c = do root_node ← calculate_node hash c; commit hash root_node
