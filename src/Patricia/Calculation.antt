-- ===== src/Patricia/Calculation.antt =====
-- Hashes that are still to be computed (starkware/starkware_utils/commitment_tree/calculation.py, and
-- the two calculations of patricia_tree/virtual_calculation_node.py).
use pip_cairo_lang.Prelude.{ℕ, List, [], ◌∷◌}
use pip_cairo_lang.Result.{Result, err, assertion, dependencies, value_error}
use pip_cairo_lang.Exec.{Exec, pure, asks, modify, ◌>>=◌, ◌>>◌}
use pip_cairo_lang.Patricia.Nodes.{
  LeafFact, NodeFact, HashFunction, binary_node, edge_node, hash_of, AnyFact, NodeFactDict,
}

pub data HashCalculation : Type 0 where
  constant : ℕ → HashCalculation
  leaf_fact : LeafFact → HashCalculation
  binary : HashCalculation → HashCalculation → HashCalculation
  edge : HashCalculation → ℕ → ℕ → HashCalculation

-- The fact is made, hashed and noted.
unfoldable pub note : HashFunction → Result NodeFact → Exec NodeFactDict ℕ
note hash made = do
  fact ← asks (λ d. made)
  fact_hash ← asks (λ d. hash_of hash fact)
  modify (λ d. (fact_hash, AnyFact.inner fact) ∷ d)
  pure fact_hash

unfoldable pub calculate : HashFunction → HashCalculation → List ℕ → Exec NodeFactDict ℕ
calculate hash (constant value) [] = pure value
calculate hash (leaf_fact fact) [] = do
  modify (λ d. (fact.leaf_hash, AnyFact.leaf fact) ∷ d)
  pure fact.leaf_hash
calculate hash (binary l r) (left_hash ∷ right_hash ∷ []) =
    note hash (binary_node left_hash right_hash)
calculate hash (edge b path length) (bottom_hash ∷ []) =
    note hash (edge_node bottom_hash path length)
calculate hash (binary l r) _ = asks (λ d. err value_error)
calculate hash (edge b path length) _ = asks (λ d. err value_error)
calculate hash _ _ = asks (λ d. err (assertion dependencies))

-- The dependencies are computed first, in their order.
unfoldable pub full_calculate : HashFunction → HashCalculation → Exec NodeFactDict ℕ
full_calculate hash (constant value) = calculate hash (constant value) []
full_calculate hash (leaf_fact fact) = calculate hash (leaf_fact fact) []
full_calculate hash (binary l r) = do
  left_hash ← full_calculate hash l
  right_hash ← full_calculate hash r
  calculate hash (binary l r) (left_hash ∷ right_hash ∷ [])
full_calculate hash (edge b path length) = do
  bottom_hash ← full_calculate hash b
  calculate hash (edge b path length) (bottom_hash ∷ [])
