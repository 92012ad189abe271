-- ===== src/Patricia/Canonic.antt =====
-- What the nodes of the production code
-- (starkware/starkware_utils/commitment_tree/patricia_tree/virtual_calculation_node.py) stand for among
-- those of starkware/cairo/common/patricia_utils.py, and when they are well formed.
use pip_cairo_lang.Prelude.{
  eqb_zero, ℕ, zero, suc, ◌+◌, ◌^◌, ◌<◌, ◌≡◌, ◌≢◌, false, ◌==◌, some, if◌then◌else◌,
}
use pip_cairo_lang.Patricia.Nodes.{NodeFact, HashFunction, Storage}
use pip_cairo_lang.Patricia.Calculation.{HashCalculation, constant, leaf_fact, binary, edge}
use pip_cairo_lang.Patricia.CalculationNode.{VirtualCalculationNode, has_no_value}
use pip_cairo_lang.Patricia.Utils.{Triplet, canonic}

-- the hash that is to be computed
unfoldable pub value : HashFunction → HashCalculation → ℕ
value hash (constant v) = v
value hash (leaf_fact fact) = fact.leaf_hash
value hash (binary l r) = hash (value hash l) (value hash r)
value hash (edge b path length) = hash (value hash b) path + length

module _ (hash : HashFunction) (storage : Storage) where
  -- A node without an edge of its own; above the leaves its hash may be that of an edge.
  abbrev pub bottom_triplet : ℕ → HashCalculation → Triplet
  bottom_triplet zero b = (0, 0, value hash b)
  bottom_triplet (suc h) (constant v) = canonic storage v
  bottom_triplet (suc h) (edge b path length) = (length, path, value hash b)
  bottom_triplet (suc h) b = (0, 0, value hash b)

  -- The node as the reference has it.
  abbrev pub triplet : VirtualCalculationNode → Triplet
  triplet c =
      if eqb_zero c.length
      then bottom_triplet c.height c.bottom_calculation
      else (c.length, c.path, value hash c.bottom_calculation)

  -- An edge in the storage: it is stored under its hash, it is not the empty node, it has a path of
  -- its length, and no edge or empty node is under it.
  pub record IsEdge (k b p l : ℕ) : Type 0 where
    pub key : k ≡ hash b p + l
    pub nonzero : k ≢ 0
    pub positive : 0 < l
    pub legal : p < 2 ^ l
    pub bottom : b ≢ 0
    pub single : canonic storage b ≡ (0, 0, b)

  pub record IsStorage : Type 0 where
    pub edges : (k b p l : ℕ) → storage k ≡ some (NodeFact.edge b p l) → IsEdge k b p l

  -- It is not empty and not an edge.
  abbrev pub IsBottom : HashCalculation → Type 0
  IsBottom (constant v) = (v ≢ 0) × (canonic storage v ≡ (0, 0, v))
  IsBottom (leaf_fact fact) = (fact.is_empty ≡ false) × (fact.leaf_hash ≢ 0)
  IsBottom (binary l r) = Unit
  IsBottom (edge b path length) = ⊥

  -- A leaf is empty when its hash is that of the empty node; an edge is legal.
  abbrev pub IsSolid : HashCalculation → Type 0
  IsSolid (leaf_fact fact) = fact.is_empty ≡ (fact.leaf_hash == 0)
  IsSolid (edge b path length) = (0 < length) × (path < 2 ^ length) × IsBottom b
  IsSolid _ = Unit

  -- The fact of a hash can be read.
  abbrev pub IsKnown : HashCalculation → Type 0
  IsKnown (constant v) = v ≢ 0 → (fact : NodeFact) × (storage v ≡ some fact)
  IsKnown _ = Unit

  -- A node is well formed: an edge has a path of its length and a bottom, a leaf is no edge, and
  -- above the leaves a hash without an edge can be read.
  pub record IsProper (c : VirtualCalculationNode) : Type 0 where
    pub legal : c.path < 2 ^ c.length
    pub solid : IsSolid c.bottom_calculation
    pub edged : c.length ≢ 0 → IsBottom c.bottom_calculation
    pub leaf :
        c.height ≡ 0 → has_no_value c.bottom_calculation ≡ false → IsBottom c.bottom_calculation
    pub known : c.height ≢ 0 → c.length ≡ 0 → IsKnown c.bottom_calculation
