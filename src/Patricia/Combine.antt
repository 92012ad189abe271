-- ===== src/Patricia/Combine.antt =====
-- Building the parent of two nodes (`combine` of
-- starkware/starkware_utils/commitment_tree/patricia_tree/virtual_calculation_node.py) against the
-- reference of starkware/cairo/common/patricia_utils.py.
use native.Mathlib.Nat.{pow-suc}
use pip_cairo_lang.Prelude.{
  ℕ, suc, ◌+◌, ◌^◌, ◌<◌, ◌≡◌, refl, sym, ap, ◌∙◌, arith, Bool, true, false, Bool-cases, inl, inr,
  ==_iff,
}
use pip_cairo_lang.Result.{ok}
use pip_cairo_lang.Patricia.Nodes.{HashFunction, Storage}
use pip_cairo_lang.Patricia.Calculation.{HashCalculation}
use pip_cairo_lang.Patricia.CalculationNode.{
  VirtualCalculationNode, empty_node, has_no_value, commit, combine_to_binary_node,
  combine_to_virtual_edge_node, combine,
}
use pip_cairo_lang.Patricia.Utils.{Triplet, is_empty_triplet, hash_node, next_by, next_node}
use pip_cairo_lang.Patricia.Canonic.{value, triplet, IsStorage, IsBottom, IsProper}
use pip_cairo_lang.Patricia.Decommit.{node, calculation_node-legal, decommit-Opens}
use pip_cairo_lang.Patricia.Triplets.{
  IsNonzero, bottom-IsSolid, full-triplet, empty-triplet, canonic_zero, commit-hash_node,
}

path_bound : (p l : ℕ) → p < 2 ^ l → p + 2 ^ l < 2 ^ suc l
path_bound p l h = omega (arith, pow-suc 2 l)

path_raised : (p l : ℕ) → p < 2 ^ l → p < 2 ^ suc l
path_raised p l h = omega (arith, pow-suc 2 l)

module _ (hash : HashFunction) (storage : Storage) where
  -- A node with an edge of at least one step.
  edge-IsProper :
      (b : HashCalculation) (p l h : ℕ)
      → p < 2 ^ suc l
      → IsBottom hash storage b
      → IsProper hash storage (node b p (suc l) (suc h))
  edge-IsProper b p l h legal bottom = record {
    legal = legal;
    solid = bottom-IsSolid hash storage b bottom;
    edged = λ z. bottom;
    leaf = λ z. absurd (omega arith);
    known = λ z y. absurd (omega arith);
  }

  -- The parent, as a node of the reference.
  record IsParent (left right c : VirtualCalculationNode) : Type 0 where
    pub proper : IsProper hash storage c
    pub height : c.height ≡ suc right.height
    pub same :
        triplet hash storage c
        ≡ next_node hash (triplet hash storage left) (triplet hash storage right)

  -- The parent in the reference of nodes that are known to be empty or not.
  next_node-by :
      (left right left' right' : Triplet) (a b : Bool)
      → left ≡ left'
      → right ≡ right'
      → is_empty_triplet left ≡ a
      → is_empty_triplet right ≡ b
      → next_by a b hash left' right' ≡ next_node hash left right
  next_node-by left right left' right' a b el er ea eb = rw (ea, eb, el, er) refl

  module _ (nonzero : IsNonzero hash) (good : IsStorage hash storage) where
    -- A child and an empty sibling on the left of it.
    right_child :
        (left right : VirtualCalculationNode)
        → IsProper hash storage left
        → IsProper hash storage right
        → has_no_value left.bottom_calculation ≡ true
        → has_no_value right.bottom_calculation ≡ false
        → (c : VirtualCalculationNode) × (combine_to_virtual_edge_node storage left right ≡ ok c)
          × IsParent left right c
    unfolding combine_to_virtual_edge_node
    right_child left right pl pr la rb =
        let (x, opening, o) = decommit-Opens hash storage right good pr rb in
        let legal = path_bound x.path x.length o.legal in
        (
          node x.bottom_calculation (x.path + 2 ^ x.length) (suc x.length) (suc x.height),
          rw (la, rb, opening)
              (calculation_node-legal x.bottom_calculation (x.path + 2 ^ x.length) (suc x.length)
                (suc x.height) legal),
          record {
            proper =
                edge-IsProper x.bottom_calculation (x.path + 2 ^ x.length) x.length x.height legal
                  o.bottom;
            height = ap suc o.height;
            same =
                next_node-by (triplet hash storage left) (triplet hash storage right) _ _ true false
                  (empty-triplet hash storage left good pl la) o.same
                  (ap is_empty_triplet (empty-triplet hash storage left good pl la))
                  (full-triplet hash storage right nonzero good pr rb);
          },
        )

    -- A child and an empty sibling on the right of it.
    left_child :
        (left right : VirtualCalculationNode)
        → IsProper hash storage left
        → IsProper hash storage right
        → left.height ≡ right.height
        → has_no_value left.bottom_calculation ≡ false
        → has_no_value right.bottom_calculation ≡ true
        → (c : VirtualCalculationNode) × (combine_to_virtual_edge_node storage left right ≡ ok c)
          × IsParent left right c
    unfolding combine_to_virtual_edge_node
    left_child left right pl pr level la rb =
        let (x, opening, o) = decommit-Opens hash storage left good pl la in
        let legal = path_raised x.path x.length o.legal in
        (
          node x.bottom_calculation x.path (suc x.length) (suc x.height),
          rw (la, rb, opening)
              (calculation_node-legal x.bottom_calculation x.path (suc x.length) (suc x.height)
                legal),
          record {
            proper = edge-IsProper x.bottom_calculation x.path x.length x.height legal o.bottom;
            height = ap suc (o.height ∙ level);
            same =
                next_node-by (triplet hash storage left) (triplet hash storage right) _ _ false true
                  o.same (empty-triplet hash storage right good pr rb)
                  (full-triplet hash storage left nonzero good pl la)
                  (ap is_empty_triplet (empty-triplet hash storage right good pr rb));
          },
        )

    both_empty :
        (left right : VirtualCalculationNode)
        → IsProper hash storage left
        → IsProper hash storage right
        → has_no_value left.bottom_calculation ≡ true
        → has_no_value right.bottom_calculation ≡ true
        → IsParent left right (empty_node (suc right.height))
    both_empty left right pl pr la rb =
        let el = empty-triplet hash storage left good pl la in
        let er = empty-triplet hash storage right good pr rb in
        record {
          proper = record {
            legal = omega arith;
            solid = tt;
            edged = λ z. absurd (z refl);
            leaf = λ z. absurd (omega arith);
            known = λ z y x. absurd (x refl);
          };
          height = refl;
          same =
              canonic_zero hash storage good
              ∙ next_node-by (triplet hash storage left) (triplet hash storage right) _ _ true true
                  el er (ap is_empty_triplet el) (ap is_empty_triplet er);
        }

    both_full :
        (left right : VirtualCalculationNode)
        → IsProper hash storage left
        → IsProper hash storage right
        → has_no_value left.bottom_calculation ≡ false
        → has_no_value right.bottom_calculation ≡ false
        → IsParent left right (combine_to_binary_node left right)
    unfolding value
    both_full left right pl pr la rb = record {
      proper = record {
        legal = omega arith;
        solid = tt;
        edged = λ z. absurd (z refl);
        leaf = λ z. absurd (omega arith);
        known = λ z y. tt;
      };
      height = refl;
      same =
          ap (λ (t : ℕ). (0, 0, hash t (value hash (commit right))))
            (commit-hash_node hash storage left good pl)
          ∙ (ap (λ (t : ℕ). (0, 0, hash (hash_node hash (triplet hash storage left)) t))
                (commit-hash_node hash storage right good pr)
              ∙ next_node-by (triplet hash storage left) (triplet hash storage right) _ _ false
                  false refl refl (full-triplet hash storage left nonzero good pl la)
                  (full-triplet hash storage right nonzero good pr rb));
    }

    -- Two well-formed nodes of one height are combined to a well-formed node, one higher, that is the
    -- parent which the reference gives for the nodes that the two stand for: an empty node, an edge
    -- that is longer by one step, or the hash of the two hashes. No two numbers may hash to that of
    -- the empty node, and the edges in the storage are well formed.
    pub combine-next_node :
        (left right : VirtualCalculationNode)
        → IsProper hash storage left
        → IsProper hash storage right
        → left.height ≡ right.height
        → (c : VirtualCalculationNode) × (combine storage left right ≡ ok c)
          × IsProper hash storage c
          × (c.height ≡ suc right.height)
          × (triplet hash storage c
              ≡ next_node hash (triplet hash storage left) (triplet hash storage right))
    unfolding combine
    combine-next_node left right pl pr level =
        let test = (==_iff right.height left.height).1 (sym level) in
        elim (Bool-cases (has_no_value left.bottom_calculation)) [
          | inl la ↦ elim (Bool-cases (has_no_value right.bottom_calculation)) [
            | inl rb ↦
                let p = both_empty left right pl pr la rb in
                (empty_node (suc right.height), rw (test, la, rb) refl, p.proper, p.height, p.same)
            | inr rb ↦
                let (c, e, p) = right_child left right pl pr la rb in
                (c, rw (test, la, rb) e, p.proper, p.height, p.same)
          ]
          | inr la ↦ elim (Bool-cases (has_no_value right.bottom_calculation)) [
            | inl rb ↦
                let (c, e, p) = left_child left right pl pr level la rb in
                (c, rw (test, la, rb) e, p.proper, p.height, p.same)
            | inr rb ↦
                let p = both_full left right pl pr la rb in
                (
                  combine_to_binary_node left right,
                  rw (test, la, rb) refl,
                  p.proper,
                  p.height,
                  p.same,
                )
          ]
        ]
