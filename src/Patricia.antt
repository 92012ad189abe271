-- ===== src/Patricia.antt =====
-- The Patricia tree that commits to the state (starkware/starkware_utils/commitment_tree), and the
-- reference of its nodes in starkware/cairo/common/patricia_utils.py.
pub mod Nodes
pub mod VirtualNode
pub mod Calculation
pub mod CalculationNode
pub mod Root
pub mod Serial
pub mod UpdateTree
pub mod Utils
pub mod Canonic
pub mod Decommit
pub mod Triplets
pub mod Combine
pub mod Commitment
pub mod Children
