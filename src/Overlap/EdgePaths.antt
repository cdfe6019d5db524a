-- ===== src/Overlap/EdgePaths.antt =====
-- index_overlap.rs: `has_edge_path`, a search over the edges of an index.
pub mod Chains
pub mod Correct
use sim_tooling.Support.{
  ℕ, zero, suc, ◌+◌, String, Bool, true, false, not, ◌&&◌, ◌||◌, Option, none, some, List, [], ◌∷◌,
  length, if◌then◌else◌, same_key, text_order,
}
use sim_tooling.Support.Sets

-- The fields of `sim_index_core::IndexEdge` that the search reads.
pub record IndexEdge : Type 0 where
  pub from : String
  pub to : String
  pub rel : String

module _ (edges : List IndexEdge) (to : String) (relations : List String) where
  -- `edge.from == node && relations.contains(&edge.rel.as_str())`
  abbrev pub leaves : String → IndexEdge → Bool
  leaves node edge = same_key edge.from node && Sets.contains relations edge.rel

  -- The loop over the edges that leave a node: none where one of them leads to the end.
  unfoldable pub push_targets : String → List IndexEdge → List String → Option (List String)
  push_targets node [] pending = some pending
  push_targets node (edge ∷ rest) pending =
      let skipped = push_targets node rest pending in
      let pushed = push_targets node rest (edge.to ∷ pending) in
      if leaves node edge then if same_key edge.to to then none else pushed else skipped

  -- `while let Some(node) = pending.pop()`, the next node at the head; none where the fuel is spent.
  unfoldable pub walk : ℕ → List String → List String → Option Bool
  walk zero pending visited = none
  walk (suc fuel) [] visited = some false
  walk (suc fuel) (node ∷ pending) visited =
      let skipped = walk fuel pending visited in
      elim (Sets.contains visited node) [
        | true ↦ skipped
        | false ↦ elim (push_targets node edges pending) [
          | none ↦ some true
          | some pushed ↦ walk fuel pushed (Sets.insert node visited)
        ]
      ]

  -- One unit of fuel for each edge, which is pushed at most once, and for the start, and one to see
  -- that nothing is left.
  unfoldable pub has_edge_path : String → Option Bool
  has_edge_path from = walk (length edges + 2) (from ∷ []) []
