-- ===== src/Tests/Paths.antt =====
-- Searches over edges.
use sim_tooling.Support.{String, ◌≡◌, ◌↔◌, refl, Bool, true, false, some, List, [], ◌∷◌, text_order}
use sim_tooling.Support.Sets
use sim_tooling.Overlap.EdgePaths.{IndexEdge, push_targets, walk, has_edge_path}
use sim_tooling.Overlap.EdgePaths.Chains.{Chain}
use sim_tooling.Overlap.EdgePaths.Correct.{has_edge_path_iff}

abbrev edge : String → String → String → IndexEdge
edge from rel to = record { from = from; to = to; rel = rel }

-- A cycle from which one edge leads away.
abbrev edges : List IndexEdge
edges =
    edge "a" "reuses" "b"
    ∷ edge "b" "reuses" "a"
    ∷ edge "b" "depends-on" "c"
    ∷ edge "c" "protocol-role" "d"
    ∷ []

abbrev dependencies : List String
dependencies = "depends-on" ∷ "reuses" ∷ []

found :
    (has_edge_path edges "c" dependencies "a" ≡ some true)
    × (has_edge_path edges "d" dependencies "a" ≡ some false)
    × (has_edge_path edges "a" dependencies "a" ≡ some true)
unfolding has_edge_path walk push_targets Sets.contains Sets.insert
found = (refl, refl, refl)

has_edge_path_iff_example :
    ((b : Bool) × (has_edge_path edges "c" dependencies "a" ≡ some b))
    × ((has_edge_path edges "c" dependencies "a" ≡ some true)
        ↔ Chain edges "c" dependencies "a" "c")
has_edge_path_iff_example = has_edge_path_iff edges "c" dependencies "a"
