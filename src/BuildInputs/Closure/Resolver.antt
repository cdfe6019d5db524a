-- ===== src/BuildInputs/Closure/Resolver.antt =====
-- `resolver_only_package_ids` as a whole: from Cargo's metadata to the ids that it returns.
use sim_tooling.Support.{
  String, ◌≡◌, ◌≢◌, ◌↔◌, true, false, List, [], ◌∷◌, ok, err, Result-cases, text_order, inl, inr,
  arith,
}
use sim_tooling.Support.Sets
use sim_tooling.Support.Maps
use sim_tooling.BuildInputs.Json.{JsonApi}
use sim_tooling.BuildInputs.Closure.{
  Edges, out_of_fuel, closure_difference, dependency_identities, read_node, read_nodes,
  resolver_edges, resolver_only_package_ids,
}
use sim_tooling.BuildInputs.Closure.Reachability.{Reach}
use sim_tooling.BuildInputs.Closure.Correct.{
  closure_difference-Reach, closure_difference_total, closure_difference-ne-out_of_fuel,
}

module _ (json : JsonApi) (metadata : json.Json) (selected : List String) (edges : Edges)
    (read : resolver_edges json metadata ≡ ok edges) where
  resolver_reduces :
      resolver_only_package_ids json metadata selected ≡ closure_difference edges selected
  unfolding resolver_only_package_ids
  resolver_reduces = rw read

  -- Where the metadata reads as the graph `edges` and `resolver_only_package_ids` returns `out`, an
  -- id is in `out` exactly when a chain of dependencies leads to it from a selected package and it
  -- was not selected itself.
  pub resolver_only_package_ids-Reach :
      (out : List String)
      → resolver_only_package_ids json metadata selected ≡ ok out
      → (a : String)
      → (Sets.contains out a ≡ true) ↔ (Reach edges selected a × (Sets.contains selected a ≡ false))
  resolver_only_package_ids-Reach out h =
      closure_difference-Reach edges selected out (rw resolver_reduces at h)

  -- Where the metadata reads as the graph `edges`, `resolver_only_package_ids` returns a result
  -- exactly when every package that is reachable from a selected one has a node.
  pub resolver_only_package_ids_total :
      ((a : String) → Reach edges selected a → Maps.contains_key edges a ≡ true)
      ↔ ((out : List String) × (resolver_only_package_ids json metadata selected ≡ ok out))
  resolver_only_package_ids_total = rw resolver_reduces (closure_difference_total edges selected)

module _ (json : JsonApi) where
  dependency_identities-ne-out_of_fuel :
      (values : List json.Json) → dependency_identities json values ≢ err out_of_fuel
  unfolding dependency_identities
  dependency_identities-ne-out_of_fuel [] h = cc
  dependency_identities-ne-out_of_fuel (v ∷ vs) h =
      ground (arith, dependency_identities-ne-out_of_fuel vs)

  read_node-ne-out_of_fuel :
      (edges : Edges) (node : json.Json) → read_node json edges node ≢ err out_of_fuel
  unfolding read_node
  read_node-ne-out_of_fuel edges node h = grind (arith, dependency_identities-ne-out_of_fuel)

  read_nodes-ne-out_of_fuel :
      (edges : Edges) (nodes : List json.Json) → read_nodes json edges nodes ≢ err out_of_fuel
  unfolding read_nodes
  read_nodes-ne-out_of_fuel edges [] h = cc
  read_nodes-ne-out_of_fuel edges (node ∷ rest) h =
      elim (Result-cases (read_node json edges node)) [
        | inl (edges', e) ↦ read_nodes-ne-out_of_fuel edges' rest (rw (e, read_nodes) at h)
        | inr (x, e) ↦ read_node-ne-out_of_fuel edges node (ground arith)
      ]

  resolver_edges-ne-out_of_fuel :
      (metadata : json.Json) → resolver_edges json metadata ≢ err out_of_fuel
  unfolding resolver_edges
  resolver_edges-ne-out_of_fuel metadata h = grind (arith, read_nodes-ne-out_of_fuel)

  -- Whatever the metadata and the selection, the work list of `resolver_only_package_ids` is
  -- emptied within the rounds that the model allows it.
  pub resolver_only_package_ids-ne-out_of_fuel :
      (metadata : json.Json) (selected : List String)
      → resolver_only_package_ids json metadata selected ≢ err out_of_fuel
  unfolding resolver_only_package_ids
  resolver_only_package_ids-ne-out_of_fuel metadata selected h =
      elim (Result-cases (resolver_edges json metadata)) [
        | inl (edges, e) ↦ closure_difference-ne-out_of_fuel edges selected (rw e at h)
        | inr (x, e) ↦ resolver_edges-ne-out_of_fuel metadata (ground arith)
      ]
