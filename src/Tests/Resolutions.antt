-- ===== src/Tests/Resolutions.antt =====
-- Runs of the resolver's closure.
use sim_tooling.Support.{
  String, ◌≡◌, ◌≢◌, ◌↔◌, refl, true, false, List, [], ◌∷◌, ok, err, text_order,
}
use sim_tooling.Support.Sets
use sim_tooling.Support.Maps
use sim_tooling.BuildInputs.Json.{string}
use sim_tooling.BuildInputs.Closure.{
  Edges, out_of_fuel, visit, visit_all, expand, search, closure_difference, dependency_identities,
  read_node, read_nodes, resolver_edges, resolver_only_package_ids,
}
use sim_tooling.BuildInputs.Closure.Reachability.{Reach}
use sim_tooling.BuildInputs.Closure.Resolver.{
  resolver_only_package_ids-Reach, resolver_only_package_ids_total,
  resolver_only_package_ids-ne-out_of_fuel,
}
use sim_tooling.Tests.Documents.{
  Document, text, array, object, Items, stop, item, close, member, documents,
}

abbrev texts : List String → Items
texts [] = stop
texts (s ∷ ss) = item (text s) (texts ss)

abbrev node : String → List String → Document
node id dependencies =
    object (member "id" (text id) (member "dependencies" (array (texts dependencies)) close))

-- `app` depends on `core` and `log`, `log` on `core`.
abbrev metadata : Document
metadata = object (
    member "resolve"
      (object (
        member "nodes"
          (array (
            item (node "app" ("core" ∷ "log" ∷ [])) (
              item (node "core" [])
                (item (node "log" ("core" ∷ [])) (item (node "other" ("app" ∷ [])) stop)))))
          close))
      close)

abbrev edges : Edges
edges =
    ("app", "core" ∷ "log" ∷ []) ∷ ("core", []) ∷ ("log", "core" ∷ []) ∷ ("other", "app" ∷ []) ∷ []

abbrev started : List String
started = "app" ∷ []

abbrev returned : List String
returned = "core" ∷ "log" ∷ []

edges_read : resolver_edges documents metadata ≡ ok edges
unfolding resolver_edges read_nodes read_node dependency_identities string Sets.insert Maps.insert
    Maps.contains_key Maps.get
edges_read = refl

resolver_returned :
    resolver_only_package_ids documents metadata ("app" ∷ []) ≡ ok ("core" ∷ "log" ∷ [])
unfolding resolver_only_package_ids closure_difference search expand visit_all visit resolver_edges
    read_nodes read_node dependency_identities string Sets.insert Maps.insert Maps.contains_key
    Maps.get Sets.contains Sets.difference
resolver_returned = refl

resolver_only_package_ids-Reach_example :
    (Sets.contains returned "log" ≡ true)
    ↔ (Reach edges ("app" ∷ []) "log" × (Sets.contains started "log" ≡ false))
resolver_only_package_ids-Reach_example =
    resolver_only_package_ids-Reach documents metadata ("app" ∷ []) edges edges_read
      ("core" ∷ "log" ∷ []) resolver_returned "log"

resolver_only_package_ids_total_example :
    ((a : String) → Reach edges ("app" ∷ []) a → Maps.contains_key edges a ≡ true)
    ↔ ((out : List String) × (resolver_only_package_ids documents metadata ("app" ∷ []) ≡ ok out))
resolver_only_package_ids_total_example =
    resolver_only_package_ids_total documents metadata ("app" ∷ []) edges edges_read

resolver_only_package_ids-ne-out_of_fuel_example :
    resolver_only_package_ids documents metadata ("app" ∷ []) ≢ err out_of_fuel
resolver_only_package_ids-ne-out_of_fuel_example =
    resolver_only_package_ids-ne-out_of_fuel documents metadata ("app" ∷ [])
