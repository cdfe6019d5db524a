-- ===== src/BuildInputs/Closure.antt =====
-- build_inputs/graph.rs: `resolver_only_package_ids`, the packages that Cargo's resolver adds to
-- the selected ones.
pub mod Worklist
pub mod Reachability
pub mod Correct
pub mod Resolver
use mathlib.Core.List.{reverse}
use sim_tooling.Support.{
  ℕ, zero, suc, ◌+◌, String, Bool, true, false, ◌||◌, ◌==◌, ltb, Option, none, some, List, [], ◌∷◌,
  length, Result, ok, err, ◌>>=◌, ◌>>◌, ok_or, refuse_if, if◌then◌else◌, text_order,
}
use sim_tooling.Support.Sets
use sim_tooling.Support.Maps
use sim_tooling.Support.Maps.{Map}
use sim_tooling.BuildInputs.Json.{JsonApi, ◌&>◌, keep_if, is_identity, string}

-- `out_of_fuel` is no error of the code: the work list is never cut short.
pub data GraphError : Type 0 where
  no_resolver_nodes node_count_outside_bound invalid_id invalid_dependencies : GraphError
  invalid_dependency_identity repeated_node : GraphError
  missing_node missing_dependency : String → GraphError
  out_of_fuel : GraphError

abbrev pub Edges : Type 0
Edges = Map String (List String)

-- The closure, and the stack of ids still to expand, its top first.
pub record Search : Type 0 where
  pub closure : List String
  pub pending : List String

module _ (edges : Edges) where
  -- The body of `for dependency in dependencies`.
  unfoldable pub visit : Search → String → Result GraphError Search
  visit s dependency =
      if Maps.contains_key edges dependency
      then if Sets.contains s.closure dependency
        then ok s
        else ok (record {
          closure = Sets.insert dependency s.closure;
          pending = dependency ∷ s.pending;
        })
      else err (missing_dependency dependency)

  unfoldable pub visit_all : Search → List String → Result GraphError Search
  visit_all s [] = ok s
  visit_all s (dependency ∷ rest) = do s' ← visit s dependency; visit_all s' rest

  -- One round of `while let Some(id) = pending.pop()`, after `id` left the stack.
  unfoldable pub expand : List String → List String → String → Result GraphError Search
  expand closure pending id = do
    dependencies ← ok_or (Maps.get edges id) (missing_node id)
    visit_all (record { closure = closure; pending = pending }) dependencies

  unfoldable pub search : ℕ → Search → Result GraphError (List String)
  search zero s = elim s.pending [ [] ↦ ok s.closure | _ ∷ _ ↦ err out_of_fuel ]
  search (suc fuel) s = elim s.pending [
    | [] ↦ ok s.closure
    | id ∷ pending ↦ expand s.closure pending id >>= search fuel
  ]

  -- Every round pops an id, and an id is pushed only when it enters the closure.
  unfoldable pub closure_difference : List String → Result GraphError (List String)
  closure_difference selected = do
    closure ←
        search (length edges + length selected)
          (record { closure = selected; pending = reverse selected })
    ok (Sets.difference closure selected)

module _ (json : JsonApi) where
  open json use {Json, get, as_array, as_str}

  unfoldable pub dependency_identities : List Json → Result GraphError (List String)
  dependency_identities [] = ok []
  dependency_identities (value ∷ rest) = do
    id ← ok_or (as_str value &> keep_if is_identity) invalid_dependency_identity
    ids ← dependency_identities rest
    ok (Sets.insert id ids)

  -- The body of `for node in nodes`.
  unfoldable pub read_node : Edges → Json → Result GraphError Edges
  read_node edges node = do
    id ← ok_or (string json node "id") invalid_id
    values ← ok_or (get node "dependencies" &> as_array) invalid_dependencies
    dependencies ← dependency_identities values
    refuse_if (Maps.contains_key edges id) repeated_node
    ok (Maps.insert id dependencies edges)

  unfoldable pub read_nodes : Edges → List Json → Result GraphError Edges
  read_nodes edges [] = ok edges
  read_nodes edges (node ∷ rest) = do edges' ← read_node edges node; read_nodes edges' rest

  unfoldable pub resolver_edges : Json → Result GraphError Edges
  resolver_edges metadata = do
    nodes ←
        ok_or (get metadata "resolve" &> (λ resolve. get resolve "nodes") &> as_array)
          no_resolver_nodes
    refuse_if (length nodes == 0 || ltb 16384 (length nodes)) node_count_outside_bound
    read_nodes [] nodes

  unfoldable pub resolver_only_package_ids : Json → List String → Result GraphError (List String)
  resolver_only_package_ids metadata selected = do
    edges ← resolver_edges metadata
    closure_difference edges selected
