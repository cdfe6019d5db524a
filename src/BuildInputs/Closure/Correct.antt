-- ===== src/BuildInputs/Closure/Correct.antt =====
-- `closure_difference` against reachability in the resolver's graph, and that it ends.
use mathlib.Core.List.{reverse}
use sim_tooling.Support.{
  ℕ, zero, suc, ◌+◌, ◌≤◌, ◌<◌, ◌≡◌, ◌≢◌, refl, ap, subst, >>=-eq-ok, String, Bool, true, false, not,
  List, [], ◌∷◌, length, length-reverse, count, arith, ok, err, same_key_iff, text_order,
  List-cases, Option-cases, Result-cases, inl, inr, ◌↔◌,
}
use sim_tooling.Support.Sets
use sim_tooling.Support.Sets.{contains}
use sim_tooling.Support.Maps
use sim_tooling.BuildInputs.Closure.{
  Edges, Search, visit, visit_all, expand, search, closure_difference, out_of_fuel,
}
use sim_tooling.BuildInputs.Closure.Worklist.{work, visit_all-IsVisited, visit_all_total}
use sim_tooling.BuildInputs.Closure.Reachability.{
  Reach, step, Inv, Inv-start, Inv-expand, expand-eq-ok, search-Final,
}

module _ (edges : Edges) (selected : List String) where
  expand_falls :
      (s t : Search) (id : String) (rest : List String)
      → s.pending ≡ id ∷ rest
      → expand edges s.closure rest id ≡ ok t
      → work edges t < work edges s
  expand_falls s t id rest e h =
      let (ds, node, visited) = expand-eq-ok edges selected s.closure rest id t h in
      let v =
        visit_all-IsVisited edges (record { closure = s.closure; pending = rest }) t ds visited in
      omega (arith, v.falls, ap length e)

  module _ (nodes : (a : String) → Reach edges selected a → Maps.contains_key edges a ≡ true) where
    expand_total :
        (s : Search) (id : String) (rest : List String)
        → Inv edges selected s
        → s.pending ≡ id ∷ rest
        → (t : Search) × (expand edges s.closure rest id ≡ ok t) × Inv edges selected t
    unfolding expand
    expand_total s id rest h e =
        let reached = h.sound id (
          h.waiting id
            (rw e (ground (arith, Sets.contains-cons id rest id, same_key_iff id id)))) in
        let (ds, node) = Maps.get-eq-some edges id (nodes id reached) in
        let (t, visited) =
          visit_all_total edges (record { closure = s.closure; pending = rest }) ds
            (λ a m. nodes a (step ds reached node m)) in
        (
          t,
          rw node visited,
          Inv-expand edges selected s t id rest ds e h node (
              visit_all-IsVisited edges (record { closure = s.closure; pending = rest }) t ds
                visited),
        )

    search_total :
        (fuel : ℕ) (s : Search)
        → Inv edges selected s
        → work edges s ≤ fuel
        → (closure : List String) × (search edges fuel s ≡ ok closure)
    unfolding search
    search_total zero s h w = elim (List-cases s.pending) [
      | inl empty ↦ (s.closure, rw (empty, search))
      | inr (id, rest, more) ↦ absurd (omega (arith, ap length more))
    ]
    search_total (suc fuel) s h w = elim (List-cases s.pending) [
      | inl empty ↦ (s.closure, rw (empty, search))
      | inr (id, rest, more) ↦
          let (t, expanded, inv) = expand_total s id rest h more in
          let (closure, ends) =
            search_total fuel t inv (omega (arith, expand_falls s t id rest more expanded)) in
          (closure, rw (more, search) (rw expanded ends))
    ]

  abbrev start : Search
  start = record { closure = selected; pending = reverse selected }

  count_le : (p : String → Bool) (xs : List String) → count p xs ≤ length xs
  count_le p [] = omega arith
  count_le p (x ∷ xs) = ground (arith, count_le p xs)

  length-keys : {V : Type 0} (m : Maps.Map String V) → length (Maps.keys m) ≡ length m
  length-keys [] = refl
  length-keys ((k, v) ∷ m) = ap suc (length-keys m)

  work-start : work edges start ≤ length edges + length selected
  work-start = omega (
    arith,
    count_le (λ k. not (contains selected k)) (Maps.keys edges),
    length-keys edges,
    length-reverse selected,
  )

  -- A difference that is returned holds what is reachable and was not selected.
  pub closure_difference-Reach :
      (out : List String)
      → closure_difference edges selected ≡ ok out
      → (a : String)
      → (contains out a ≡ true) ↔ (Reach edges selected a × (contains selected a ≡ false))
  unfolding closure_difference
  closure_difference-Reach out h a =
      let (closure, found, e) =
        >>=-eq-ok (search edges (length edges + length selected) start)
          (λ closure. ok (Sets.difference closure selected)) h in
      let final =
        search-Final edges selected (length edges + length selected) start closure
          (Inv-start edges selected) found in
      let e' : Sets.difference closure selected ≡ out = cc in
      subst (λ o. (contains o a ≡ true) ↔ (Reach edges selected a × (contains selected a ≡ false)))
        e'
        (
          λ m. (
            final.sound a (ground (arith, Sets.contains-difference a closure selected)),
            ground (arith, Sets.contains-difference a closure selected),
          ),
          λ (r, n). ground (arith, Sets.contains-difference a closure selected, final.full a r),
        )

  -- A difference is returned exactly when every reachable package has a node.
  pub closure_difference_total :
      ((a : String) → Reach edges selected a → Maps.contains_key edges a ≡ true)
      ↔ ((out : List String) × (closure_difference edges selected ≡ ok out))
  unfolding closure_difference
  closure_difference_total = (
    λ nodes.
        let (closure, found) =
          search_total nodes (length edges + length selected) start (Inv-start edges selected)
            work-start in
        (Sets.difference closure selected, rw found),
    λ (out, h) a r.
        let (closure, found, e) =
          >>=-eq-ok (search edges (length edges + length selected) start)
            (λ closure. ok (Sets.difference closure selected)) h in
        let final =
          search-Final edges selected (length edges + length selected) start closure
            (Inv-start edges selected) found in
        final.known a (final.full a r),
  )

  visit_all-ne-out_of_fuel :
      (s : Search) (ds : List String) → visit_all edges s ds ≢ err out_of_fuel
  unfolding visit_all visit
  visit_all-ne-out_of_fuel s [] h = cc
  visit_all-ne-out_of_fuel s (d ∷ ds) h = elim (Result-cases (visit edges s d)) [
    | inl (t, e) ↦ visit_all-ne-out_of_fuel t ds (rw (e, visit_all) at h)
    | inr (x, e) ↦ ground arith
  ]

  expand-ne-out_of_fuel :
      (closure pending : List String) (id : String)
      → expand edges closure pending id ≢ err out_of_fuel
  unfolding expand
  expand-ne-out_of_fuel closure pending id h = elim (Option-cases (Maps.get edges id)) [
    | inl gone ↦ ground arith
    | inr (ds, e) ↦
        visit_all-ne-out_of_fuel (record { closure = closure; pending = pending }) ds (ground arith)
  ]

  search-ne-out_of_fuel :
      (fuel : ℕ) (s : Search) → work edges s ≤ fuel → search edges fuel s ≢ err out_of_fuel
  unfolding search
  search-ne-out_of_fuel zero s w h = elim (List-cases s.pending) [
    | inl empty ↦ ground arith
    | inr (id, rest, more) ↦ absurd (omega (arith, ap length more))
  ]
  search-ne-out_of_fuel (suc fuel) s w h = elim (List-cases s.pending) [
    | inl empty ↦ ground arith
    | inr (id, rest, more) ↦ elim (Result-cases (expand edges s.closure rest id)) [
      | inl (t, e) ↦
          search-ne-out_of_fuel fuel t (omega (arith, expand_falls s t id rest more e))
            (rw e at (rw (more, search) at h))
      | inr (x, e) ↦ expand-ne-out_of_fuel s.closure rest id (ground arith)
    ]
  ]

  pub closure_difference-ne-out_of_fuel : closure_difference edges selected ≢ err out_of_fuel
  unfolding closure_difference
  closure_difference-ne-out_of_fuel h =
      elim (Result-cases (search edges (length edges + length selected) start)) [
        | inl (c, e) ↦ ground arith
        | inr (x, e) ↦
            search-ne-out_of_fuel (length edges + length selected) start work-start (ground arith)
      ]
