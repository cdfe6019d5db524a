-- ===== src/BuildInputs/Closure/Worklist.antt =====
-- The work list of `resolver_only_package_ids`: what one round adds, and that the rounds end.
use sim_tooling.Support.{
  ℕ, ◌+◌, ◌≤◌, ◌≡◌, refl, ap, sym, subst, ◌∙◌, >>=-eq-ok, String, true, false, not, ◌&&◌, ◌||◌,
  List, [], ◌∷◌, length, count, arith, ok, same_key, same_key_iff, text_order, Bool-cases, ◌⊎◌, inl,
  inr,
}
use sim_tooling.Support.Sets
use sim_tooling.Support.Sets.{contains}
use sim_tooling.Support.Maps
use sim_tooling.BuildInputs.Closure.{Edges, Search, visit, visit_all}

single : (d a : String) → contains (d ∷ []) a ≡ same_key a d
single d a = ground (arith, Sets.contains-cons d [] a, Sets.contains-nil a)

same : (d a : String) (xs : List String) → same_key a d ≡ true → contains xs a ≡ contains xs d
same d a xs h = ap (contains xs) ((same_key_iff a d).0 h)

module _ (edges : Edges) where
  -- The keys outside the closure, and the length of the stack.
  abbrev pub work : Search → ℕ
  work s = count (λ k. not (contains s.closure k)) (Maps.keys edges) + length s.pending

  -- What visiting `dependencies` from `s` leads to.
  pub record IsVisited (s t : Search) (dependencies : List String) : Type 0 where
    pub closed :
        (a : String) → contains t.closure a ≡ (contains s.closure a || contains dependencies a)
    pub queued :
        (a : String)
        → contains t.pending a
          ≡ (contains s.pending a || contains dependencies a && not (contains s.closure a))
    pub known : (a : String) → contains dependencies a ≡ true → Maps.contains_key edges a ≡ true
    pub falls : work t ≤ work s

  -- The two ways in which a visit succeeds.
  visit-eq-ok :
      (s t : Search) (d : String)
      → visit edges s d ≡ ok t
      → (Maps.contains_key edges d ≡ true)
        × ((contains s.closure d ≡ true) × (t ≡ s)
            ⊎ (contains s.closure d ≡ false)
              × (t.closure ≡ Sets.insert d s.closure)
              × (t.pending ≡ d ∷ s.pending))
  unfolding visit
  visit-eq-ok s t d h = ground arith

  old-IsVisited :
      (s : Search) (d : String)
      → Maps.contains_key edges d ≡ true
      → contains s.closure d ≡ true
      → IsVisited s s (d ∷ [])
  old-IsVisited s d k m = record {
    closed = λ a. ground (arith, single d a, same d a s.closure);
    queued = λ a. ground (arith, single d a, same d a s.closure);
    known = λ a h. ground (arith, single d a, same_key_iff a d);
    falls = omega arith;
  }

  new-IsVisited :
      (s t : Search) (d : String)
      → Maps.contains_key edges d ≡ true
      → contains s.closure d ≡ false
      → t.closure ≡ Sets.insert d s.closure
      → t.pending ≡ d ∷ s.pending
      → IsVisited s t (d ∷ [])
  new-IsVisited s t d k n ec ep = record {
    closed = λ a. rw ec (ground (arith, single d a, Sets.contains-insert d a s.closure));
    queued = λ a.
        rw ep (ground (arith, single d a, Sets.contains-cons d s.pending a, same d a s.closure));
    known = λ a h. ground (arith, single d a, same_key_iff a d);
    falls =
        rw (ec, ep)
          (omega (
            arith,
            Sets.count-insert d s.closure (Maps.keys edges)
                (sym (Maps.contains_key_iff edges d) ∙ k) n,
          ));
  }

  visit-IsVisited : (s t : Search) (d : String) → visit edges s d ≡ ok t → IsVisited s t (d ∷ [])
  visit-IsVisited s t d h =
      let (k, ways) = visit-eq-ok s t d h in
      elim ways [
        | inl (m, e) ↦ rw e (old-IsVisited s d k m)
        | inr (n, ec, ep) ↦ new-IsVisited s t d k n ec ep
      ]

  IsVisited-nil : (s : Search) → IsVisited s s []
  IsVisited-nil s = record {
    closed = λ a. ground (arith, Sets.contains-nil a);
    queued = λ a. ground (arith, Sets.contains-nil a);
    known = λ a h. cc (Sets.contains-nil a);
    falls = omega arith;
  }

  IsVisited-cons :
      (s t u : Search) (d : String) (ds : List String)
      → IsVisited s t (d ∷ [])
      → IsVisited t u ds
      → IsVisited s u (d ∷ ds)
  IsVisited-cons s t u d ds f g = record {
    closed = λ a. ground (arith, f.closed a, g.closed a, single d a, Sets.contains-cons d ds a);
    queued = λ a.
        ground (arith, f.queued a, g.queued a, f.closed a, single d a, Sets.contains-cons d ds a);
    known = λ a h. ground (arith, f.known a, g.known a, single d a, Sets.contains-cons d ds a);
    falls = omega (arith, f.falls, g.falls);
  }

  pub visit_all-IsVisited :
      (s t : Search) (ds : List String) → visit_all edges s ds ≡ ok t → IsVisited s t ds
  unfolding visit_all
  visit_all-IsVisited s t [] h =
      let e : s ≡ t = cc in subst (λ x. IsVisited s x []) e (IsVisited-nil s)
  visit_all-IsVisited s t (d ∷ ds) h =
      let (s', first, rest) = >>=-eq-ok (visit edges s d) (λ s'. visit_all edges s' ds) h in
      IsVisited-cons s s' t d ds (visit-IsVisited s s' d first) (visit_all-IsVisited s' t ds rest)

  visit_total :
      (s : Search) (d : String)
      → Maps.contains_key edges d ≡ true
      → (t : Search) × (visit edges s d ≡ ok t)
  unfolding visit
  visit_total s d h = elim (Bool-cases (contains s.closure d)) [
    | inl m ↦ (s, ground arith)
    | inr n ↦ (record { closure = Sets.insert d s.closure; pending = d ∷ s.pending }, ground arith)
  ]

  pub visit_all_total :
      (s : Search) (ds : List String)
      → ((a : String) → contains ds a ≡ true → Maps.contains_key edges a ≡ true)
      → (t : Search) × (visit_all edges s ds ≡ ok t)
  unfolding visit_all
  visit_all_total s [] h = (s, refl)
  visit_all_total s (d ∷ ds) h =
      let (s', first) =
        visit_total s d (h d (ground (arith, Sets.contains-cons d ds d, same_key_iff d d))) in
      let (t, rest) =
        visit_all_total s' ds (λ a m. h a (ground (arith, Sets.contains-cons d ds a))) in
      (t, rw first rest)
