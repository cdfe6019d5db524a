-- ===== src/BuildInputs/Closure/Reachability.antt =====
-- The invariant of the work list: the closure grows towards what is reachable.
use mathlib.Core.List.{reverse}
use sim_tooling.Support.{
  ℕ, zero, suc, ◌≡◌, ap, subst, >>=-eq-ok, String, true, ◌||◌, some, List, [], ◌∷◌, arith, ok,
  same_key, same_key_iff, text_order, Bool-cases, List-cases, ◌⊎◌, inl, inr,
}
use sim_tooling.Support.Sets
use sim_tooling.Support.Sets.{contains}
use sim_tooling.Support.Maps
use sim_tooling.BuildInputs.Closure.{Edges, Search, visit_all, expand, search}
use sim_tooling.BuildInputs.Closure.Worklist.{IsVisited, visit_all-IsVisited}

-- The packages that a chain of dependencies leads to from a selected one.
pub data Reach (edges : Edges) (selected : List String) : String → Type 0 where
  here : {a : String} → contains selected a ≡ true → Reach edges selected a
  step :
      {a b : String} (dependencies : List String)
      → Reach edges selected a
      → Maps.get edges a ≡ some dependencies
      → contains dependencies b ≡ true
      → Reach edges selected b

module _ (edges : Edges) (selected : List String) where
  pub record Inv (s : Search) : Type 0 where
    pub source : (a : String) → contains selected a ≡ true → contains s.closure a ≡ true
    pub sound : (a : String) → contains s.closure a ≡ true → Reach edges selected a
    pub waiting : (a : String) → contains s.pending a ≡ true → contains s.closure a ≡ true
    -- What left the stack has a node, and all its dependencies are nodes of the closure.
    pub closed :
        (a : String)
        → contains s.closure a ≡ true
        → (contains s.pending a ≡ true)
          ⊎ ((ds : List String) × (Maps.get edges a ≡ some ds)
              × ((b : String)
                  → contains ds b ≡ true
                  → (contains s.closure b ≡ true) × (Maps.contains_key edges b ≡ true)))

  pub Inv-start : Inv (record { closure = selected; pending = reverse selected })
  Inv-start = record {
    source = λ a m. m;
    sound = λ a m. here m;
    waiting = λ a m. rw Sets.contains-reverse at m;
    closed = λ a m. inl (rw Sets.contains-reverse m);
  }

  pub expand-eq-ok :
      (closure pending : List String) (id : String) (t : Search)
      → expand edges closure pending id ≡ ok t
      → (ds : List String) × (Maps.get edges id ≡ some ds)
        × (visit_all edges (record { closure = closure; pending = pending }) ds ≡ ok t)
  unfolding expand
  expand-eq-ok closure pending id t h = ground arith

  abbrev Settled : Search → String → Type 0
  Settled s a =
      (ds : List String) × (Maps.get edges a ≡ some ds)
      × ((b : String)
          → contains ds b ≡ true
          → (contains s.closure b ≡ true) × (Maps.contains_key edges b ≡ true))

  module _ (s t : Search) (id : String) (rest ds : List String) (e : s.pending ≡ id ∷ rest)
      (h : Inv s) (node : Maps.get edges id ≡ some ds)
      (v : IsVisited edges (record { closure = s.closure; pending = rest }) t ds) where
    stack : (a : String) → contains s.pending a ≡ (same_key a id || contains rest a)
    stack a = rw e (Sets.contains-cons id rest a)

    popped : contains s.closure id ≡ true
    popped = h.waiting id (ground (arith, stack id, same_key_iff id id))

    grows : (a : String) → contains s.closure a ≡ true → contains t.closure a ≡ true
    grows a m = ground (arith, v.closed a)

    expand_sound : (a : String) → contains t.closure a ≡ true → Reach edges selected a
    expand_sound a m = elim (Bool-cases (contains s.closure a)) [
      | inl old ↦ h.sound a old
      | inr new ↦ step ds (h.sound id popped) node (ground (arith, v.closed a))
    ]

    Settled-id : (a : String) → same_key a id ≡ true → Settled t a
    Settled-id a k =
        (ds, rw ((same_key_iff a id).0 k) node, λ b m. (ground (arith, v.closed b), v.known b m))

    Settled-old : (a : String) → Settled s a → Settled t a
    Settled-old a (ds', g, f) = (ds', g, λ b m. let (c, k) = f b m in (grows b c, k))

    expand-closed :
        (a : String) → contains t.closure a ≡ true → (contains t.pending a ≡ true) ⊎ Settled t a
    expand-closed a m = elim (Bool-cases (same_key a id)) [
      | inl k ↦ inr (Settled-id a k)
      | inr k ↦ elim (Bool-cases (contains s.closure a)) [
        | inl old ↦ elim (h.closed a old) [
          | inl w ↦ inl (ground (arith, stack a, v.queued a))
          | inr settled ↦ inr (Settled-old a settled)
        ]
        | inr new ↦ inl (ground (arith, v.closed a, v.queued a))
      ]
    ]

    pub Inv-expand : Inv t
    Inv-expand = record {
      source = λ a m. grows a (h.source a m);
      sound = expand_sound;
      waiting = λ a m. ground (arith, h.waiting a, stack a, v.queued a, v.closed a);
      closed = expand-closed;
    }

  pub record Final (closure : List String) : Type 0 where
    pub full : (a : String) → Reach edges selected a → contains closure a ≡ true
    pub sound : (a : String) → contains closure a ≡ true → Reach edges selected a
    pub known : (a : String) → contains closure a ≡ true → Maps.contains_key edges a ≡ true

  full_lem :
      (s : Search)
      → Inv s
      → s.pending ≡ []
      → {a : String} → Reach edges selected a
      → contains s.closure a ≡ true
  full_lem s h e (here m) = h.source _ m
  full_lem s h e (step {a} {b} ds r g m) = elim (h.closed a (full_lem s h e r)) [
    | inl w ↦ cc (Sets.contains-nil a, ap (λ p. contains p a) e)
    | inr (ds', g', f) ↦ (f b (ground arith)).0
  ]

  Final-empty : (s : Search) → Inv s → s.pending ≡ [] → Final s.closure
  Final-empty s h e = record {
    full = λ a r. full_lem s h e r;
    sound = h.sound;
    known = λ a m. elim (h.closed a m) [
      | inl w ↦ cc (Sets.contains-nil a, ap (λ p. contains p a) e)
      | inr (ds, g, f) ↦ Maps.contains_key-get edges a ds g
    ];
  }

  pub search-Final :
      (fuel : ℕ) (s : Search) (closure : List String)
      → Inv s
      → search edges fuel s ≡ ok closure
      → Final closure
  unfolding search
  search-Final zero s closure h e = elim (List-cases s.pending) [
    | inl empty ↦
        let e' : s.closure ≡ closure = ground arith in subst Final e' (Final-empty s h empty)
    | inr (id, rest, more) ↦ ground arith
  ]
  search-Final (suc fuel) s closure h e = elim (List-cases s.pending) [
    | inl empty ↦
        let e' : s.closure ≡ closure = ground arith in subst Final e' (Final-empty s h empty)
    | inr (id, rest, more) ↦
        let (t, expanded, e') =
          >>=-eq-ok (expand edges s.closure rest id) (search edges fuel) (rw (more, search) at e) in
        let (ds, node, visited) = expand-eq-ok s.closure rest id t expanded in
        search-Final fuel t closure
          (Inv-expand s t id rest ds more h node (
            visit_all-IsVisited edges (record { closure = s.closure; pending = rest }) t ds
              visited))
          e'
  ]
