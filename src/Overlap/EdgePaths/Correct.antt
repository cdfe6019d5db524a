-- ===== src/Overlap/EdgePaths/Correct.antt =====
-- `has_edge_path` finds a chain of edges exactly where there is one.
use sim_tooling.Support.{
  ℕ, zero, suc, ◌+◌, ◌≤◌, String, ◌≡◌, refl, sym, subst, ap, ◌∙◌, ◌↔◌, ◌⊎◌, inl, inr, Bool, true,
  false, not, some, List, [], ◌∷◌, length, count, Bool-cases, Option-cases, same_key, same_key_iff,
  text_order, arith,
}
use sim_tooling.Support.Sets
use sim_tooling.Overlap.EdgePaths.{IndexEdge, push_targets, walk, has_edge_path}
use sim_tooling.Overlap.EdgePaths.Chains.{
  linked, Chain, one, more, push_targets-some, contains-head, contains-cons-cases, or-cases,
  walk-Chain, walk_total, Reached-refl,
}

count_le_length {ℓ} : {A : Type ℓ} (p : A → Bool) (xs : List A) → count p xs ≤ length xs
count_le_length p [] = omega arith
count_le_length p (x ∷ xs) = ground (arith, count_le_length p xs)

module _ (edges : List IndexEdge) (to : String) (relations : List String) where
  -- What has been visited leads to itself or to what is left, and not to the end.
  record IsOpen (pending visited : List String) : Type 0 where
    clear :
        (v : String) → Sets.contains visited v ≡ true → linked edges to relations edges v to ≡ false
    open_to :
        (v w : String)
        → Sets.contains visited v ≡ true
        → linked edges to relations edges v w ≡ true
        → (Sets.contains visited w ≡ true) ⊎ (Sets.contains pending w ≡ true)

  IsOpen-skip :
      (node : String) (pending visited : List String)
      → Sets.contains visited node ≡ true
      → IsOpen (node ∷ pending) visited
      → IsOpen pending visited
  IsOpen-skip node pending visited seen o = record {
    clear = o.clear;
    open_to = λ v w m l. elim (o.open_to v w m l) [
      | inl old ↦ inl old
      | inr p ↦ elim (contains-cons-cases edges to relations node pending w p) [
        | inl same ↦ inl (ap (Sets.contains visited) same ∙ seen)
        | inr rest ↦ inr rest
      ]
    ];
  }

  contains-insert-cases :
      (node n : String) (visited : List String)
      → Sets.contains (Sets.insert node visited) n ≡ true
      → (n ≡ node) ⊎ (Sets.contains visited n ≡ true)
  contains-insert-cases node n visited h =
      elim (or-cases edges to relations (same_key n node) (Sets.contains visited n)
        (sym (Sets.contains-insert node n visited) ∙ h)) [
          | inl e ↦ inl ((same_key_iff n node).0 e)
          | inr e ↦ inr e
        ]

  contains-insert-old :
      (node n : String) (visited : List String)
      → Sets.contains visited n ≡ true
      → Sets.contains (Sets.insert node visited) n ≡ true
  contains-insert-old node n visited h = Sets.contains-insert node n visited ∙ ground (arith, h)

  contains-insert-new :
      (node n : String) (visited : List String)
      → n ≡ node
      → Sets.contains (Sets.insert node visited) n ≡ true
  contains-insert-new node n visited e =
      Sets.contains-insert node n visited ∙ ground (arith, (same_key_iff n node).1 e)

  IsOpen-expand :
      (node : String) (pending pushed visited : List String)
      → push_targets edges to relations node edges pending ≡ some pushed
      → IsOpen (node ∷ pending) visited
      → IsOpen pushed (Sets.insert node visited)
  IsOpen-expand node pending pushed visited p o =
      let (stops, size, members) =
        push_targets-some edges to relations node edges pending pushed p in
      record {
        clear = λ v m. elim (contains-insert-cases node v visited m) [
          | inl same ↦ ap (λ x. linked edges to relations edges x to) same ∙ stops
          | inr old ↦ o.clear v old
        ];
        open_to = λ v w m l. elim (contains-insert-cases node v visited m) [
          | inl same ↦
              let link = subst (λ x. linked edges to relations edges x w ≡ true) same l in
              inr (members w ∙ ground (arith, link))
          | inr old ↦ elim (o.open_to v w old l) [
            | inl known ↦ inl (contains-insert-old node w visited known)
            | inr waiting ↦ elim (contains-cons-cases edges to relations node pending w waiting) [
              | inl same ↦ inl (contains-insert-new node w visited same)
              | inr rest ↦ inr (members w ∙ ground (arith, rest))
            ]
          ]
        ];
      }

  -- A set of nodes that no edge leaves and from which none leads to the end.
  record IsClosed (closed : List String) : Type 0 where
    clear :
        (v : String) → Sets.contains closed v ≡ true → linked edges to relations edges v to ≡ false
    closed_to :
        (v w : String)
        → Sets.contains closed v ≡ true
        → linked edges to relations edges v w ≡ true
        → Sets.contains closed w ≡ true

  walk-IsClosed :
      (fuel : ℕ) (pending visited : List String) (from : String)
      → IsOpen pending visited
      → (Sets.contains visited from ≡ true) ⊎ (Sets.contains pending from ≡ true)
      → walk edges to relations fuel pending visited ≡ some false
      → (closed : List String) × IsClosed closed × (Sets.contains closed from ≡ true)
  unfolding walk
  walk-IsClosed zero pending visited from o m h = cc
  walk-IsClosed (suc fuel) [] visited from o m h = (
    visited,
    record {
      clear = o.clear;
      closed_to = λ v w k l. elim (o.open_to v w k l) [
        | inl old ↦ old
        | inr no_more ↦ cc (Sets.contains-nil w)
      ];
    },
    elim m [ inl old ↦ old | inr no_more ↦ cc (Sets.contains-nil from) ],
  )
  walk-IsClosed (suc fuel) (node ∷ pending) visited from o m h =
      elim (Bool-cases (Sets.contains visited node)) [
        | inl seen ↦
            walk-IsClosed fuel pending visited from (IsOpen-skip node pending visited seen o)
              (elim m [
                | inl old ↦ inl old
                | inr p ↦ elim (contains-cons-cases edges to relations node pending from p) [
                  | inl same ↦ inl (ap (Sets.contains visited) same ∙ seen)
                  | inr rest ↦ inr rest
                ]
              ])
              (rw (walk, seen) at h)
        | inr new ↦ elim (Option-cases (push_targets edges to relations node edges pending)) [
          | inl found ↦ cc (rw (walk, new, found) at h)
          | inr (pushed, p) ↦
              let members = (push_targets-some edges to relations node edges pending pushed p).2 in
              walk-IsClosed fuel pushed (Sets.insert node visited) from
                (IsOpen-expand node pending pushed visited p o)
                (elim m [
                  | inl old ↦ inl (contains-insert-old node from visited old)
                  | inr q ↦ elim (contains-cons-cases edges to relations node pending from q) [
                    | inl same ↦ inl (contains-insert-new node from visited same)
                    | inr rest ↦ inr (members from ∙ ground (arith, rest))
                  ]
                ])
                (rw (walk, new, p) at h)
        ]
      ]

  IsClosed-excludes :
      (closed : List String)
      → IsClosed closed
      → {a b : String} → Chain edges to relations a b
      → Sets.contains closed a ≡ true
      → b ≡ to
      → ◌≡◌ {A = Bool} true false
  IsClosed-excludes closed c {a} {b} (one h) m e =
      sym (subst (λ x. linked edges to relations edges a x ≡ true) e h) ∙ c.clear a m
  IsClosed-excludes closed c {a} (more {b = b'} h rest) m e =
      IsClosed-excludes closed c rest (c.closed_to a b' m h) e

  contains-singleton : (from n : String) → Sets.contains (from ∷ []) n ≡ true → n ≡ from
  contains-singleton from n h = elim (contains-cons-cases edges to relations from [] n h) [
    | inl same ↦ same
    | inr no_more ↦ cc (Sets.contains-nil n)
  ]

  IsOpen-start : (from : String) → IsOpen (from ∷ []) []
  IsOpen-start from = record {
    clear = λ v m. cc (Sets.contains-nil v);
    open_to = λ v w m l. cc (Sets.contains-nil v);
  }

  -- For every list of edges, every two nodes and every choice of relations, the search ends within
  -- its fuel, and it finds a path exactly when a chain of one or more edges of these relations leads
  -- from the first node to the second.
  pub has_edge_path_iff :
      (from : String)
      → ((b : Bool) × (has_edge_path edges to relations from ≡ some b))
        × ((has_edge_path edges to relations from ≡ some true) ↔ Chain edges to relations from to)
  unfolding has_edge_path
  has_edge_path_iff from =
      let (b, answer) =
        walk_total edges to relations (length edges + 2) (from ∷ []) []
          (omega (arith, count_le_length (λ e. not (Sets.contains [] e.from)) edges)) in
      (
        (b, answer),
        (
          walk-Chain edges to relations from (length edges + 2) (from ∷ []) []
              (λ n m. Reached-refl edges to relations from n (contains-singleton from n m)),
          λ chain. elim (Bool-cases b) [
            | inl path ↦ answer ∙ ap some path
            | inr no_path ↦
                let (closed, c, m) =
                  walk-IsClosed (length edges + 2) (from ∷ []) [] from (IsOpen-start from)
                    (inr (contains-head edges to relations from [])) (answer ∙ ap some no_path) in
                cc (IsClosed-excludes closed c chain m refl)
          ],
        ),
      )
