-- ===== src/Overlap/EdgePaths/Chains.antt =====
-- The search against chains of edges.
use mathlib.Core.Option.{some_inj}
use sim_tooling.Support.{
  ℕ, zero, suc, ◌+◌, ◌≤◌, ◌<◌, String, ◌≡◌, refl, sym, subst, ap, ◌∙◌, ◌⊎◌, inl, inr, Bool, true,
  false, not, ◌&&◌, ◌||◌, none, some, List, [], ◌∷◌, length, count, Bool-cases, Option-cases,
  same_key, same_key_iff, text_order, arith,
}
use sim_tooling.Support.Sets
use sim_tooling.Overlap.EdgePaths.{IndexEdge, leaves, push_targets, walk}

module _ (edges : List IndexEdge) (to : String) (relations : List String) where
  abbrev pub leave : String → IndexEdge → Bool
  leave = leaves edges to relations

  -- An edge of an admitted relation leads from the one node to the other.
  abbrev pub linked : List IndexEdge → String → String → Bool
  linked [] a b = false
  linked (edge ∷ rest) a b = (leave a edge && same_key b edge.to) || linked rest a b

  pub data Chain : String → String → Type 0 where
    one : {a b : String} → linked edges a b ≡ true → Chain a b
    more : {a b c : String} → linked edges a b ≡ true → Chain b c → Chain a c

  push_targets-none :
      (node : String) (es : List IndexEdge) (pending : List String)
      → push_targets edges to relations node es pending ≡ none
      → linked es node to ≡ true
  unfolding push_targets
  push_targets-none node [] pending h = cc
  push_targets-none node (e ∷ es) pending h =
      ground (arith, push_targets-none node es pending, push_targets-none node es (e.to ∷ pending))

  pub push_targets-some :
      (node : String) (es : List IndexEdge) (pending pushed : List String)
      → push_targets edges to relations node es pending ≡ some pushed
      → (linked es node to ≡ false)
        × (length pushed ≡ length pending + count (leave node) es)
        × ((w : String) → Sets.contains pushed w ≡ (Sets.contains pending w || linked es node w))
  unfolding push_targets
  push_targets-some node [] pending pushed h =
      let same : pending ≡ pushed = some_inj.0 h in
      (
        refl,
        ap length (sym same) ∙ omega arith,
        λ w. ap (λ p. Sets.contains p w) (sym same) ∙ ground arith,
      )
  push_targets-some node (e ∷ es) pending pushed h = elim (Bool-cases (leave node e)) [
    | inr stays ↦
        let (clear, size, members) =
          push_targets-some node es pending pushed (rw (push_targets, stays) at h) in
        rw stays (clear, size ∙ omega arith, members)
    | inl goes ↦ elim (Bool-cases (same_key e.to to)) [
      | inl arrived ↦ cc (rw (push_targets, goes, arrived) at h)
      | inr apart ↦
          let (clear, size, members) =
            push_targets-some node es (e.to ∷ pending) pushed
              (rw (push_targets, goes, apart) at h) in
          let apart' : same_key to e.to ≡ false = ground (arith, apart) in
          rw goes (
            rw apart' clear,
            size ∙ omega arith,
            λ w. members w ∙ ground (arith, Sets.contains-cons e.to pending w),
          )
    ]
  ]

  count-unvisited :
      (node : String) (visited : List String) (es : List IndexEdge)
      → Sets.contains visited node ≡ false
      → count (leave node) es
          + count (λ e. not (Sets.contains (Sets.insert node visited) e.from)) es
        ≤ count (λ e. not (Sets.contains visited e.from)) es
  count-unvisited node visited [] h = omega arith
  count-unvisited node visited (e ∷ es) h = elim (Bool-cases (same_key e.from node)) [
    | inl same ↦ ground (
      arith,
      count-unvisited node visited es h,
      Sets.contains-insert node e.from visited,
      ap (Sets.contains visited) ((same_key_iff e.from node).0 same),
    )
    | inr other ↦
        ground (arith, count-unvisited node visited es h, Sets.contains-insert node e.from visited)
  ]

  Chain-snoc : {a b c : String} → Chain a b → linked edges b c ≡ true → Chain a c
  Chain-snoc (one h) k = more h (one k)
  Chain-snoc (more h rest) k = more h (Chain-snoc rest k)

  pub Reached : String → String → Type 0
  Reached from n = (from ≡ n) ⊎ Chain from n

  Reached-snoc : (from a b : String) → Reached from a → linked edges a b ≡ true → Chain from b
  unfolding Reached
  Reached-snoc from a b (inl same) k = one (subst (λ x. linked edges x b ≡ true) (sym same) k)
  Reached-snoc from a b (inr chain) k = Chain-snoc chain k

  pub Chain-Reached : (from n : String) → Chain from n → Reached from n
  unfolding Reached
  Chain-Reached from n chain = inr chain

  pub Reached-refl : (from n : String) → n ≡ from → Reached from n
  unfolding Reached
  Reached-refl from n e = inl (sym e)

  pub contains-head : (x : String) (xs : List String) → Sets.contains (x ∷ xs) x ≡ true
  contains-head x xs = Sets.contains-cons x xs x ∙ ground (arith, (same_key_iff x x).1 refl)

  pub contains-cons-cases :
      (x : String) (xs : List String) (n : String)
      → Sets.contains (x ∷ xs) n ≡ true
      → (n ≡ x) ⊎ (Sets.contains xs n ≡ true)
  contains-cons-cases x xs n h = elim (Bool-cases (same_key n x)) [
    | inl e ↦ inl ((same_key_iff n x).0 e)
    | inr e ↦ inr (ground (arith, Sets.contains-cons x xs n))
  ]

  pub or-cases : (a b : Bool) → (a || b) ≡ true → (a ≡ true) ⊎ (b ≡ true)
  or-cases true b h = inl refl
  or-cases false b h = inr h

  pub walk-Chain :
      (from : String) (fuel : ℕ) (pending visited : List String)
      → ((n : String) → Sets.contains pending n ≡ true → Reached from n)
      → walk edges to relations fuel pending visited ≡ some true
      → Chain from to
  unfolding walk
  walk-Chain from zero pending visited reached h = cc
  walk-Chain from (suc fuel) [] visited reached h = cc
  walk-Chain from (suc fuel) (node ∷ pending) visited reached h =
      elim (Bool-cases (Sets.contains visited node)) [
        | inl seen ↦
            walk-Chain from fuel pending visited
              (λ n m. reached n (ground (arith, Sets.contains-cons node pending n)))
              (rw (walk, seen) at h)
        | inr new ↦
            let here : Reached from node = reached node (contains-head node pending) in
            elim (Option-cases (push_targets edges to relations node edges pending)) [
              | inl found ↦
                  Reached-snoc from node to here (push_targets-none node edges pending found)
              | inr (pushed, p) ↦
                  let members = (push_targets-some node edges pending pushed p).2 in
                  walk-Chain from fuel pushed (Sets.insert node visited)
                    (λ n m.
                      elim (or-cases (Sets.contains pending n) (linked edges node n)
                        (sym (members n) ∙ m)) [
                          | inl old ↦ reached n (ground (arith, Sets.contains-cons node pending n))
                          | inr link ↦ Chain-Reached from n (Reached-snoc from node n here link)
                        ])
                    (rw (walk, new, p) at h)
            ]
      ]

  pub walk_total :
      (fuel : ℕ) (pending visited : List String)
      → length pending + count (λ e. not (Sets.contains visited e.from)) edges < fuel
      → (b : Bool) × (walk edges to relations fuel pending visited ≡ some b)
  unfolding walk
  walk_total zero pending visited h = absurd (omega arith)
  walk_total (suc fuel) [] visited h = (false, refl)
  walk_total (suc fuel) (node ∷ pending) visited h =
      elim (Bool-cases (Sets.contains visited node)) [
        | inl seen ↦ rw (walk, seen) (walk_total fuel pending visited (omega arith))
        | inr new ↦ elim (Option-cases (push_targets edges to relations node edges pending)) [
          | inl found ↦ rw (walk, new, found) (true, refl)
          | inr (pushed, p) ↦
              let size = (push_targets-some node edges pending pushed p).1 in
              let fewer = count-unvisited node visited edges new in
              rw (walk, new, p)
                (walk_total fuel pushed (Sets.insert node visited) (omega (arith, size, fewer, h)))
        ]
      ]
