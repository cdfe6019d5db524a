-- ===== src/Vault/Artifacts/Distinct.antt =====
-- The artifacts that `ArtifactSet::new` admits.
use sim_tooling.Support.{
  String, ◌≡◌, ◌≢◌, refl, sym, subst, ap, ◌∙◌, Bool, true, false, none, List, [], ◌∷◌, ok,
  >>-ok-elim, ok-inj, All, All-imp, count, Bool-cases, Option-cases, inl, inr, lt_asymm, same_key,
  same_key_iff, text_lt, text_lt_connected, text_order, arith,
}
use sim_tooling.Support.Sorting.{not_less}
use sim_tooling.Support.Maps
use sim_tooling.Support.Maps.{Map, get}
use sim_tooling.Vault.{Codecs}
use sim_tooling.Vault.Paths.{validate_relative_path}
use sim_tooling.Vault.Artifacts.{
  GeneratedArtifact, validate_paths, put_by_path, sort_by_path, check_folded, new_set,
}

abbrev Before : GeneratedArtifact → List GeneratedArtifact → Type 0
Before a = All (λ b. text_lt b.path a.path ≡ false)

abbrev InOrder : List GeneratedArtifact → Type 0
InOrder [] = Unit
InOrder (a ∷ rest) = Before a rest × InOrder rest

put_by_path-All :
    (P : GeneratedArtifact → Type 0) (a : GeneratedArtifact) (rest : List GeneratedArtifact)
    → P a
    → All P rest
    → All P (put_by_path a rest)
put_by_path-All P a [] p h = (p, tt)
put_by_path-All P a (b ∷ rest) p h = elim (Bool-cases (text_lt b.path a.path)) [
  | inl e ↦ rw e (h.0, put_by_path-All P a rest p h.1)
  | inr e ↦ rw e (p, h)
]

sort_by_path-All :
    (P : GeneratedArtifact → Type 0) (xs : List GeneratedArtifact)
    → All P xs
    → All P (sort_by_path xs)
unfolding sort_by_path
sort_by_path-All P [] h = tt
sort_by_path-All P (a ∷ rest) h =
    put_by_path-All P a (sort_by_path rest) h.0 (sort_by_path-All P rest h.1)

put_by_path-InOrder :
    (a : GeneratedArtifact) (rest : List GeneratedArtifact)
    → InOrder rest
    → InOrder (put_by_path a rest)
put_by_path-InOrder a [] h = (tt, tt)
put_by_path-InOrder a (b ∷ rest) h = elim (Bool-cases (text_lt b.path a.path)) [
  | inl e ↦ rw e (
    put_by_path-All (λ c. text_lt c.path b.path ≡ false) a rest (lt_asymm b.path a.path e) h.0,
    put_by_path-InOrder a rest h.1,
  )
  | inr e ↦ rw e ((e, All-imp (λ c k. not_less a.path b.path c.path e k) rest h.0), h)
]

sort_by_path-InOrder : (xs : List GeneratedArtifact) → InOrder (sort_by_path xs)
unfolding sort_by_path
sort_by_path-InOrder [] = tt
sort_by_path-InOrder (a ∷ rest) =
    put_by_path-InOrder a (sort_by_path rest) (sort_by_path-InOrder rest)

count-put_by_path :
    (p : GeneratedArtifact → Bool) (a : GeneratedArtifact) (rest : List GeneratedArtifact)
    → count p (put_by_path a rest) ≡ count p (a ∷ rest)
count-put_by_path p a [] = refl
count-put_by_path p a (b ∷ rest) = elim (Bool-cases (text_lt b.path a.path)) [
  | inl e ↦ rw e (omega (arith, count-put_by_path p a rest))
  | inr e ↦ rw e refl
]

count-sort_by_path :
    (p : GeneratedArtifact → Bool) (xs : List GeneratedArtifact)
    → count p (sort_by_path xs) ≡ count p xs
unfolding sort_by_path
count-sort_by_path p [] = refl
count-sort_by_path p (a ∷ rest) =
    count-put_by_path p a (sort_by_path rest) ∙ omega (arith, count-sort_by_path p rest)

validate_paths-All :
    (xs : List GeneratedArtifact)
    → validate_paths xs ≡ ok tt
    → All (λ a. validate_relative_path a.path ≡ ok tt) xs
unfolding validate_paths
validate_paths-All [] h = tt
validate_paths-All (a ∷ rest) h =
    >>-ok-elim (validate_relative_path a.path) (validate_paths rest) h
      λ valid later. (valid, validate_paths-All rest later)

module _ (codecs : Codecs) where
  open codecs use {to_lowercase}

  -- In strictly increasing order of their paths, of which no two have the same folding.
  abbrev pub IsArtifactSet : List GeneratedArtifact → Type 0
  IsArtifactSet [] = Unit
  IsArtifactSet (a ∷ rest) =
      (validate_relative_path a.path ≡ ok tt)
      × All (λ b. (text_lt a.path b.path ≡ true) × (to_lowercase a.path ≢ to_lowercase b.path)) rest
      × IsArtifactSet rest

  abbrev Apart : List GeneratedArtifact → Type 0
  Apart [] = Unit
  Apart (a ∷ rest) = All (λ b. to_lowercase a.path ≢ to_lowercase b.path) rest × Apart rest

  get-insert-none :
      (a b : GeneratedArtifact) (folded : Map String String)
      → get (Maps.insert (to_lowercase a.path) a.path folded) (to_lowercase b.path) ≡ none
      → (to_lowercase a.path ≢ to_lowercase b.path) × (get folded (to_lowercase b.path) ≡ none)
  get-insert-none a b folded h =
      let low : String = to_lowercase b.path in
      let read = Maps.get-insert (to_lowercase a.path) low a.path folded in
      elim (Bool-cases (same_key low (to_lowercase a.path))) [
        | inl e ↦ cc (rw e at read, h)
        | inr e ↦ (
          λ same. cc ((same_key_iff low (to_lowercase a.path)).1 (sym same), e),
          sym (rw e at read) ∙ h,
        )
      ]

  check_folded-Apart :
      (folded : Map String String) (xs : List GeneratedArtifact)
      → check_folded codecs folded xs ≡ ok tt
      → All (λ a. get folded (to_lowercase a.path) ≡ none) xs × Apart xs
  unfolding check_folded
  check_folded-Apart folded [] h = (tt, tt)
  check_folded-Apart folded (a ∷ rest) h = elim (Option-cases (get folded (to_lowercase a.path))) [
    | inr (previous, e) ↦ cc (rw (check_folded, e) at h)
    | inl e ↦
        let (later, apart) =
          check_folded-Apart (Maps.insert (to_lowercase a.path) a.path folded) rest
            (rw (check_folded, e) at h) in
        (
          (e, All-imp (λ b k. (get-insert-none a b folded k).1) rest later),
          (All-imp (λ b k. (get-insert-none a b folded k).0) rest later, apart),
        )
  ]

  less_of_apart :
      (a b : GeneratedArtifact)
      → text_lt b.path a.path ≡ false
      → to_lowercase a.path ≢ to_lowercase b.path
      → text_lt a.path b.path ≡ true
  less_of_apart a b h n = elim (Bool-cases (text_lt a.path b.path)) [
    | inl e ↦ e
    | inr e ↦ absurd (n (ap to_lowercase (text_lt_connected a.path b.path e h)))
  ]

  less_all :
      (a : GeneratedArtifact) (rest : List GeneratedArtifact)
      → Before a rest
      → All (λ b. to_lowercase a.path ≢ to_lowercase b.path) rest
      → All (λ b. (text_lt a.path b.path ≡ true) × (to_lowercase a.path ≢ to_lowercase b.path)) rest
  less_all a [] h n = tt
  less_all a (b ∷ rest) h n = ((less_of_apart a b h.0 n.0, n.0), less_all a rest h.1 n.1)

  assembled :
      (xs : List GeneratedArtifact)
      → All (λ a. validate_relative_path a.path ≡ ok tt) xs
      → InOrder xs
      → Apart xs
      → IsArtifactSet xs
  assembled [] valid ordered apart = tt
  assembled (a ∷ rest) valid ordered apart =
      (valid.0, less_all a rest ordered.0 apart.0, assembled rest valid.1 ordered.1 apart.1)

  -- What `ArtifactSet::new` returns is a rearrangement of its artifacts, in strictly increasing
  -- order of their paths; each path is an admissible relative path, and no two fold to the same.
  pub new_set-IsArtifactSet :
      (xs set : List GeneratedArtifact)
      → new_set codecs xs ≡ ok set
      → IsArtifactSet set × ((p : GeneratedArtifact → Bool) → count p set ≡ count p xs)
  unfolding new_set
  new_set-IsArtifactSet xs set h = >>-ok-elim (validate_paths xs) _ h λ valid h₁.
      >>-ok-elim (check_folded codecs [] (sort_by_path xs)) _ h₁ λ distinct h₂.
        subst (λ s. IsArtifactSet s × ((p : GeneratedArtifact → Bool) → count p s ≡ count p xs))
          (ok-inj h₂)
          (
            assembled (sort_by_path xs) (sort_by_path-All _ xs (validate_paths-All xs valid))
                (sort_by_path-InOrder xs) (check_folded-Apart [] (sort_by_path xs) distinct).1,
            λ p. count-sort_by_path p xs,
          )
