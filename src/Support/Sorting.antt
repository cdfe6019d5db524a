-- ===== src/Support/Sorting.antt =====
-- `slice::sort` and `Vec::dedup`.
use sim_tooling.Support.{
  ◌≡◌, refl, true, false, ◌||◌, List, [], ◌∷◌, inl, inr, ap, sym, subst, ◌∙◌, arith, All, All-imp,
  Order, same_key, same_key_iff, lt_asymm, if◌then◌else◌, Bool-cases,
}
use sim_tooling.Support.Sets
use sim_tooling.Support.Sets.{contains}

module _ {ℓ} {A : Type ℓ} ⦃o : Order A⦄ where
  -- An element goes before the elements that are not less than it.
  abbrev put : A → List A → List A
  put a [] = a ∷ []
  put a (x ∷ xs) = let later = put a xs in if o.lt x a then x ∷ later else a ∷ x ∷ xs

  unfoldable pub sort : List A → List A
  sort [] = []
  sort (x ∷ xs) = put x (sort xs)

  -- An element leaves when the next one is equal.
  unfoldable pub dedup : List A → List A
  dedup [] = []
  dedup (x ∷ []) = x ∷ []
  dedup (x ∷ y ∷ ys) = let later = dedup (y ∷ ys) in if same_key x y then later else x ∷ later

  -- No element is less than an earlier one.
  abbrev Ascending : List A → Type 0
  Ascending [] = Unit
  Ascending (x ∷ xs) = All (λ y. o.lt y x ≡ false) xs × Ascending xs

  put-All : (P : A → Type 0) (a : A) (xs : List A) → P a → All P xs → All P (put a xs)
  put-All P a [] p h = (p, tt)
  put-All P a (x ∷ xs) p h = elim (Bool-cases (o.lt x a)) [
    | inl e ↦ rw e (h.0, put-All P a xs p h.1)
    | inr e ↦ rw e (p, h)
  ]

  pub not_less : (a x y : A) → o.lt x a ≡ false → o.lt y x ≡ false → o.lt y a ≡ false
  not_less a x y h k = elim (Bool-cases (o.lt y a)) [
    | inl e ↦ elim (Bool-cases (o.lt x y)) [
      | inl f ↦ ground (arith, o.lt_trans x y a)
      | inr f ↦ subst (λ z. o.lt z a ≡ false) (o.lt_connected x y f k) h
    ]
    | inr e ↦ e
  ]

  put-Ascending : (a : A) (xs : List A) → Ascending xs → Ascending (put a xs)
  put-Ascending a [] h = (tt, tt)
  put-Ascending a (x ∷ xs) h = elim (Bool-cases (o.lt x a)) [
    | inl e ↦
        rw e (put-All (λ y. o.lt y x ≡ false) a xs (lt_asymm x a e) h.0, put-Ascending a xs h.1)
    | inr e ↦ rw e ((e, All-imp (λ y p. not_less a x y e p) xs h.0), h)
  ]

  sort-Ascending : (xs : List A) → Ascending (sort xs)
  unfolding sort
  sort-Ascending [] = tt
  sort-Ascending (x ∷ xs) = put-Ascending x (sort xs) (sort-Ascending xs)

  dedup-All : (P : A → Type 0) (xs : List A) → All P xs → All P (dedup xs)
  unfolding dedup
  dedup-All P [] h = tt
  dedup-All P (x ∷ []) h = h
  dedup-All P (x ∷ y ∷ ys) h = elim (Bool-cases (same_key x y)) [
    | inl e ↦ rw e (dedup-All P (y ∷ ys) h.1)
    | inr e ↦ rw e (h.0, dedup-All P (y ∷ ys) h.1)
  ]

  -- Between a lesser element and one that is no less, the order is strict.
  less_below : (x y z : A) → o.lt x y ≡ true → o.lt z y ≡ false → o.lt x z ≡ true
  less_below x y z h k = elim (Bool-cases (o.lt x z)) [
    | inl e ↦ e
    | inr e ↦ elim (Bool-cases (o.lt z x)) [
      | inl f ↦ ground (arith, o.lt_trans z x y)
      | inr f ↦ cc (o.lt_connected x z e f)
    ]
  ]

  dedup-IsSorted : (xs : List A) → Ascending xs → Sets.IsSorted (dedup xs)
  unfolding dedup
  dedup-IsSorted [] h = tt
  dedup-IsSorted (x ∷ []) h = (tt, tt)
  dedup-IsSorted (x ∷ y ∷ ys) h = elim (Bool-cases (same_key x y)) [
    | inl e ↦ rw e (dedup-IsSorted (y ∷ ys) h.1)
    | inr e ↦
        let below : o.lt x y ≡ true = ground (arith, h.0.0) in
        rw e (
          dedup-All (λ z. o.lt x z ≡ true) (y ∷ ys)
              (below, All-imp (λ z k. less_below x y z below k) ys h.1.0),
          dedup-IsSorted (y ∷ ys) h.1,
        )
  ]

  contains-put : (a b : A) (xs : List A) → contains (put a xs) b ≡ (same_key b a || contains xs b)
  unfolding contains
  contains-put a b [] = refl
  contains-put a b (x ∷ xs) = ground (arith, contains-put a b xs)

  contains-sort : (b : A) (xs : List A) → contains (sort xs) b ≡ contains xs b
  unfolding sort contains
  contains-sort b [] = refl
  contains-sort b (x ∷ xs) = ground (arith, contains-put x b (sort xs), contains-sort b xs)

  contains-dedup : (b : A) (xs : List A) → contains (dedup xs) b ≡ contains xs b
  unfolding dedup contains
  contains-dedup b [] = refl
  contains-dedup b (x ∷ []) = refl
  contains-dedup b (x ∷ y ∷ ys) = elim (Bool-cases (same_key x y)) [
    | inl e ↦
        rw e (ground (arith, contains-dedup b (y ∷ ys), ap (same_key b) ((same_key_iff x y).0 e)))
    | inr e ↦ rw e (ground (arith, contains-dedup b (y ∷ ys)))
  ]

  pub dedup-sort-IsSorted : (xs : List A) → Sets.IsSorted (dedup (sort xs))
  dedup-sort-IsSorted xs = dedup-IsSorted (sort xs) (sort-Ascending xs)

  pub contains-dedup-sort : (b : A) (xs : List A) → contains (dedup (sort xs)) b ≡ contains xs b
  contains-dedup-sort b xs = contains-dedup b (sort xs) ∙ contains-sort b xs

  -- What `sort` and `dedup` leave depends on the elements alone, not on their order or number.
  pub dedup-sort_ext :
      (xs ys : List A)
      → ((a : A) → contains xs a ≡ contains ys a)
      → dedup (sort xs) ≡ dedup (sort ys)
  dedup-sort_ext xs ys h =
      Sets.IsSorted-ext (dedup (sort xs)) (dedup (sort ys)) (dedup-sort-IsSorted xs)
        (dedup-sort-IsSorted ys)
        λ a. contains-dedup-sort a xs ∙ (h a ∙ sym (contains-dedup-sort a ys))
