-- ===== src/Support/Sets.antt =====
-- `BTreeSet`: a strictly increasing list, with the operations that the code calls.
use mathlib.Core.List.{reverse, reverse-append}
use sim_tooling.Support.{
  ◌++◌, count, ◌+◌, ◌≤◌, ◌≡◌, refl, Bool, true, false, not, ◌&&◌, ◌||◌, List, [], ◌∷◌, inl, inr, ap,
  ap₂, sym, subst, ◌∙◌, arith, All, All-imp, Order, same_key, same_key_iff, lt_asymm, if◌then◌else◌,
  Bool-cases,
}

module _ {ℓ} {A : Type ℓ} ⦃o : Order A⦄ where
  unfoldable pub contains : List A → A → Bool
  contains [] a = false
  contains (x ∷ xs) a = same_key a x || contains xs a

  -- `insert` keeps the element that is there.
  unfoldable pub insert : A → List A → List A
  insert a [] = a ∷ []
  insert a (x ∷ xs) =
      let rest = insert a xs in
      if o.lt a x then a ∷ x ∷ xs else if o.lt x a then x ∷ rest else x ∷ xs

  -- `collect`; the order of the insertions does not show.
  unfoldable pub from_list : List A → List A
  from_list [] = []
  from_list (x ∷ xs) = insert x (from_list xs)

  -- `BTreeSet::difference`
  unfoldable pub difference : List A → List A → List A
  difference [] ys = []
  difference (x ∷ xs) ys = let rest = difference xs ys in if contains ys x then rest else x ∷ rest

  abbrev pub IsSorted : List A → Type 0
  IsSorted [] = Unit
  IsSorted (x ∷ xs) = All (λ y. o.lt x y ≡ true) xs × IsSorted xs

  pub contains-nil : (a : A) → contains [] a ≡ false
  unfolding contains
  contains-nil a = refl

  pub contains-cons :
      (x : A) (xs : List A) (a : A) → contains (x ∷ xs) a ≡ (same_key a x || contains xs a)
  unfolding contains
  contains-cons x xs a = refl

  pub contains-append :
      (xs ys : List A) (a : A) → contains (xs ++ ys) a ≡ (contains xs a || contains ys a)
  unfolding contains
  contains-append [] ys a = refl
  contains-append (x ∷ xs) ys a = ground (arith, contains-append xs ys a)

  pub contains-reverse : (xs : List A) (a : A) → contains (reverse xs) a ≡ contains xs a
  unfolding contains
  contains-reverse [] a = refl
  contains-reverse (x ∷ xs) a =
      rw (reverse-append (x ∷ []) xs) (rw contains-append (ground (arith, contains-reverse xs a)))

  pub contains-insert :
      (a b : A) (xs : List A) → contains (insert a xs) b ≡ (same_key b a || contains xs b)
  unfolding contains insert
  contains-insert a b [] = refl
  contains-insert a b (x ∷ xs) =
      ground (arith, contains-insert a b xs, same_key_iff b a, same_key_iff b x, o.lt_connected a x)

  count-insert_le :
      (a : A) (xs ks : List A)
      → count (λ k. not (contains (insert a xs) k)) ks ≤ count (λ k. not (contains xs k)) ks
  count-insert_le a xs [] = omega arith
  count-insert_le a xs (k ∷ ks) = ground (arith, contains-insert a k xs, count-insert_le a xs ks)

  -- An insertion of a new member takes one key off those that are not members.
  pub count-insert :
      (a : A) (xs ks : List A)
      → contains ks a ≡ true
      → contains xs a ≡ false
      → count (λ k. not (contains (insert a xs) k)) ks + 1 ≤ count (λ k. not (contains xs k)) ks
  count-insert a xs [] h n = cc (contains-nil a)
  count-insert a xs (k ∷ ks) h n = elim (Bool-cases (same_key a k)) [
    | inl e ↦ ground (
      arith,
      contains-insert a k xs,
      same_key_iff a k,
      same_key_iff k a,
      ap (contains xs) ((same_key_iff a k).0 e),
      count-insert_le a xs ks,
    )
    | inr e ↦ ground (arith, contains-cons k ks a, contains-insert a k xs, count-insert a xs ks)
  ]

  pub contains-from_list_cons :
      (a b : A) (xs : List A)
      → contains (from_list (a ∷ xs)) b ≡ (same_key b a || contains (from_list xs) b)
  unfolding from_list
  contains-from_list_cons a b xs = contains-insert a b (from_list xs)

  pub contains-from_list : (b : A) (xs : List A) → contains (from_list xs) b ≡ contains xs b
  unfolding from_list contains
  contains-from_list b [] = refl
  contains-from_list b (x ∷ xs) =
      ground (arith, contains-insert x b (from_list xs), contains-from_list b xs)

  contains_of_same_key :
      (b x : A) (ys : List A) → same_key b x ≡ true → contains ys b ≡ contains ys x
  contains_of_same_key b x ys h = ap (contains ys) ((same_key_iff b x).0 h)

  pub contains-difference :
      (b : A) (xs ys : List A)
      → contains (difference xs ys) b ≡ (contains xs b && not (contains ys b))
  unfolding contains difference
  contains-difference b [] ys = refl
  contains-difference b (x ∷ xs) ys =
      ground (
        arith,
        contains_of_same_key b x ys,
        contains-difference b xs ys,
        Bool-cases (contains ys x),
      )

  pub insert-All {κ} : (P : A → Type κ) (a : A) (xs : List A) → P a → All P xs → All P (insert a xs)
  unfolding insert
  insert-All P a [] h hs = (h, tt)
  insert-All P a (x ∷ xs) h hs = ground (arith, insert-All P a xs h)

  pub insert-IsSorted : (a : A) (xs : List A) → IsSorted xs → IsSorted (insert a xs)
  unfolding insert
  insert-IsSorted a [] h = (tt, tt)
  insert-IsSorted a (x ∷ xs) h = elim (Bool-cases (o.lt a x)) [
    | inl below ↦ rw below ((below, All-imp (λ y p. o.lt_trans a x y below p) xs h.0), h)
    | inr not_below ↦ elim (Bool-cases (o.lt x a)) [
      | inl above ↦
          rw (not_below, above)
            (insert-All (λ y. o.lt x y ≡ true) a xs above h.0, insert-IsSorted a xs h.1)
      | inr same ↦ rw (not_below, same) h
    ]
  ]

  pub from_list-IsSorted : (xs : List A) → IsSorted (from_list xs)
  unfolding from_list
  from_list-IsSorted [] = tt
  from_list-IsSorted (x ∷ xs) = insert-IsSorted x (from_list xs) (from_list-IsSorted xs)

  contains-All {κ} : (P : A → Type κ) (a : A) (xs : List A) → All P xs → contains xs a ≡ true → P a
  unfolding contains
  contains-All P a [] h m = cc
  contains-All P a (x ∷ xs) h m = elim (Bool-cases (same_key a x)) [
    | inl e ↦ subst P (sym ((same_key_iff a x).0 e)) h.0
    | inr e ↦ contains-All P a xs h.1 (ground arith)
  ]

  -- The head of a set is its least element.
  least-not-below :
      (a x : A) (xs : List A) → IsSorted (x ∷ xs) → contains (x ∷ xs) a ≡ true → o.lt a x ≡ false
  unfolding contains
  least-not-below a x xs h m = elim (Bool-cases (same_key a x)) [
    | inl e ↦ ground arith
    | inr e ↦ lt_asymm x a (contains-All (λ y. o.lt x y ≡ true) a xs h.0 (ground arith))
  ]

  contains-head : (x : A) (xs : List A) → contains (x ∷ xs) x ≡ true
  unfolding contains
  contains-head x xs = ground (arith, same_key_iff x x)

  not-contains-below : (x : A) (xs : List A) → All (λ y. o.lt x y ≡ true) xs → contains xs x ≡ false
  not-contains-below x xs h = elim (Bool-cases (contains xs x)) [
    | inl m ↦ cc (contains-All (λ y. o.lt x y ≡ true) x xs h m, o.lt_irrefl x)
    | inr n ↦ n
  ]

  -- A tail has the members of its list but the head.
  contains-tail :
      (a x : A) (xs : List A)
      → IsSorted (x ∷ xs)
      → contains xs a ≡ (not (same_key a x) && contains (x ∷ xs) a)
  unfolding contains
  contains-tail a x xs h = elim (Bool-cases (same_key a x)) [
    | inl e ↦ ground (arith, ap (contains xs) ((same_key_iff a x).0 e), not-contains-below x xs h.0)
    | inr e ↦ ground arith
  ]

  -- Sets with the same members are equal.
  pub IsSorted-ext :
      (xs ys : List A)
      → IsSorted xs
      → IsSorted ys
      → ((a : A) → contains xs a ≡ contains ys a)
      → xs ≡ ys
  IsSorted-ext [] [] h k e = refl
  IsSorted-ext [] (y ∷ ys) h k e = cc (contains-nil y, e y, contains-head y ys)
  IsSorted-ext (x ∷ xs) [] h k e = cc (contains-nil x, e x, contains-head x xs)
  IsSorted-ext (x ∷ xs) (y ∷ ys) h k e =
      let heads : x ≡ y =
        o.lt_connected x y (least-not-below x y ys k (sym (e x) ∙ contains-head x xs))
          (least-not-below y x xs h (e y ∙ contains-head y ys)) in
      ap₂ ◌∷◌ heads (
        IsSorted-ext xs ys h.1 k.1 λ a.
          contains-tail a x xs h
          ∙ (ap₂ (λ z b. not (same_key a z) && b) heads (e a) ∙ sym (contains-tail a y ys k)))
