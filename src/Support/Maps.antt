-- ===== src/Support/Maps.antt =====
-- `BTreeMap`: an association list in key order, with the operations that the code calls.
use mathlib.Core.List.{head-eq_of_cons-eq, tail-eq_of_cons-eq}
use sim_tooling.Support.{
  Bool-cases, inl, inr, ◌≡◌, refl, Bool, true, false, Option, none, some, List, [], ◌∷◌, arith,
  Order, same_key, same_key_iff, if◌then◌else◌, ◌++◌, All, lt_asymm, sym, subst, ap, ◌∙◌,
}
use sim_tooling.Support.Sets

abbrev pub Map {ℓ κ} : Type ℓ → Type κ → Type (ℓ ⊔ κ)
Map K V = List (K × V)

module _ {ℓ κ} {K : Type ℓ} {V : Type κ} ⦃o : Order K⦄ where
  unfoldable pub get : Map K V → K → Option V
  get [] k = none
  get ((j, v) ∷ m) k = if same_key k j then some v else get m k

  unfoldable pub insert : K → V → Map K V → Map K V
  insert k v [] = (k, v) ∷ []
  insert k v ((j, w) ∷ m) =
      let rest = insert k v m in
      if o.lt k j then (k, v) ∷ (j, w) ∷ m else if o.lt j k then (j, w) ∷ rest else (j, v) ∷ m

  pub remove : Map K V → K → Map K V
  remove [] k = []
  remove ((j, w) ∷ m) k = let rest = remove m k in if same_key k j then rest else (j, w) ∷ rest

  unfoldable pub contains_key : Map K V → K → Bool
  contains_key m k = elim (get m k) [ none ↦ false | some _ ↦ true ]

  abbrev pub keys : Map K V → List K
  keys [] = []
  keys ((k, v) ∷ m) = k ∷ keys m

  abbrev pub values : Map K V → List V
  values [] = []
  values ((k, v) ∷ m) = v ∷ values m

  pub contains_key_iff : (m : Map K V) (k : K) → contains_key m k ≡ Sets.contains (keys m) k
  unfolding contains_key get
  contains_key_iff [] k = rw Sets.contains-nil
  contains_key_iff ((j, v) ∷ m) k =
      ground (arith, Sets.contains-cons j (keys m) k, contains_key_iff m k)

  pub get-eq-some : (m : Map K V) (k : K) → contains_key m k ≡ true → (v : V) × (get m k ≡ some v)
  unfolding contains_key
  get-eq-some m k h = ground arith

  pub contains_key-get : (m : Map K V) (k : K) (v : V) → get m k ≡ some v → contains_key m k ≡ true
  unfolding contains_key
  contains_key-get m k v h = ground arith

  pub get-insert :
      (k j : K) (v : V) (m : Map K V)
      → get (insert k v m) j ≡ (if same_key j k then some v else get m j)
  unfolding get insert
  get-insert k j v [] = refl
  get-insert k j v ((i, w) ∷ m) =
      ground (arith, get-insert k j v m, same_key_iff j k, same_key_iff j i, o.lt_connected k i)

  pub get-remove :
      (k j : K) (m : Map K V) → get (remove m k) j ≡ (if same_key j k then none else get m j)
  unfolding get remove
  get-remove k j [] = ground arith
  get-remove k j ((i, w) ∷ m) =
      ground (arith, get-remove k j m, same_key_iff j k, same_key_iff j i, same_key_iff k i)

  -- A key above all others goes to the end.
  pub insert_last :
      (k : K) (v : V) (m : Map K V)
      → All (λ j. o.lt j k ≡ true) (keys m)
      → insert k v m ≡ (m ++ ((k, v) ∷ []))
  unfolding insert
  insert_last k v [] h = refl
  insert_last k v ((j, w) ∷ m) h = rw (insert_last k v m h.1, lt_asymm j k h.0, h.0) refl

  pub keys-insert : (k : K) (v : V) (m : Map K V) → keys (insert k v m) ≡ Sets.insert k (keys m)
  unfolding insert Sets.insert
  keys-insert k v [] = refl
  keys-insert k v ((j, w) ∷ m) = ground (arith, keys-insert k v m)

  pub insert-IsSorted :
      (k : K) (v : V) (m : Map K V) → Sets.IsSorted (keys m) → Sets.IsSorted (keys (insert k v m))
  insert-IsSorted k v m h = rw keys-insert (Sets.insert-IsSorted k (keys m) h)

  get_below : (k : K) (m : Map K V) → All (λ j. o.lt k j ≡ true) (keys m) → get m k ≡ none
  unfolding get
  get_below k [] h = refl
  get_below k ((j, v) ∷ m) h = ground (arith, get_below k m h.1, h.0)

  pub get-eq_contains :
      (k : K) (m n : Map K V)
      → get m k ≡ get n k
      → Sets.contains (keys m) k ≡ Sets.contains (keys n) k
  unfolding contains_key
  get-eq_contains k m n h =
      sym (contains_key_iff m k)
      ∙ (ap (λ r. elim r as (λ x. Bool) [ none ↦ false | some x ↦ true ]) h ∙ contains_key_iff n k)

  -- A tail has the values of its map but the head's.
  pub get-tail :
      (i j : K) (v : V) (m : Map K V)
      → All (λ k. o.lt j k ≡ true) (keys m)
      → get m i ≡ (if same_key i j then none else get ((j, v) ∷ m) i)
  unfolding get
  get-tail i j v m h = elim (Bool-cases (same_key i j)) [
    | inl e ↦ rw e (ap (get m) ((same_key_iff i j).0 e) ∙ get_below j m h)
    | inr e ↦ rw e refl
  ]

  pub get-head : (j : K) (v : V) (m : Map K V) → get ((j, v) ∷ m) j ≡ some v
  unfolding get
  get-head j v m = rw ((same_key_iff j j).1 refl) refl

  same_keys-ext :
      (m n : Map K V)
      → Sets.IsSorted (keys m)
      → keys m ≡ keys n
      → ((k : K) → get m k ≡ get n k)
      → m ≡ n
  unfolding get
  same_keys-ext [] [] sorted e h = refl
  same_keys-ext [] ((k, w) ∷ n) sorted e h = cc
  same_keys-ext ((j, v) ∷ m) [] sorted e h = cc
  same_keys-ext ((j, v) ∷ m) ((k, w) ∷ n) sorted e h =
      let heads : j ≡ k = head-eq_of_cons-eq e in
      let values : v ≡ w = cc (get-head j v m, h j, get-head k w n, heads) in
      let tails : m ≡ n = same_keys-ext m n sorted.1 (tail-eq_of_cons-eq e) λ i. cc (
        get-tail i j v m sorted.0,
        get-tail i k w n (subst Sets.IsSorted e sorted).0,
        ap (same_key i) heads,
        h i,
      ) in
      cc

  -- Maps with the same value at each key are equal.
  pub IsSorted-ext :
      (m n : Map K V)
      → Sets.IsSorted (keys m)
      → Sets.IsSorted (keys n)
      → ((k : K) → get m k ≡ get n k)
      → m ≡ n
  IsSorted-ext m n sorted sorted' h =
      same_keys-ext m n sorted
        (Sets.IsSorted-ext (keys m) (keys n) sorted sorted' (λ k. get-eq_contains k m n (h k))) h

  pub get-nil : (k : K) → ◌≡◌ {A = Option V} (get [] k) none
  unfolding get
  get-nil k = refl
