-- ===== src/Bench/Identity/PrefixFree.antt =====
-- Writers whose calls can be read back from the front.
use mathlib.Core.List.{append_assoc}
use sim_tooling.Support.{
  ℕ, Bool, String, ◌≡◌, refl, sym, ap₂, ◌∙◌, none, some, List, [], ◌∷◌, ◌++◌, same_key_iff,
  text_order,
}
use sim_tooling.Bench.Serialize.{
  Call, boolean, number, float, text, write_fields, write_option, write_texts, write_parameters,
}
use sim_tooling.Bench.Identity.{
  MetricUnit, nanoseconds, bytes, count, operations_per_second, ratio, MetricDirection,
  lower_is_better, higher_is_better, unit_name, direction_name,
}

unit_name-injective : (a b : MetricUnit) → unit_name a ≡ unit_name b → a ≡ b
unfolding unit_name
unit_name-injective nanoseconds nanoseconds h = refl
unit_name-injective nanoseconds bytes h =
    cc ((same_key_iff (unit_name nanoseconds) (unit_name bytes)).1 h)
unit_name-injective nanoseconds count h =
    cc ((same_key_iff (unit_name nanoseconds) (unit_name count)).1 h)
unit_name-injective nanoseconds operations_per_second h =
    cc ((same_key_iff (unit_name nanoseconds) (unit_name operations_per_second)).1 h)
unit_name-injective nanoseconds ratio h =
    cc ((same_key_iff (unit_name nanoseconds) (unit_name ratio)).1 h)
unit_name-injective bytes nanoseconds h =
    cc ((same_key_iff (unit_name bytes) (unit_name nanoseconds)).1 h)
unit_name-injective bytes bytes h = refl
unit_name-injective bytes count h = cc ((same_key_iff (unit_name bytes) (unit_name count)).1 h)
unit_name-injective bytes operations_per_second h =
    cc ((same_key_iff (unit_name bytes) (unit_name operations_per_second)).1 h)
unit_name-injective bytes ratio h = cc ((same_key_iff (unit_name bytes) (unit_name ratio)).1 h)
unit_name-injective count nanoseconds h =
    cc ((same_key_iff (unit_name count) (unit_name nanoseconds)).1 h)
unit_name-injective count bytes h = cc ((same_key_iff (unit_name count) (unit_name bytes)).1 h)
unit_name-injective count count h = refl
unit_name-injective count operations_per_second h =
    cc ((same_key_iff (unit_name count) (unit_name operations_per_second)).1 h)
unit_name-injective count ratio h = cc ((same_key_iff (unit_name count) (unit_name ratio)).1 h)
unit_name-injective operations_per_second nanoseconds h =
    cc ((same_key_iff (unit_name operations_per_second) (unit_name nanoseconds)).1 h)
unit_name-injective operations_per_second bytes h =
    cc ((same_key_iff (unit_name operations_per_second) (unit_name bytes)).1 h)
unit_name-injective operations_per_second count h =
    cc ((same_key_iff (unit_name operations_per_second) (unit_name count)).1 h)
unit_name-injective operations_per_second operations_per_second h = refl
unit_name-injective operations_per_second ratio h =
    cc ((same_key_iff (unit_name operations_per_second) (unit_name ratio)).1 h)
unit_name-injective ratio nanoseconds h =
    cc ((same_key_iff (unit_name ratio) (unit_name nanoseconds)).1 h)
unit_name-injective ratio bytes h = cc ((same_key_iff (unit_name ratio) (unit_name bytes)).1 h)
unit_name-injective ratio count h = cc ((same_key_iff (unit_name ratio) (unit_name count)).1 h)
unit_name-injective ratio operations_per_second h =
    cc ((same_key_iff (unit_name ratio) (unit_name operations_per_second)).1 h)
unit_name-injective ratio ratio h = refl

direction_name-injective : (a b : MetricDirection) → direction_name a ≡ direction_name b → a ≡ b
unfolding direction_name
direction_name-injective lower_is_better lower_is_better h = refl
direction_name-injective lower_is_better higher_is_better h =
    cc ((same_key_iff (direction_name lower_is_better) (direction_name higher_is_better)).1 h)
direction_name-injective higher_is_better lower_is_better h =
    cc ((same_key_iff (direction_name higher_is_better) (direction_name lower_is_better)).1 h)
direction_name-injective higher_is_better higher_is_better h = refl

module _ {F Value : Type 0} where
  -- What is written can be read back from the front of any calls.
  abbrev pub IsPrefixFree : {A : Type 0} → (A → List (Call F Value)) → Type 0
  IsPrefixFree {A} write =
      (a b : A) (r s : List (Call F Value)) → write a ++ r ≡ write b ++ s → (a ≡ b) × (r ≡ s)

  pub write_option-IsPrefixFree : IsPrefixFree write_option
  unfolding write_option
  write_option-IsPrefixFree none none r s h = (refl, cc)
  write_option-IsPrefixFree none (some b) r s h = cc
  write_option-IsPrefixFree (some a) none r s h = cc
  write_option-IsPrefixFree (some a) (some b) r s h = (cc, cc)

  pub write_texts-IsPrefixFree : IsPrefixFree write_texts
  unfolding write_texts
  write_texts-IsPrefixFree [] [] r s h = (refl, cc)
  write_texts-IsPrefixFree [] (b ∷ bs) r s h = cc
  write_texts-IsPrefixFree (a ∷ as') [] r s h = cc
  write_texts-IsPrefixFree (a ∷ as') (b ∷ bs) r s h =
      let heads : a ≡ b = cc in
      let (tails, rest) = write_texts-IsPrefixFree as' bs r s cc in (ap₂ ◌∷◌ heads tails, rest)

  pub write_parameters-IsPrefixFree : IsPrefixFree write_parameters
  unfolding write_parameters
  write_parameters-IsPrefixFree [] [] r s h = (refl, cc)
  write_parameters-IsPrefixFree [] ((k, v) ∷ bs) r s h = cc
  write_parameters-IsPrefixFree ((k, v) ∷ as') [] r s h = cc
  write_parameters-IsPrefixFree ((k, v) ∷ as') ((l, w) ∷ bs) r s h =
      let names : k ≡ l = cc in
      let values : v ≡ w = cc in
      let (tails, rest) = write_parameters-IsPrefixFree as' bs r s cc in
      (ap₂ ◌∷◌ (ap₂ (λ x y. (x, y)) names values) tails, rest)

  -- A writer after one call, and a writer of one call.
  pub call-IsPrefixFree :
      {A : Type 0} (c : Call F Value) (write : A → List (Call F Value))
      → IsPrefixFree write
      → IsPrefixFree (λ a. c ∷ write a)
  call-IsPrefixFree c write free a b r s h = free a b r s cc

  pub text-IsPrefixFree : IsPrefixFree (λ (x : String). text x ∷ [])
  text-IsPrefixFree a b r s h = (cc, cc)

  pub number-IsPrefixFree : IsPrefixFree (λ (x : ℕ). number x ∷ [])
  number-IsPrefixFree a b r s h = (cc, cc)

  pub boolean-IsPrefixFree : IsPrefixFree (λ (x : Bool). boolean x ∷ [])
  boolean-IsPrefixFree a b r s h = (cc, cc)

  pub float-IsPrefixFree : IsPrefixFree (λ (x : F). float x ∷ [])
  float-IsPrefixFree a b r s h = (cc, cc)

  pub unit-IsPrefixFree : IsPrefixFree (λ (x : MetricUnit). text (unit_name x) ∷ [])
  unfolding unit_name
  unit-IsPrefixFree a b r s h = (unit_name-injective a b cc, cc)

  pub direction-IsPrefixFree : IsPrefixFree (λ (x : MetricDirection). text (direction_name x) ∷ [])
  direction-IsPrefixFree a b r s h = (direction_name-injective a b cc, cc)

  pub tail_of :
      {c d : Call F Value} {r s : List (Call F Value)}
      → (◌≡◌ {A = List (Call F Value)} (c ∷ r) (d ∷ s))
      → r ≡ s
  tail_of h = cc

  -- What the fields of a struct determine.
  abbrev pub Determine :
      {T A : Type 0} → (T → List (String × List (Call F Value))) → (T → A) → Type 0
  Determine {T} fields part =
      (a b : T) (r s : List (Call F Value))
      → write_fields (fields a) ++ r ≡ write_fields (fields b) ++ s
      → (part a ≡ part b) × (r ≡ s)

  pub no_field : {T : Type 0} → Determine {T = T} (λ _. []) (λ _. tt)
  unfolding write_fields
  no_field a b r s h = (refl, cc)

  pub field :
      {T A B : Type 0} (name : String) (write : A → List (Call F Value))
      → IsPrefixFree write
      → (get : T → A) (fields : T → List (String × List (Call F Value))) (part : T → B)
      → Determine fields part
      → Determine {A = A × B} (λ t. (name, write (get t)) ∷ fields t) (λ t. (get t, part t))
  unfolding write_fields
  field {A = A} {B = B} name write free get fields part later a b r s h =
      let rest : (write (get a) ++ write_fields (fields a)) ++ r
          ≡ (write (get b) ++ write_fields (fields b)) ++ s =
        cc in
      let (e, h₁) =
        free (get a) (get b) (write_fields (fields a) ++ r) (write_fields (fields b) ++ s) (
          sym (append_assoc (write (get a)) (write_fields (fields a)) r)
          ∙ (rest ∙ append_assoc (write (get b)) (write_fields (fields b)) s)) in
      let (f, h₂) = later a b r s h₁ in (ap₂ {C = A × B} (λ x y. (x, y)) e f, h₂)
