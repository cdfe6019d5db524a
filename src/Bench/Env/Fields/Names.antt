-- ===== src/Bench/Env/Fields/Names.antt =====
-- The names of the fields, and the policy that a list of names builds.
use sim_tooling.Support.{
  String, ◌≡◌, ◌≢◌, ◌↔◌, ◌⊎◌, inl, inr, refl, sym, subst, ◌∙◌, ap, ◌||◌, none, some, List, [], ◌∷◌,
  ◌++◌, ok, err, same_key_iff, text_order, arith, Option-cases, List-cases,
}
use mathlib.Core.List.{append-nil, append_assoc}
use sim_tooling.Support.Sets
use sim_tooling.Support.Sets.{contains}
use sim_tooling.Bench.Env.Fields.{
  EnvironmentField, host_inventory_id, name, all_fields, named_in, field_named, collect,
  from_required_names, field_order,
}

named_in_sound :
    (fs : List EnvironmentField) (n : String) (f : EnvironmentField)
    → named_in fs n ≡ some f
    → name f ≡ n
unfolding named_in
named_in_sound [] n f h = cc
named_in_sound (g ∷ fs) n f h = ground (arith, same_key_iff (name g) n, named_in_sound fs n f)

field_named-name : (f : EnvironmentField) → field_named (name f) ≡ some f
unfolding field_named
field_named-name host_inventory_id = refl
field_named-name _ = refl

-- The stable names are unambiguous: `field_named` finds a field by a name exactly when the name is
-- that field's.
pub field_named_iff : (n : String) (f : EnvironmentField) → (field_named n ≡ some f) ↔ (name f ≡ n)
field_named_iff n f =
    (unfold field_named in named_in_sound all_fields n f, λ e. rw (← e) (field_named-name f))

-- The names that no field has, in their order.
abbrev pub unknown : List String → List String
unknown [] = []
unknown (n ∷ ns) = elim (field_named n) [ some _ ↦ unknown ns | none ↦ n ∷ unknown ns ]

unknown-new :
    (n : String) (ns : List String) → field_named n ≡ none → unknown (n ∷ ns) ≡ n ∷ unknown ns
unknown-new n ns e = rw (e, unknown)

unknown-known :
    (n : String) (ns : List String) {f : EnvironmentField}
    → field_named n ≡ some f
    → unknown (n ∷ ns) ≡ unknown ns
unknown-known n ns e = rw (e, unknown)

-- The set `required'` extends `required` by the fields that `ns` names.
pub record Extends (required : List EnvironmentField) (ns : List String)
    (required' : List EnvironmentField) : Type 0 where
  pub sorted : Sets.IsSorted required'
  pub members :
      (f : EnvironmentField) → contains required' f ≡ (contains required f || contains ns (name f))

collect_refuses :
    (required : List EnvironmentField) (errors ns : List String)
    → errors ++ unknown ns ≢ []
    → collect required errors ns ≡ err (errors ++ unknown ns)
unfolding collect
collect_refuses required [] [] n = absurd (n refl)
collect_refuses required (x ∷ errors) [] n = rw append-nil
collect_refuses required errors (m ∷ ns) n = elim (Option-cases (field_named m)) [
  | inl e ↦
      let regroup : (errors ++ m ∷ []) ++ unknown ns ≡ errors ++ unknown (m ∷ ns) =
        append_assoc errors (m ∷ []) (unknown ns)
        ∙ ap (λ l. errors ++ l) (sym (unknown-new m ns e)) in
      rw (e, collect)
        (subst (λ l. collect required (errors ++ m ∷ []) ns ≡ err l) regroup
          (collect_refuses required (errors ++ m ∷ []) ns (λ z. n (sym regroup ∙ z))))
  | inr (f, e) ↦
      let known : unknown (m ∷ ns) ≡ unknown ns = unknown-known m ns e in
      rw (e, collect)
        (rw known (collect_refuses (Sets.insert f required) errors ns (λ z. n (rw known z))))
]

collect_accepts :
    (required : List EnvironmentField) (ns : List String)
    → Sets.IsSorted required
    → unknown ns ≡ []
    → (required' : List EnvironmentField) × (collect required [] ns ≡ ok required')
      × Extends required ns required'
unfolding collect
collect_accepts required [] s e = (
  required,
  refl,
  record { sorted = s; members = λ f. ground (arith, Sets.contains-nil (name f)) },
)
collect_accepts required (n ∷ ns) s e = elim (Option-cases (field_named n)) [
  | inl gone ↦ absurd (ground arith)
  | inr (g, found) ↦
      let (required', ends, x) =
        collect_accepts (Sets.insert g required) ns (Sets.insert-IsSorted g required s)
          (sym (unknown-known n ns found) ∙ e) in
      (
        required',
        rw (found, collect) ends,
        record {
          sorted = x.sorted;
          members = λ f. ground (
            arith,
            x.members f,
            Sets.contains-insert g f required,
            Sets.contains-cons n ns (name f),
            same_key_iff (name f) n,
            same_key_iff f g,
            field_named_iff n f,
            field_named_iff n g,
            found,
          );
        },
      )
]

-- Either every name is a field's, and `from_required_names` returns the ordered set of exactly the
-- fields that are named, or some names are unknown, and it reports all of those in their order.
pub from_required_names_lem :
    (ns : List String)
    → ((unknown ns ≡ [])
        × ((required : List EnvironmentField) × (from_required_names ns ≡ ok required)
            × Sets.IsSorted required
            × ((f : EnvironmentField) → contains required f ≡ contains ns (name f))))
      ⊎ ((unknown ns ≢ []) × (from_required_names ns ≡ err (unknown ns)))
unfolding from_required_names
from_required_names_lem ns = elim (List-cases (unknown ns)) [
  | inl e ↦
      let (required, ends, x) = collect_accepts [] ns tt e in
      inl (e, (required, ends, x.sorted, λ f. x.members f ∙ rw Sets.contains-nil))
  | inr (n, rest, e) ↦
      let some_left : unknown ns ≢ [] = λ z. ground arith in
      inr (some_left, collect_refuses [] [] ns some_left)
]
