-- ===== src/Overlap/Coverage/Reachable.antt =====
-- When an anchor is reachable from the features of an index.
use mathlib.Core.Option.{some_inj}
use sim_tooling.Support.{
  String, ◌≡◌, refl, sym, ap, ◌∙◌, ◌↔◌, ◌⊎◌, inl, inr, Bool, true, false, not, ◌||◌, Option, none,
  some, List, [], ◌∷◌, if◌then◌else◌, same_key, same_key_iff, text_order, Bool-cases, Option-cases,
  List-cases, subst,
}
use sim_tooling.Support.Sets
use sim_tooling.Support.Maps
use sim_tooling.Support.Maps.{Map}
use sim_tooling.Overlap.Coverage.{
  CoveragePolicy, FeatureRecord, IndexDoc, collect_owners, from_doc, any_owned,
  feature_mentions_subject, features_for_subject, claims, is_nil, is_reachable,
}

-- An element of the list satisfies the predicate.
pub data Any {A : Type 0} (P : A → Type 0) : List A → Type 0 where
  here : {x : A} {xs : List A} → P x → Any P (x ∷ xs)
  there : {x : A} {xs : List A} → Any P xs → Any P (x ∷ xs)

abbrev or_else : Option String → Option String → Option String
or_else none b = b
or_else (some a) b = some a

-- The subject of the last entry of that id.
abbrev pub last_subject : List (String × String) → String → Option String
last_subject [] id = none
last_subject ((i, subject) ∷ rest) id =
    or_else (last_subject rest id) (if same_key id i then some subject else none)

get-collect_owners :
    (owners : Map String String) (entries : List (String × String)) (id : String)
    → Maps.get (collect_owners owners entries) id
      ≡ or_else (last_subject entries id) (Maps.get owners id)
unfolding collect_owners
get-collect_owners owners [] id = refl
get-collect_owners owners ((i, subject) ∷ rest) id =
    get-collect_owners (Maps.insert i subject owners) rest id
    ∙ elim (Option-cases (last_subject rest id)) [
      | inr (s, e) ↦ rw e refl
      | inl e ↦ elim (Bool-cases (same_key id i)) [
        | inl f ↦ rw (e, Maps.get-insert i id subject owners, f) refl
        | inr f ↦ rw (e, Maps.get-insert i id subject owners, f) refl
      ]
    ]

or_else-none : (a : Option String) → or_else a none ≡ a
or_else-none none = refl
or_else-none (some a) = refl

owner_lem :
    (entries : List (String × String)) (id : String)
    → Maps.get (collect_owners [] entries) id ≡ last_subject entries id
owner_lem entries id =
    get-collect_owners [] entries id
    ∙ rw (Maps.get-nil {V = String} id) (or_else-none (last_subject entries id))

or_iff : {B C : Type 0} (b c : Bool) → (b ≡ true) ↔ B → (c ≡ true) ↔ C → ((b || c) ≡ true) ↔ (B ⊎ C)
or_iff true c f g = (λ _. inl (f.0 refl), λ _. refl)
or_iff false c f g = (λ h. inr (g.0 h), λ h. elim h [ inl x ↦ cc (f.1 x) | inr y ↦ g.1 y ])

Any-iff :
    {A : Type 0} (P : A → Type 0) (x : A) (xs : List A) (b c : Bool)
    → (b ≡ true) ↔ P x
    → (c ≡ true) ↔ Any P xs
    → ((b || c) ≡ true) ↔ Any P (x ∷ xs)
Any-iff P x xs b c f g =
    let (to, from) = or_iff b c f g in
    (
      λ h. elim (to h) [ inl p ↦ here p | inr later ↦ there later ],
      λ h. from (elim h [ here p ↦ inl p | there later ↦ inr later ]),
    )

none_iff : {A : Type 0} (P : A → Type 0) → (false ≡ true) ↔ Any P []
none_iff P = (λ h. cc, λ h. elim h [ ])

owned_iff :
    (o : Option String) (subject : String)
    → (elim o [ none ↦ false | some owner ↦ same_key owner subject ] ≡ true) ↔ (o ≡ some subject)
owned_iff none subject = (λ h. cc, λ h. cc)
owned_iff (some owner) subject = (
  λ h. ap some ((same_key_iff owner subject).0 h),
  λ h. (same_key_iff owner subject).1 (some_inj.0 h),
)

any_owned_iff :
    (entries : List (String × String)) (subject : String) (ids : List String)
    → (any_owned (collect_owners [] entries) subject ids ≡ true)
      ↔ Any (λ id. last_subject entries id ≡ some subject) ids
unfolding any_owned
any_owned_iff entries subject [] = none_iff _
any_owned_iff entries subject (id ∷ ids) =
    Any-iff (λ id. last_subject entries id ≡ some subject) id ids _ _
      (rw (owner_lem entries id) (owned_iff (last_subject entries id) subject))
      (any_owned_iff entries subject ids)

module _ (doc : IndexDoc) where
  -- The feature is of the subject, or it has an anchor, a surface or a specimen of the subject.
  abbrev pub IsMentioned : String → FeatureRecord → Type 0
  IsMentioned subject f =
      (f.subject ≡ subject)
      ⊎ (Any (λ id. last_subject doc.anchors id ≡ some subject) f.anchors
          ⊎ (Any (λ id. last_subject doc.surfaces id ≡ some subject) f.surfaces
              ⊎ Any (λ id. last_subject doc.specimens id ≡ some subject) f.specimens))

  feature_mentions_subject_iff :
      (subject : String) (f : FeatureRecord)
      → (feature_mentions_subject f (from_doc doc) subject ≡ true) ↔ IsMentioned subject f
  unfolding feature_mentions_subject from_doc
  feature_mentions_subject_iff subject f = or_iff _ _ (same_key_iff f.subject subject) (
      or_iff _ _ (any_owned_iff doc.anchors subject f.anchors) (
        or_iff _ _ (any_owned_iff doc.surfaces subject f.surfaces)
          (any_owned_iff doc.specimens subject f.specimens)))

  insert_not_nil : (a : String) (xs : List String) → is_nil (Sets.insert a xs) ≡ false
  insert_not_nil a xs = elim (List-cases (Sets.insert a xs)) [
    | inl e ↦ cc (
      Sets.contains-nil a,
      ap (λ ys. Sets.contains ys a) e,
      Sets.contains-insert a a xs,
      (same_key_iff a a).1 refl,
    )
    | inr (x, rest, e) ↦ rw e refl
  ]

  features_for_subject-cons :
      (subject : String) (f : FeatureRecord) (fs : List FeatureRecord)
      → not (is_nil (features_for_subject (f ∷ fs) (from_doc doc) subject)) ≡ (
          feature_mentions_subject f (from_doc doc) subject
          || not (is_nil (features_for_subject fs (from_doc doc) subject)))
  unfolding features_for_subject
  features_for_subject-cons subject f fs =
      elim (Bool-cases (feature_mentions_subject f (from_doc doc) subject)) [
        | inl e ↦ rw (e, insert_not_nil f.id (features_for_subject fs (from_doc doc) subject)) refl
        | inr e ↦ rw e refl
      ]

  features_for_subject-nil :
      (subject : String)
      → (not (is_nil (features_for_subject [] (from_doc doc) subject)) ≡ true)
        ↔ Any (IsMentioned subject) []
  unfolding features_for_subject
  features_for_subject-nil subject = none_iff _

  features_for_subject_iff :
      (subject : String) (fs : List FeatureRecord)
      → (not (is_nil (features_for_subject fs (from_doc doc) subject)) ≡ true)
        ↔ Any (IsMentioned subject) fs
  features_for_subject_iff subject [] = features_for_subject-nil subject
  features_for_subject_iff subject (f ∷ fs) = rw (features_for_subject-cons subject f fs) (
      Any-iff (IsMentioned subject) f fs _ _ (feature_mentions_subject_iff subject f)
        (features_for_subject_iff subject fs))

  claims_iff :
      (anchor : String) (fs : List FeatureRecord)
      → (Sets.contains (claims fs) anchor ≡ true)
        ↔ Any (λ f. Sets.contains f.anchors anchor ≡ true) fs
  unfolding claims
  claims_iff anchor [] = rw (Sets.contains-nil anchor) (none_iff _)
  claims_iff anchor (f ∷ fs) = rw (Sets.contains-append f.anchors (claims fs) anchor) (
      Any-iff (λ f. Sets.contains f.anchors anchor ≡ true) f fs _ _ (λ h. h, λ h. h)
        (claims_iff anchor fs))

  -- A feature claims the anchor, or the last entry of the anchor has a subject that a feature
  -- mentions.
  abbrev pub IsReachable : String → Type 0
  IsReachable anchor =
      Any (λ f. Sets.contains f.anchors anchor ≡ true) doc.features
      ⊎ ((subject : String) × (last_subject doc.anchors anchor ≡ some subject)
          × Any (IsMentioned subject) doc.features)

  subject_iff :
      (o : Option String)
      → (elim o [
        | none ↦ false
        | some subject ↦ not (is_nil (features_for_subject doc.features (from_doc doc) subject))
      ]
          ≡ true)
        ↔ ((subject : String) × (o ≡ some subject) × Any (IsMentioned subject) doc.features)
  subject_iff none = (λ h. cc, λ (s, e, _). cc e)
  subject_iff (some subject) = (
    λ h. (subject, refl, (features_for_subject_iff subject doc.features).0 h),
    λ (s, e, found).
        (features_for_subject_iff subject doc.features).1
          (subst (λ x. Any (IsMentioned x) doc.features) (sym (some_inj.0 e)) found),
  )

  -- An anchor is reachable exactly when a feature claims it, or when the last entry of the anchor
  -- gives it a subject that a feature is of, or of which a feature has an anchor, a surface or a
  -- specimen, each by its last entry.
  pub is_reachable_iff :
      (policy : CoveragePolicy) (anchor : String)
      → (is_reachable doc policy anchor ≡ true) ↔ IsReachable anchor
  unfolding is_reachable
  is_reachable_iff policy anchor =
      rw (Sets.contains-from_list anchor (claims doc.features), owner_lem doc.anchors anchor)
        (or_iff _ _ (claims_iff anchor doc.features)
          (subject_iff (last_subject doc.anchors anchor)))
