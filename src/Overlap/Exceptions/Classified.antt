-- ===== src/Overlap/Exceptions/Classified.antt =====
-- What the read exceptions satisfy, and which clusters they can be applied to.
use sim_tooling.Support.{
  ℕ, suc, String, ◌≡◌, ◌↔◌, refl, sym, ap, subst, ◌∙◌, Bool, true, false, not, ◌||◌, Option, none,
  some, List, [], ◌∷◌, Result, ok, err, refuse_if, refuse_if-ok, if◌then◌else◌, same_key,
  same_key_iff, text_order, Bool-cases, List-cases, inl, inr, arith, >>=-ok-elim, ok-inj, Pointwise,
  map_iff,
}
use sim_tooling.Support.Sets
use sim_tooling.Support.Maps
use sim_tooling.Support.Maps.{Map}
use sim_tooling.Support.Text.{is_blank, split, starts_with, lines}
use sim_tooling.Overlap.Exceptions.Marked.{IsClassifiedBy, classify_cluster_iff}
use sim_tooling.Overlap.Exceptions.{
  StructuralException, CloneCluster, parse, is_structural_cluster, is_admitted, read_fields,
  read_line, read_lines, read, current, stale, classify_cluster, classify,
}

-- A structural cluster of that name is there.
pub data Present (k : String) : List CloneCluster → Type 0 where
  here :
      {c : CloneCluster} {cs : List CloneCluster}
      → c.id ≡ k
      → is_structural_cluster k ≡ true
      → Present k (c ∷ cs)
  there : {c : CloneCluster} {cs : List CloneCluster} → Present k cs → Present k (c ∷ cs)

Present-current :
    (k : String) (cs : List CloneCluster) → Sets.contains (current cs) k ≡ true → Present k cs
unfolding current
Present-current k [] h = cc (Sets.contains-nil k)
Present-current k (c ∷ cs) h = elim (Bool-cases (is_structural_cluster c.id)) [
  | inl e ↦ elim (Bool-cases (same_key k c.id)) [
    | inl f ↦ let same : k ≡ c.id = (same_key_iff k c.id).0 f in here (sym same) (rw same e)
    | inr f ↦
        there (Present-current k cs (ground (arith, h, Sets.contains-insert c.id k (current cs))))
  ]
  | inr e ↦ there (Present-current k cs (rw e at h))
]

current-Present :
    (k : String) (cs : List CloneCluster) → Present k cs → Sets.contains (current cs) k ≡ true
unfolding current
current-Present k [] h = elim h [ ]
current-Present k (c ∷ cs) (here same structural) = ground (
  arith,
  Sets.contains-insert c.id k (current cs),
  same_key_iff k c.id,
  ap is_structural_cluster same,
  sym same,
)
current-Present k (c ∷ cs) (there later) =
    ground (arith, Sets.contains-insert c.id k (current cs), current-Present k cs later)

stale_nil :
    (present ks : List String)
    → stale present ks ≡ []
    → (k : String) → Sets.contains ks k ≡ true
    → Sets.contains present k ≡ true
unfolding stale
stale_nil present [] h k m = cc (Sets.contains-nil k)
stale_nil present (j ∷ ks) h k m = elim (Bool-cases (Sets.contains present j)) [
  | inl e ↦ elim (Bool-cases (same_key k j)) [
    | inl f ↦ rw ((same_key_iff k j).0 f) e
    | inr f ↦ stale_nil present ks (rw e at h) k (ground (arith, m, f, Sets.contains-cons j ks k))
  ]
  | inr e ↦ cc (rw e at h)
]

nil_stale :
    (present ks : List String)
    → ((k : String) → Sets.contains ks k ≡ true → Sets.contains present k ≡ true)
    → stale present ks ≡ []
unfolding stale
nil_stale present [] h = refl
nil_stale present (j ∷ ks) h =
    let fresh : Sets.contains present j ≡ true =
      h j (ground (arith, Sets.contains-cons j ks j, same_key_iff j j)) in
    rw fresh (nil_stale present ks (λ k m. h k (ground (arith, m, Sets.contains-cons j ks k))))

-- `classify` returns clusters exactly when each exception names a structural cluster that is there;
-- then the clusters are the given ones in their order, each classified by the exception of its name,
-- and unchanged where it has none.
pub classify_iff :
    (entries : Map String StructuralException) (clusters after : List CloneCluster)
    → (classify entries clusters ≡ ok after) ↔ (
        ((k : String) → Maps.contains_key entries k ≡ true → Present k clusters)
        × Pointwise (λ c. IsClassifiedBy (Maps.get entries c.id) c) clusters after)
unfolding classify
classify_iff entries clusters after = (
  λ h. elim (List-cases (stale (current clusters) (Maps.keys entries))) [
    | inl e ↦ (
      λ k m. Present-current k clusters (
          stale_nil (current clusters) (Maps.keys entries) e k
            (sym (Maps.contains_key_iff entries k) ∙ m)),
      (map_iff (λ c. IsClassifiedBy (Maps.get entries c.id) c) (classify_cluster entries)
            (classify_cluster_iff entries) clusters after).0
          (ok-inj (rw e at h)),
    )
    | inr (x, xs, e) ↦ cc (rw e at h)
  ],
  λ (h, classified).
      let none_stale =
        nil_stale (current clusters) (Maps.keys entries)
          λ k m. current-Present k clusters (h k (Maps.contains_key_iff entries k ∙ m)) in
      rw none_stale (
        ap ok (
          (map_iff (λ c. IsClassifiedBy (Maps.get entries c.id) c) (classify_cluster entries)
              (classify_cluster_iff entries) clusters after).1
            classified)),
)

-- What each exception that was read satisfies.
pub record IsSound (k : String) (e : StructuralException) : Type 0 where
  pub structural : is_structural_cluster k ≡ true
  pub admitted : is_admitted e.classification ≡ true
  pub owned : is_blank e.owner ≡ false
  pub explained : is_blank e.reason ≡ false

abbrev AllSound : Map String StructuralException → Type 0
AllSound entries =
    (k : String) (e : StructuralException) → Maps.get entries k ≡ some e → IsSound k e

insert-AllSound :
    (key : String) (new : StructuralException) (entries : Map String StructuralException)
    → IsSound key new
    → AllSound entries
    → AllSound (Maps.insert key new entries)
insert-AllSound key new entries fresh s k e found = elim (Bool-cases (same_key k key)) [
  | inl same ↦
      let found' : (if same_key k key then some new else Maps.get entries k) ≡ some e =
        sym (Maps.get-insert key k new entries) ∙ found in
      let it : new ≡ e = cc (rw same at found') in
      subst (λ x. IsSound k x) it
        (subst (λ x. IsSound x new) (sym ((same_key_iff k key).0 same)) fresh)
  | inr other ↦
      let found' : (if same_key k key then some new else Maps.get entries k) ≡ some e =
        sym (Maps.get-insert key k new entries) ∙ found in
      s k e (rw other at found')
]

read_fields-AllSound :
    (number : ℕ) (entries after : Map String StructuralException) (fields : List String)
    → AllSound entries
    → read_fields number entries fields ≡ ok after
    → AllSound after
unfolding read_fields
read_fields-AllSound number entries after
      (cluster ∷ repo ∷ source_path ∷ symbol ∷ classification ∷ owner ∷ reason ∷ []) s h =
    elim (Bool-cases (is_structural_cluster cluster)) [
      | inr e ↦ subst AllSound (ok-inj (rw e at h)) s
      | inl structural ↦
          >>=-ok-elim
            (refuse_if
              (not (same_key repo "@cluster")
                || (not (same_key source_path "@cluster") || not (same_key symbol "@cluster")))
              _)
            _ (rw structural at h)
            λ _ _ h₁. >>=-ok-elim (parse classification) _ h₁ λ c _ h₂.
              >>=-ok-elim (refuse_if (not (is_admitted c)) _) _ h₂ λ _ admitted h₃.
                >>=-ok-elim (refuse_if (is_blank owner || is_blank reason) _) _ h₃ λ _ explained h₄.
                  >>=-ok-elim (refuse_if (Maps.contains_key entries cluster) _) _ h₄ λ _ _ h₅.
                    let fair = refuse_if-ok (is_blank owner || is_blank reason) _ explained in
                    let owned : is_blank owner ≡ false = ground (arith, fair) in
                    let reasoned : is_blank reason ≡ false = ground (arith, fair) in
                    let classified : is_admitted c ≡ true =
                      ground (arith, refuse_if-ok (not (is_admitted c)) _ admitted) in
                    subst AllSound (ok-inj h₅) (
                      insert-AllSound cluster _ entries
                        (record {
                          structural = structural;
                          admitted = classified;
                          owned = owned;
                          explained = reasoned;
                        })
                        s)
    ]
read_fields-AllSound number entries after _ s h = cc

read_line-AllSound :
    (number : ℕ) (entries after : Map String StructuralException) (raw : String)
    → AllSound entries
    → read_line number entries raw ≡ ok after
    → AllSound after
unfolding read_line
read_line-AllSound number entries after raw s h =
    elim (Bool-cases (is_blank raw || starts_with raw "#")) [
      | inl e ↦ subst AllSound (ok-inj (rw e at h)) s
      | inr e ↦ read_fields-AllSound number entries after (split 9 raw) s (rw e at h)
    ]

read_lines-AllSound :
    (number : ℕ) (entries after : Map String StructuralException) (raws : List String)
    → AllSound entries
    → read_lines number entries raws ≡ ok after
    → AllSound after
unfolding read_lines
read_lines-AllSound number entries after [] s h = subst AllSound (ok-inj h) s
read_lines-AllSound number entries after (raw ∷ rest) s h =
    >>=-ok-elim (read_line number entries raw) _ h λ entries' first h₁.
      read_lines-AllSound (suc number) entries' after rest
        (read_line-AllSound number entries entries' raw s first) h₁

no_entry : AllSound []
unfolding Maps.get
no_entry k e found = cc

-- Every exception that `read` returns is of a structural cluster, is classified as kept or
-- delegated, and names an owner and a reason.
pub read-IsSound :
    (file : Option (Result String String)) (strict : Bool)
    (entries : Map String StructuralException)
    → read file strict ≡ ok entries
    → (k : String) (e : StructuralException) → Maps.get entries k ≡ some e
    → IsSound k e
unfolding read
read-IsSound none true entries h = cc
read-IsSound none false entries h = subst AllSound (ok-inj h) no_entry
read-IsSound (some (ok text)) strict entries h =
    read_lines-AllSound 1 [] entries (lines text) no_entry h
read-IsSound (some (err x)) strict entries h = cc
