-- ===== src/Overlap/Exceptions/Marked.antt =====
-- What an exception does to a cluster and its members.
use sim_tooling.Support.{
  String, ◌≡◌, ◌↔◌, refl, subst, false, Option, none, some, if◌then◌else◌, same_key, same_key_iff,
  text_order, Bool-cases, inl, inr, ◌⊎◌, Pointwise, map_iff, Option-cases,
}
use sim_tooling.Support.Maps
use sim_tooling.Support.Maps.{Map}
use sim_tooling.Overlap.Exceptions.{
  StructuralException, OverlapMember, CloneCluster, classify_member, classify_cluster,
}

-- The member under the exception: its classification and its reason are the exception's, its owner
-- is the exception's but for `member-owned`, and nothing else changes.
pub record IsMarked (e : StructuralException) (m n : OverlapMember) : Type 0 where
  pub classification : e.classification ≡ n.classification
  pub reason : some e.reason ≡ n.reason
  pub owner :
      ((e.owner ≡ "member-owned") × (m.owner ≡ n.owner))
      ⊎ ((same_key e.owner "member-owned" ≡ false) × (e.owner ≡ n.owner))
  pub repo : m.repo ≡ n.repo
  pub path : m.path ≡ n.path
  pub line : m.line ≡ n.line
  pub symbol : m.symbol ≡ n.symbol
  pub anchor : m.anchor ≡ n.anchor
  pub fingerprint_reason : m.fingerprint_reason ≡ n.fingerprint_reason
  pub replacement : m.replacement ≡ n.replacement

-- The cluster under the exception of its name: it is owned by the exception's owner, and every member
-- is marked. Without an exception it is the same.
abbrev pub IsClassifiedBy : Option StructuralException → CloneCluster → CloneCluster → Type 0
IsClassifiedBy none c d = c ≡ d
IsClassifiedBy (some e) c d =
    (c.id ≡ d.id)
    × (e.owner ≡ d.owner)
    × (c.replacement ≡ d.replacement)
    × Pointwise (IsMarked e) c.members d.members

pub classify_member_iff :
    (e : StructuralException) (m n : OverlapMember) → (classify_member e m ≡ n) ↔ IsMarked e m n
unfolding classify_member
classify_member_iff e m n = (
  λ h. subst (IsMarked e m) h (record {
    classification = refl;
    reason = refl;
    owner = elim (Bool-cases (same_key e.owner "member-owned")) [
      | inl f ↦ inl ((same_key_iff e.owner "member-owned").0 f, rw f refl)
      | inr f ↦ inr (f, rw f refl)
    ];
    repo = refl;
    path = refl;
    line = refl;
    symbol = refl;
    anchor = refl;
    fingerprint_reason = refl;
    replacement = refl;
  }),
  λ k.
      let owned : (if same_key e.owner "member-owned" then m.owner else e.owner) ≡ n.owner =
        elim k.owner [
          | inl (f, g) ↦ rw ((same_key_iff e.owner "member-owned").1 f) g
          | inr (f, g) ↦ rw f g
        ] in
      cc (
        owned, k.classification, k.reason, k.repo, k.path, k.line, k.symbol, k.anchor,
        k.fingerprint_reason, k.replacement,
      ),
)

pub classify_cluster_iff :
    (entries : Map String StructuralException) (c d : CloneCluster)
    → (classify_cluster entries c ≡ d) ↔ IsClassifiedBy (Maps.get entries c.id) c d
unfolding classify_cluster
classify_cluster_iff entries c d = elim (Option-cases (Maps.get entries c.id)) [
  | inl e ↦ rw (classify_cluster, e) (λ h. h, λ h. h)
  | inr (x, e) ↦
      rw (classify_cluster, e)
        (
          λ h. subst (IsClassifiedBy (some x) c) h (
            refl,
            refl,
            refl,
            (map_iff (IsMarked x) (classify_member x) (classify_member_iff x) c.members _).0 refl,
          ),
          λ (id, owner, replacement, members). cc (
            id,
            owner,
            replacement,
            (map_iff (IsMarked x) (classify_member x) (classify_member_iff x) c.members d.members).1
                members,
          ),
        )
]
