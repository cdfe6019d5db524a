-- ===== src/Vault/Namespace/Equality.antt =====
-- The derived equality of the manifests.
use sim_tooling.Support.{
  String, ◌≡◌, refl, ◌↔◌, Bool, true, ◌&&◌, ◌==◌, ==_iff, [], ◌∷◌, ok, same_key, same_key_iff,
  text_order, arith,
}
use sim_tooling.Support.Maps.{Map}
use sim_tooling.Vault.Manifest.{VaultManifest, validate_owner}
use sim_tooling.Vault.Namespace.{same_map, same_manifest}

pub and_true : (a b : Bool) → (a && b) ≡ true → (a ≡ true) × (b ≡ true)
and_true a b h = ground arith

module _ {ℓ} {A : Type ℓ} (same : A → A → Bool)
    (law : (a b : A) → (same a b ≡ true) ↔ (a ≡ b)) where
  pub same_map-eq : (m n : Map String A) → same_map same m n ≡ true → m ≡ n
  unfolding same_map
  same_map-eq [] [] h = refl
  same_map-eq [] (_ ∷ _) h = cc
  same_map-eq (_ ∷ _) [] h = cc
  same_map-eq ((k, a) ∷ m) ((j, b) ∷ n) h =
      let parts : ((same_key k j && same a b) ≡ true) × (same_map same m n ≡ true) =
        and_true (same_key k j && same a b) (same_map same m n) h in
      let heads : (same_key k j ≡ true) × (same a b ≡ true) =
        and_true (same_key k j) (same a b) parts.0 in
      cc ((same_key_iff k j).0 heads.0, (law a b).0 heads.1, same_map-eq m n parts.1)

  pub same_map_refl : (m : Map String A) → same_map same m m ≡ true
  unfolding same_map
  same_map_refl [] = refl
  same_map_refl ((k, a) ∷ m) =
      let key : same_key k k ≡ true = (same_key_iff k k).1 refl in
      let value : same a a ≡ true = (law a a).1 refl in rw (key, value, same_map_refl m) refl

pub same_manifest-eq : (m n : VaultManifest) → same_manifest m n ≡ true → m ≡ n
unfolding same_manifest
same_manifest-eq m n h =
    let t₁ = and_true (same_key m.namespace n.namespace) _ h in
    let t₂ = and_true (same_key m.profile n.profile) _ t₁.1 in
    let t₃ = and_true (same_key m.granularity n.granularity) _ t₂.1 in
    let t₄ = and_true (same_key m.index_digest n.index_digest) _ t₃.1 in
    let t₅ = and_true (same_key m.codec n.codec) _ t₄.1 in
    let t₆ = and_true (same_key m.projection_digest n.projection_digest) _ t₅.1 in
    let t₇ = and_true (same_key m.bundle_root n.bundle_root) _ t₆.1 in
    let t₈ = and_true (same_map ◌==◌ m.coverage n.coverage) _ t₇.1 in
    λ i. record {
      namespace = (same_key_iff m.namespace n.namespace).0 t₁.0 i;
      profile = (same_key_iff m.profile n.profile).0 t₂.0 i;
      granularity = (same_key_iff m.granularity n.granularity).0 t₃.0 i;
      index_digest = (same_key_iff m.index_digest n.index_digest).0 t₄.0 i;
      codec = (same_key_iff m.codec n.codec).0 t₅.0 i;
      projection_digest = (same_key_iff m.projection_digest n.projection_digest).0 t₆.0 i;
      bundle_root = (same_key_iff m.bundle_root n.bundle_root).0 t₇.0 i;
      coverage = same_map-eq ◌==◌ ==_iff m.coverage n.coverage t₈.0 i;
      artifacts = same_map-eq (λ a b. same_key a b) same_key_iff m.artifacts n.artifacts t₈.1 i;
    }

pub same_manifest_refl : (m : VaultManifest) → same_manifest m m ≡ true
unfolding same_manifest
same_manifest_refl m =
    let text : (s : String) → same_key s s ≡ true = λ s. (same_key_iff s s).1 refl in
    rw
      (
        text m.namespace,
        text m.profile,
        text m.granularity,
        text m.index_digest,
        text m.codec,
        text m.projection_digest,
        text m.bundle_root,
        same_map_refl ◌==◌ ==_iff m.coverage,
        same_map_refl (λ a b. same_key a b) same_key_iff m.artifacts,
      )
      refl

pub validate_owner_refl : (m : VaultManifest) → validate_owner m m ≡ ok tt
unfolding validate_owner
validate_owner_refl m =
    let text : (s : String) → same_key s s ≡ true = λ s. (same_key_iff s s).1 refl in
    rw (text m.namespace, text m.profile, text m.granularity) refl
