-- ===== src/Vault/Manifest/RoundTrip.antt =====
-- What `to_bytes` prints, `from_bytes` reads.
use mathlib.Core.List.{append_assoc, append-nil}
use sim_tooling.Support.{
  ℕ, String, ◌≡◌, refl, subst, ap, ◌∙◌, true, Option, some, List, [], ◌∷◌, ◌++◌, ok, ok_or,
  >>=-ok-elim, >>-ok-elim, ok_or-eq-ok, ok-inj, All, text_order, text_lt,
}
use sim_tooling.Support.Sets
use sim_tooling.Support.Maps
use sim_tooling.Support.Maps.{Map, keys}
use sim_tooling.Vault.{Bytes, Codecs, VaultError, serialize_failed, not_a_string, not_a_number}
use sim_tooling.Vault.Manifest.{VaultManifest, validate_shape}
use sim_tooling.Vault.Manifest.Document.{
  read_values, map_values, allowed_fields, string_field, object_field, string_map_field,
  number_map_field, unknown_key, refuse_unknown, check_schema, read_manifest, from_bytes,
  manifest_object, to_bytes,
}

-- Each key of the second list is above all of the first.
abbrev Above : List String → List String → Type 0
Above low = All (λ k. All (λ j. text_lt j k ≡ true) low)

Above-snoc {ℓ} :
    {A : Type ℓ} (k : String) (a : A) (low : Map String A)
    → (j : String) → All (λ i. text_lt i j ≡ true) (keys low)
    → text_lt k j ≡ true
    → All (λ i. text_lt i j ≡ true) (keys (low ++ ((k, a) ∷ [])))
Above-snoc k a [] j h e = (e, tt)
Above-snoc k a ((i, b) ∷ low) j h e = (h.0, Above-snoc k a low j h.1 e)

Above-step {ℓ} :
    {A : Type ℓ} (k : String) (a : A) (low : Map String A) (high : List String)
    → Above (keys low) high
    → All (λ j. text_lt k j ≡ true) high
    → Above (keys (low ++ ((k, a) ∷ []))) high
Above-step k a low [] h e = tt
Above-step k a low (j ∷ high) h e = (Above-snoc k a low j h.0 e.0, Above-step k a low high h.1 e.1)

Above-nil : (high : List String) → Above [] high
Above-nil [] = tt
Above-nil (k ∷ high) = (tt, Above-nil high)

module _ (codecs : Codecs) where
  open codecs use {
    Json, from_slice, to_string_pretty, as_object, as_str, as_u64, json_string, json_number,
    json_object,
  }

  read_values-map_values {ℓ} :
      {A : Type ℓ} (accessor : Json → Option A) (f : A → Json) (wrong : String → VaultError)
      → ((a : A) → accessor (f a) ≡ some a)
      → (low m : Map String A) → Above (keys low) (keys m)
      → Sets.IsSorted (keys m)
      → read_values codecs accessor wrong low (map_values codecs f m) ≡ ok (low ++ m)
  unfolding read_values
  read_values-map_values accessor f wrong law low [] above sorted = rw append-nil refl
  read_values-map_values accessor f wrong law low ((k, a) ∷ m) above sorted =
      rw (law a, Maps.insert_last k a low above.0)
        (read_values-map_values accessor f wrong law (low ++ ((k, a) ∷ [])) m
            (Above-step k a low (keys m) above.1 sorted.0) sorted.1
          ∙ ap ok (append_assoc low ((k, a) ∷ []) m))

  -- The keys of `manifest_object` are all allowed and name its fields.
  refuse_unknown-manifest_object :
      (m : VaultManifest)
      → refuse_unknown codecs (allowed_fields codecs) (manifest_object codecs m) ≡ ok tt
  unfolding refuse_unknown unknown_key manifest_object Sets.contains
  refuse_unknown-manifest_object m = refl

  module _ (string_law : (s : String) → as_str (json_string s) ≡ some s)
      (number_law : (n : ℕ) → as_u64 (json_number n) ≡ some n)
      (object_law : (o : Map String Json) → as_object (json_object o) ≡ some o) (m : VaultManifest)
      (coverage_sorted : Sets.IsSorted (keys m.coverage))
      (artifacts_sorted : Sets.IsSorted (keys m.artifacts)) where
    read_manifest-manifest_object :
        validate_shape m ≡ ok tt → read_manifest codecs (manifest_object codecs m) ≡ ok m
    unfolding read_manifest manifest_object string_field string_map_field number_map_field
        object_field Maps.get
    read_manifest-manifest_object valid =
        rw
          (
            string_law m.namespace,
            string_law m.profile,
            string_law m.granularity,
            string_law m.index_digest,
            string_law m.codec,
            string_law m.projection_digest,
            string_law m.bundle_root,
            object_law (map_values codecs json_number m.coverage),
            read_values-map_values as_u64 json_number not_a_number number_law [] m.coverage
                (Above-nil (keys m.coverage)) coverage_sorted,
            object_law (map_values codecs json_string m.artifacts),
            read_values-map_values as_str json_string not_a_string string_law [] m.artifacts
                (Above-nil (keys m.artifacts)) artifacts_sorted,
            valid,
          )
          refl

    from_bytes-printed :
        validate_shape m ≡ ok tt
        → (bytes : Bytes) → from_slice bytes ≡ some (json_object (manifest_object codecs m))
        → from_bytes codecs bytes ≡ ok m
    unfolding from_bytes string_field check_schema manifest_object Maps.get
    from_bytes-printed valid bytes h =
        rw
          (
            h,
            object_law (manifest_object codecs m),
            string_law "sim.index-vault-manifest.v3",
            refuse_unknown-manifest_object m,
            read_manifest-manifest_object valid,
          )
          refl

    -- Where serde_json's accessors undo its constructors, and it reads back the document that it
    -- printed for a manifest whose two maps are in key order: what `to_bytes` returns for the
    -- manifest, `from_bytes` reads as that manifest, with all its fields.
    pub from_bytes-to_bytes :
        (reparsed : (text : Bytes)
          → to_string_pretty (json_object (manifest_object codecs m)) ≡ some text
          → from_slice (text ++ (10 ∷ [])) ≡ some (json_object (manifest_object codecs m)))
        (bytes : Bytes)
        → to_bytes codecs m ≡ ok bytes
        → from_bytes codecs bytes ≡ ok m
    unfolding to_bytes
    from_bytes-to_bytes reparsed bytes h = >>-ok-elim (validate_shape m) _ h λ valid h₁.
        >>=-ok-elim
          (ok_or (to_string_pretty (json_object (manifest_object codecs m))) serialize_failed)
          (λ text. ok (text ++ (10 ∷ []))) h₁
          λ text printed h₂.
            subst (λ b. from_bytes codecs b ≡ ok m) (ok-inj h₂)
              (from_bytes-printed valid (text ++ (10 ∷ []))
                (reparsed text (ok_or-eq-ok _ serialize_failed printed)))
