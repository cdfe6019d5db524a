-- ===== src/Overlap/Coverage.antt =====
-- index_overlap_policy.rs: the policy of shared protocols and the coverage that it demands, with the
-- owners of an index from index_overlap.rs.
pub mod Complete
pub mod Reachable
use sim_tooling.Support.{
  ℕ, ◌+◌, String, Bool, true, false, not, ◌&&◌, ◌||◌, Option, none, some, List, [], ◌∷◌, ◌++◌,
  Result, ok, err, ◌>>=◌, ◌>>◌, refuse_if, if◌then◌else◌, same_key, text_order,
}
use sim_tooling.Support.Sets
use sim_tooling.Support.Maps
use sim_tooling.Support.Maps.{Map, values}
use sim_tooling.Support.Text.{is_blank}

pub record CoverageExemption : Type 0 where
  pub anchor : String
  pub reason : String

pub record CoveragePolicy : Type 0 where
  pub protocols : List String
  pub exemptions : Map String CoverageExemption

-- What `toml::from_str` returns; a protocol is its path.
pub record PolicyFile : Type 0 where
  pub schema : String
  pub protocol : List String
  pub exemption : List CoverageExemption

pub data PolicyError : Type 0 where
  policy_required unreadable unparsed zero_protocols incomplete_exemption duplicate_exemption :
      PolicyError
  other_schema bad_protocol : String → PolicyError

-- The loop over the protocols.
unfoldable pub read_protocols : List String → List String → Result PolicyError (List String)
read_protocols protocols [] = ok protocols
read_protocols protocols (path ∷ rest) = do
  refuse_if (is_blank path || Sets.contains protocols path) (bad_protocol path)
  read_protocols (Sets.insert path protocols) rest

-- The loop over the exemptions.
unfoldable pub read_exemptions :
    Map String CoverageExemption
    → List CoverageExemption
    → Result PolicyError (Map String CoverageExemption)
read_exemptions exemptions [] = ok exemptions
read_exemptions exemptions (e ∷ rest) = do
  refuse_if (is_blank e.anchor || is_blank e.reason) incomplete_exemption
  refuse_if (Maps.contains_key exemptions e.anchor) duplicate_exemption
  read_exemptions (Maps.insert e.anchor e exemptions) rest

abbrev pub is_nil {ℓ} : {A : Type ℓ} → List A → Bool
is_nil [] = true
is_nil (_ ∷ _) = false

-- `CoveragePolicy::read`; a path is given by what reading and parsing its file return.
unfoldable pub read_policy :
    Option (Result PolicyError PolicyFile) → Bool → Result PolicyError CoveragePolicy
read_policy none strict =
    if strict then err policy_required else ok (record { protocols = []; exemptions = [] })
read_policy (some contents) strict = do
  file ← contents
  refuse_if (not (same_key file.schema "sim.index-overlap-policy/v1")) (other_schema file.schema)
  protocols ← read_protocols [] file.protocol
  refuse_if (is_nil protocols) zero_protocols
  exemptions ← read_exemptions [] file.exemption
  ok (record { protocols = protocols; exemptions = exemptions })

-- The fields of sim_index_core's records that are read here. An anchor, a surface or a specimen is
-- its id with its subject.
pub record FeatureRecord : Type 0 where
  pub id : String
  pub subject : String
  pub anchors : List String
  pub surfaces : List String
  pub specimens : List String

pub data ProtocolResolution : Type 0 where
  resolved : String → ProtocolResolution
  unresolved : ProtocolResolution

pub record ProtocolRelation : Type 0 where
  pub anchor : String
  pub implementor : String
  pub resolution : ProtocolResolution

pub record IndexDoc : Type 0 where
  pub features : List FeatureRecord
  pub anchors : List (String × String)
  pub surfaces : List (String × String)
  pub specimens : List (String × String)
  pub protocol_relations : List ProtocolRelation

pub record OwnerIndex : Type 0 where
  pub anchors : Map String String
  pub surfaces : Map String String
  pub specimens : Map String String

-- `collect`: a later entry replaces an earlier one.
unfoldable pub collect_owners : Map String String → List (String × String) → Map String String
collect_owners owners [] = owners
collect_owners owners ((id, subject) ∷ rest) = collect_owners (Maps.insert id subject owners) rest

-- `OwnerIndex::from_doc`
unfoldable pub from_doc : IndexDoc → OwnerIndex
from_doc doc = record {
  anchors = collect_owners [] doc.anchors;
  surfaces = collect_owners [] doc.surfaces;
  specimens = collect_owners [] doc.specimens;
}

-- `any(|id| owners.get(id).is_some_and(|owner| owner == subject))`
unfoldable pub any_owned : Map String String → String → List String → Bool
any_owned owners subject [] = false
any_owned owners subject (id ∷ rest) =
    elim (Maps.get owners id) [ none ↦ false | some owner ↦ same_key owner subject ]
    || any_owned owners subject rest

unfoldable pub feature_mentions_subject : FeatureRecord → OwnerIndex → String → Bool
feature_mentions_subject feature owners subject =
    same_key feature.subject subject
    || (any_owned owners.anchors subject feature.anchors
        || (any_owned owners.surfaces subject feature.surfaces
            || any_owned owners.specimens subject feature.specimens))

unfoldable pub features_for_subject : List FeatureRecord → OwnerIndex → String → List String
features_for_subject [] owners subject = []
features_for_subject (feature ∷ rest) owners subject =
    let later = features_for_subject rest owners subject in
    if feature_mentions_subject feature owners subject then Sets.insert feature.id later else later

-- The anchors that the features claim.
unfoldable pub claims : List FeatureRecord → List String
claims [] = []
claims (feature ∷ rest) = feature.anchors ++ claims rest

pub record CoverageClassification : Type 0 where
  pub applicable : ℕ
  pub covered : ℕ
  pub exempt : ℕ
  pub uncovered : ℕ

-- The findings with what their messages show.
pub data Finding : Type 0 where
  uncovered_protocol : String → String → String → Finding
  stale_coverage_exemption : String → String → Finding

-- The variables of the loop over the relations.
pub record Coverage : Type 0 where
  pub applicable : List String
  pub findings : List Finding
  pub classification : CoverageClassification

module _ (doc : IndexDoc) (policy : CoveragePolicy) where
  unfoldable pub is_reachable : String → Bool
  is_reachable anchor =
      Sets.contains (Sets.from_list (claims doc.features)) anchor
      || elim (Maps.get (collect_owners [] doc.anchors) anchor) [
        | none ↦ false
        | some subject ↦ not (is_nil (features_for_subject doc.features (from_doc doc) subject))
      ]

  abbrev pub is_exempt : String → Bool
  is_exempt anchor = Maps.contains_key policy.exemptions anchor

  -- The body of the loop for a relation that resolves to a configured protocol.
  unfoldable pub cover : Coverage → ProtocolRelation → String → Coverage
  cover c relation protocol =
      let n = c.classification in
      let applicable = Sets.insert relation.anchor c.applicable in
      if is_reachable relation.anchor
      then record {
        applicable = applicable;
        findings = c.findings;
        classification = record {
          applicable = n.applicable + 1;
          covered = n.covered + 1;
          exempt = n.exempt;
          uncovered = n.uncovered;
        };
      }
      else if is_exempt relation.anchor
      then record {
        applicable = applicable;
        findings = c.findings;
        classification = record {
          applicable = n.applicable + 1;
          covered = n.covered;
          exempt = n.exempt + 1;
          uncovered = n.uncovered;
        };
      }
      else record {
        applicable = applicable;
        findings =
            c.findings ++ (uncovered_protocol protocol relation.implementor relation.anchor ∷ []);
        classification = record {
          applicable = n.applicable + 1;
          covered = n.covered;
          exempt = n.exempt;
          uncovered = n.uncovered + 1;
        };
      }

  -- The body of the loop, with the relation's resolution.
  unfoldable pub visit_relation : Coverage → ProtocolRelation → ProtocolResolution → Coverage
  visit_relation c relation unresolved = c
  visit_relation c relation (resolved protocol) =
      if Sets.contains policy.protocols protocol then cover c relation protocol else c

  unfoldable pub visit_relations : Coverage → List ProtocolRelation → Coverage
  visit_relations c [] = c
  visit_relations c (relation ∷ rest) =
      visit_relations (visit_relation c relation relation.resolution) rest

  unfoldable pub stale_exemptions : List String → List CoverageExemption → List Finding
  stale_exemptions applicable [] = []
  stale_exemptions applicable (e ∷ rest) =
      let later = stale_exemptions applicable rest in
      if Sets.contains applicable e.anchor
      then later
      else stale_coverage_exemption e.anchor e.reason ∷ later

  unfoldable pub protocol_coverage_findings : List Finding × CoverageClassification
  protocol_coverage_findings =
      let c =
        visit_relations
          (record {
            applicable = [];
            findings = [];
            classification = record { applicable = 0; covered = 0; exempt = 0; uncovered = 0 };
          })
          doc.protocol_relations in
      (c.findings ++ stale_exemptions c.applicable (values policy.exemptions), c.classification)
