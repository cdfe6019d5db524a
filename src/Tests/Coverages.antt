-- ===== src/Tests/Coverages.antt =====
-- The coverage of an index with relations of every kind.
use sim_tooling.Support.{true, ◌↔◌, ◌+◌, String, ◌≡◌, refl, [], ◌∷◌, ◌++◌, count, text_order}
use sim_tooling.Support.Sets
use sim_tooling.Support.Maps
use sim_tooling.Support.Maps.{values}
use sim_tooling.Overlap.Coverage.{
  CoverageExemption, CoveragePolicy, ProtocolRelation, ProtocolResolution, resolved, unresolved,
  IndexDoc, uncovered_protocol, stale_coverage_exemption, claims, any_owned, collect_owners,
  from_doc, feature_mentions_subject, features_for_subject, is_reachable, cover, visit_relation,
  visit_relations, stale_exemptions, protocol_coverage_findings,
}
use sim_tooling.Overlap.Coverage.Reachable.{IsReachable, is_reachable_iff}
use sim_tooling.Overlap.Coverage.Complete.{
  applies, is_covered, is_excused, is_uncovered, uncovered_findings, stale_findings,
  protocol_coverage_findings_lem,
}

abbrev relation : String → ProtocolResolution → ProtocolRelation
relation anchor resolution = record {
  anchor = anchor;
  implementor = "Reader";
  resolution = resolution;
}

abbrev document : IndexDoc
document = record {
  features =
      record {
        id = "feature/io";
        subject = "crate/io";
        anchors = "anchor/claimed" ∷ [];
        surfaces = [];
        specimens = [];
      }
      ∷ [];
  anchors = ("anchor/owned", "crate/io") ∷ ("anchor/left", "crate/net") ∷ [];
  surfaces = [];
  specimens = [];
  protocol_relations =
      relation "anchor/claimed" (resolved "Read")
      ∷ relation "anchor/owned" (resolved "Read")
      ∷ relation "anchor/left" (resolved "Read")
      ∷ relation "anchor/excused" (resolved "Read")
      ∷ relation "anchor/other" (resolved "Write")
      ∷ relation "anchor/left" unresolved
      ∷ [];
}

abbrev exemption : String → CoverageExemption
exemption anchor = record { anchor = anchor; reason = "generated" }

abbrev policy : CoveragePolicy
policy = record {
  protocols = "Read" ∷ [];
  exemptions =
      ("anchor/excused", exemption "anchor/excused")
      ∷ ("anchor/other", exemption "anchor/other")
      ∷ [];
}

covered : protocol_coverage_findings document policy ≡ (
  uncovered_protocol "Read" "Reader" "anchor/left"
      ∷ stale_coverage_exemption "anchor/other" "generated"
      ∷ [],
  record { applicable = 4; covered = 2; exempt = 1; uncovered = 1 },
)
unfolding protocol_coverage_findings visit_relations visit_relation cover is_reachable
    stale_exemptions features_for_subject feature_mentions_subject from_doc collect_owners any_owned
    claims Sets.contains Sets.insert Sets.from_list Maps.get Maps.insert Maps.contains_key
covered = refl

protocol_coverage_findings_lem_example :
    let n = (protocol_coverage_findings document policy).1 in
    (n.applicable ≡ count (applies document policy) document.protocol_relations)
    × (n.covered ≡ count (is_covered document policy) document.protocol_relations)
    × (n.exempt ≡ count (is_excused document policy) document.protocol_relations)
    × (n.uncovered ≡ count (is_uncovered document policy) document.protocol_relations)
    × (n.covered + n.exempt + n.uncovered ≡ n.applicable)
    × ((protocol_coverage_findings document policy).0
        ≡ uncovered_findings document policy document.protocol_relations
          ++ stale_findings document policy document.protocol_relations (values policy.exemptions))
protocol_coverage_findings_lem_example = protocol_coverage_findings_lem document policy

is_reachable_iff_example :
    (is_reachable document policy "anchor/owned" ≡ true) ↔ IsReachable document "anchor/owned"
is_reachable_iff_example = is_reachable_iff document policy "anchor/owned"
