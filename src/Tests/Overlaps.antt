-- ===== src/Tests/Overlaps.antt =====
-- Runs of the structural exceptions.
use sim_tooling.Support.{
  String, ◌≡◌, ◌↔◌, refl, true, Option, none, some, List, [], ◌∷◌, ok, Pointwise, text_order,
}
use sim_tooling.Support.Sets
use sim_tooling.Support.Maps
use sim_tooling.Support.Maps.{Map}
use sim_tooling.Support.Text.{is_blank, split, starts_with, lines}
use sim_tooling.Overlap.Exceptions.{
  SourceClassification, StructuralException, OverlapMember, CloneCluster, candidate, keep, current,
  stale, classify_member, parse, is_structural_cluster, read_fields, read_line, read_lines, read,
  classify_cluster, classify,
}
use sim_tooling.Overlap.Exceptions.Marked.{IsClassifiedBy}
use sim_tooling.Overlap.Exceptions.Classified.{Present, IsSound, classify_iff, read-IsSound}

abbrev text : String
text =
    "# exceptions\nrecord-shape/exact\t@cluster\t@cluster\t@cluster\tkeep\tmember-owned\tdistinct roles\n"

abbrev kept : StructuralException
kept = record { classification = keep; owner = "member-owned"; reason = "distinct roles" }

abbrev entries : Map String StructuralException
entries = ("record-shape/exact", kept) ∷ []

ledger_reads : read (some (ok text)) true ≡ ok entries
unfolding read read_lines read_line read_fields parse is_structural_cluster lines split starts_with
    is_blank Maps.insert Maps.contains_key Maps.get
ledger_reads = refl

entry_found : Maps.get entries "record-shape/exact" ≡ some kept
unfolding Maps.get
entry_found = refl

read-IsSound_example : IsSound "record-shape/exact" kept
read-IsSound_example =
    read-IsSound (some (ok text)) true entries ledger_reads "record-shape/exact" kept entry_found

abbrev member : SourceClassification → Option String → OverlapMember
member classification reason = record {
  repo = "core";
  path = "src/a.rs";
  line = 3;
  symbol = "A";
  anchor = none;
  fingerprint_reason = none;
  classification = classification;
  reason = reason;
  owner = "team";
  replacement = "none";
}

abbrev cluster : String → String → OverlapMember → CloneCluster
cluster id owner m = record { id = id; owner = owner; replacement = "none"; members = m ∷ [] }

abbrev clusters : List CloneCluster
clusters =
    cluster "record-shape/exact" "team" (member candidate none)
    ∷ cluster "token/loose" "team" (member candidate none)
    ∷ []

abbrev after : List CloneCluster
after =
    cluster "record-shape/exact" "member-owned" (member keep (some "distinct roles"))
    ∷ cluster "token/loose" "team" (member candidate none)
    ∷ []

classified : classify entries clusters ≡ ok after
unfolding classify classify_cluster classify_member current stale is_structural_cluster starts_with
    Sets.contains Sets.insert Maps.get
classified = refl

classify_iff_example : (classify entries clusters ≡ ok after) ↔ (
    ((k : String) → Maps.contains_key entries k ≡ true → Present k clusters)
    × Pointwise (λ c. IsClassifiedBy (Maps.get entries c.id) c) clusters after)
classify_iff_example = classify_iff entries clusters after
