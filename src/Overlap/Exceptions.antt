-- ===== src/Overlap/Exceptions.antt =====
-- index_overlap_exception.rs: the structural exceptions, and index_overlap_report.rs: the clusters
-- that they classify.
pub mod Marked
pub mod Classified
use sim_tooling.Support.{
  ℕ, suc, String, Bool, true, false, not, ◌&&◌, ◌||◌, ◌==◌, Option, none, some, List, [], ◌∷◌, map,
  Result, ok, err, ◌>>=◌, ◌>>◌, refuse_if, ok_or, if◌then◌else◌, same_key, text_order,
}
use sim_tooling.Support.Sets
use sim_tooling.Support.Maps
use sim_tooling.Support.Maps.{Map}
use sim_tooling.Support.Text.{is_blank, split, starts_with, lines}

pub data SourceClassification : Type 0 where
  candidate keep delegated regression : SourceClassification

pub record OverlapMember : Type 0 where
  pub repo : String
  pub path : String
  pub line : ℕ
  pub symbol : String
  pub anchor : Option String
  pub fingerprint_reason : Option String
  pub classification : SourceClassification
  pub reason : Option String
  pub owner : String
  pub replacement : String

pub record CloneCluster : Type 0 where
  pub id : String
  pub owner : String
  pub replacement : String
  pub members : List OverlapMember

pub record StructuralException : Type 0 where
  pub classification : SourceClassification
  pub owner : String
  pub reason : String

-- The line number stands where the message shows it.
pub data OverlapError : Type 0 where
  exceptions_required : OverlapError
  unreadable unknown_classification : String → OverlapError
  field_count sentinel_expected classification_not_admitted owner_and_reason_required :
      ℕ → OverlapError
  duplicate_exception : ℕ → String → OverlapError
  stale_exceptions : List String → OverlapError

-- `SourceClassification::parse`
unfoldable pub parse : String → Result OverlapError SourceClassification
parse value =
    if same_key value "candidate"
    then ok candidate
    else if same_key value "keep"
    then ok keep
    else if same_key value "delegated"
    then ok delegated
    else if same_key value "regression"
    then ok regression
    else err (unknown_classification value)

unfoldable pub is_structural_cluster : String → Bool
is_structural_cluster cluster =
    starts_with cluster "record-shape/" || starts_with cluster "implementation-shape/"

-- `matches!(classification, Keep | Delegated)`
abbrev pub is_admitted : SourceClassification → Bool
is_admitted candidate = false
is_admitted keep = true
is_admitted delegated = true
is_admitted regression = false

-- The fields of a line, of which there must be seven.
unfoldable pub read_fields :
    ℕ
    → Map String StructuralException
    → List String
    → Result OverlapError (Map String StructuralException)
read_fields number entries
      (cluster ∷ repo ∷ source_path ∷ symbol ∷ classification ∷ owner ∷ reason ∷ []) =
    let read : Result OverlapError (Map String StructuralException) = (do
      refuse_if
          (not (same_key repo "@cluster")
            || (not (same_key source_path "@cluster") || not (same_key symbol "@cluster")))
          (sentinel_expected number)
      classified ← parse classification
      refuse_if (not (is_admitted classified)) (classification_not_admitted number)
      refuse_if (is_blank owner || is_blank reason) (owner_and_reason_required number)
      refuse_if (Maps.contains_key entries cluster) (duplicate_exception number cluster)
      ok (
          Maps.insert cluster
            (record { classification = classified; owner = owner; reason = reason }) entries)) in
    if is_structural_cluster cluster then read else ok entries
read_fields number entries _ = err (field_count number)

-- The body of the loop; `number` is `index + 1`.
unfoldable pub read_line :
    ℕ
    → Map String StructuralException
    → String
    → Result OverlapError (Map String StructuralException)
read_line number entries raw =
    if is_blank raw || starts_with raw "#"
    then ok entries
    else read_fields number entries (split 9 raw)

unfoldable pub read_lines :
    ℕ
    → Map String StructuralException
    → List String
    → Result OverlapError (Map String StructuralException)
read_lines number entries [] = ok entries
read_lines number entries (raw ∷ rest) = do
  entries' ← read_line number entries raw
  read_lines (suc number) entries' rest

-- `StructuralExceptions::read`; a path is given by what reading its file returns.
unfoldable pub read :
    Option (Result String String) → Bool → Result OverlapError (Map String StructuralException)
read none strict = if strict then err exceptions_required else ok []
read (some (ok text)) strict = read_lines 1 [] (lines text)
read (some (err e)) strict = err (unreadable e)

-- The ids of the structural clusters.
unfoldable pub current : List CloneCluster → List String
current [] = []
current (c ∷ cs) =
    let rest = current cs in if is_structural_cluster c.id then Sets.insert c.id rest else rest

unfoldable pub stale : List String → List String → List String
stale present [] = []
stale present (k ∷ ks) =
    let rest = stale present ks in if Sets.contains present k then rest else k ∷ rest

-- The body of `for member in &mut cluster.members`.
unfoldable pub classify_member : StructuralException → OverlapMember → OverlapMember
classify_member e m = record {
  repo = m.repo;
  path = m.path;
  line = m.line;
  symbol = m.symbol;
  anchor = m.anchor;
  fingerprint_reason = m.fingerprint_reason;
  classification = e.classification;
  reason = some e.reason;
  owner = if same_key e.owner "member-owned" then m.owner else e.owner;
  replacement = m.replacement;
}

-- The body of `for cluster in clusters`.
unfoldable pub classify_cluster : Map String StructuralException → CloneCluster → CloneCluster
classify_cluster entries cluster = elim (Maps.get entries cluster.id) [
  | none ↦ cluster
  | some e ↦ record {
    id = cluster.id;
    owner = e.owner;
    replacement = cluster.replacement;
    members = map (classify_member e) cluster.members;
  }
]

-- `StructuralExceptions::classify`: the clusters after it.
unfoldable pub classify :
    Map String StructuralException → List CloneCluster → Result OverlapError (List CloneCluster)
classify entries clusters = do
  refuse_if (elim (stale (current clusters) (Maps.keys entries)) [ [] ↦ false | _ ∷ _ ↦ true ])
      (stale_exceptions (stale (current clusters) (Maps.keys entries)))
  ok (map (classify_cluster entries) clusters)
