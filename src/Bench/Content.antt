-- ===== src/Bench/Content.antt =====
-- bench.rs: `content_key` and `required`. The encoder (serde_json) and the digest (sha2)
-- are parameters.
use Prim.Native.String.{◌++◌ as cat}
use sim_tooling.Support.{ℕ, String, List, [], ◌∷◌, Result, ok, err, if◌then◌else◌}
use sim_tooling.Support.Text.{is_blank}
use sim_tooling.Bench.Serialize.{Call}

pub record Codec (F Value : Type 0) : Type 0 where
  -- `serde_json::to_vec` of a value that makes these calls
  pub to_vec : List (Call F Value) → Result String (List ℕ)
  -- `hex_encode(&Sha256::digest(bytes))`
  pub content_digest : List ℕ → String

-- What the constructors of the artifacts refuse; the text of a name stands for its message.
pub data ArtifactError : Type 0 where
  must_not_be_empty : String → ArtifactError
  metric_name_empty : ℕ → ArtifactError
  no_metric no_measured_samples noise_floor_not_admissible confidence_not_admissible : ArtifactError
  threshold_not_admissible threshold_without_samples noise_above_threshold no_cpus : ArtifactError
  value_not_finite no_samples summary_not_admissible change_not_finite : ArtifactError
  encoding_failed : String → ArtifactError

-- The value is given by the calls that its `Serialize` makes.
unfoldable pub content_key :
    {F Value : Type 0} → Codec F Value → List (Call F Value) → Result ArtifactError String
content_key codec calls = elim (codec.to_vec calls) [
  | ok bytes ↦ ok (cat "sha256:" (codec.content_digest bytes))
  | err e ↦ err (encoding_failed e)
]

-- The errors that `required` adds.
unfoldable pub required : String → ArtifactError → List ArtifactError
required value e = if is_blank value then e ∷ [] else []
