-- ===== src/Lib.antt =====
-- Verification of the constellation's tooling: benchmarks, build inputs, overlaps,
-- generated vaults and the grouping of packages.
--
-- The program's parts and their files:
--
-- - Bench/Float: `f64` and the statistics library sim-lib-numbers-stats, which the benchmark code
--   calls and does not define. Both are parameters of everything that uses them; no law of either
--   is assumed.
-- - Bench/Serialize, Bench/Identity, Bench/Content, Bench/Spec, Bench/Artifact (src/bench.rs): the
--   artifacts and their constructors. Identity has the parts of a specification and, as lists of
--   calls on a serializer, what their derived `Serialize` writes for a key.
--   `BenchSpec::new` is `new`; `RawObservation::new`, `BenchSummary::new` and `BenchDecision::new`
--   are `new_observation`, `new_summary` and `new_decision`. The JSON encoder, which turns such calls
--   into bytes, and the digest are the parameter `Codec`. An error message is a constructor of
--   `ArtifactError`, and a joined message is the list of its parts.
-- - Bench/Run (src/bench/run.rs): Shuffle is `schedule` and `splitmix64`, with `u64` wrap-around
--   written out; Calibration is `RunConfig`, `elapsed` and `calibrated_iterations`; Lifecycle is
--   `run`. The clock and the workload are the parameter `Workload`: reading the clock, preparing and
--   sampling take a world and return the next one. A `usize` has 64 bits.
-- - Bench/Env (src/bench/env.rs): the environment of a run, the fields that a policy can require
--   (Env/Fields), and the comparison of two environments.
-- - Bench/Compare (src/bench/compare.rs): `compare` and its steps. Exclusion is `validate_samples`
--   and `exclude_outliers`, Pairs is `aligned_pair_differences`. The texts of the reasons are
--   constructors of `Reason`, in the order in which the code adds them.
-- - BuildInputs (src/build_inputs/graph.rs): Json is the interface of `serde_json::Value` and
--   `string`; Closure is `resolver_only_package_ids`. Its work list runs on fuel, one unit for each
--   node and each selected package: a round takes an id from the list, and an id is put there only
--   when it enters the closure, so that no result runs out of fuel.
-- - Overlap (src/index_overlap_exception.rs, src/index_overlap_report.rs): the structural
--   exceptions. `read` takes what reading the file returns; `classify` returns the clusters that
--   the code changes in place.
--   EdgePaths is `has_edge_path` of src/index_overlap.rs, on fuel: one unit for each edge, one for
--   the start and one to see that nothing is left, and a theorem says that this is enough.
--   Coverage is src/index_overlap_policy.rs, with the owners of src/index_overlap.rs that it uses:
--   `read_policy` takes what reading and parsing the file return, and the variables of the loop
--   of `protocol_coverage_findings` are a record.
-- - Vault (src/generated_namespace.rs with filesystem.rs in its folder, src/generated_artifact.rs,
--   src/index_vault_manifest.rs): a directory of generated files under an ownership manifest. Paths
--   and Artifacts are the checks of paths and `ArtifactSet::new`; Manifest is the manifest, its
--   reader and its printer; Tree is what the file system shows, as a tree of entries in which an
--   unreadable file or directory is a case of its own, and `collect_file_digests`; Namespace is
--   `ManagedNamespace` with `diff` and `check`; Commit is `preflight` and `commit`. The disk is what
--   stands at the vault root, at the ancestors of the target and at the three paths of the
--   namespace (target, stage, recovery). Every call that changes it may fail: the argument `Io`
--   says which calls do, and what a failed call leaves behind. A step of the transaction takes the
--   disk and returns a result with the next disk (Action). Migration is `migrate_v1_inner` with its
--   failpoints and `current_bundle`; the codecs of vault bundles are its parameter `VaultCodec`. A
--   target that is a symbolic link is not followed. serde_json, sha2 and the lower-casing of
--   Unicode are the parameter `Codecs`; a name is valid UTF-8, and a path is one of Unix.
-- - SimDoc (crates/simdoc/src/repo_contract_cut.rs): Cut is the grouping of packages that a file
--   gives or that is derived, with the file's format of lines.
-- - Support: lists, results, orders, and the ordered sets and maps of the standard library
--   (`BTreeSet` as a strictly increasing list, `BTreeMap` as an association list in key order),
--   `slice::sort`, `Vec::dedup`, and the text functions of `str`.
-- - Tests: each theorem at a concrete input, with concrete numbers, statistics, documents, encoder
--   and workload.
--
-- The parts meet as in the code: `run` takes its iteration count from Calibration, its order from
-- Shuffle and its observations from Artifact; `compare` takes its samples through Exclusion and
-- Pairs and its mismatches from Env; a commit writes the manifest that Manifest prints, verifies it
-- with the reader and with Tree, and compares the snapshots that Namespace takes.
--
-- Not modelled: the reading of /proc and /etc in src/bench/env.rs, command lines, processes, files
-- and reports, and the rest of the tooling (the other index commands,
-- the rest of the documentation generator under crates/simdoc, the check packs).
pub mod Support
pub mod Bench
pub mod BuildInputs
pub mod Overlap
pub mod Vault
pub mod SimDoc
pub mod Tests
