-- ===== src/Tests/Documents.antt =====
-- A document type that stands in for `serde_json::Value` in the runs.
use sim_tooling.Support.{
  ℕ, String, Option, none, some, List, [], ◌∷◌, same_key, text_order, if◌then◌else◌,
}
use sim_tooling.BuildInputs.Json.{JsonApi}

mutual
  pub data Document : Type 0 where
    text : String → Document
    whole : ℕ → Document
    array : Items → Document
    object : Members → Document

  pub data Items : Type 0 where
    stop : Items
    item : Document → Items → Items

  pub data Members : Type 0 where
    close : Members
    member : String → Document → Members → Members

abbrev items : Items → List Document
items stop = []
items (item d rest) = d ∷ items rest

abbrev find : Members → String → Option Document
find close key = none
find (member name d rest) key = if same_key name key then some d else find rest key

abbrev pub documents : JsonApi
documents = record {
  Json = Document;
  get = elim [
    | text s ↦ λ key. none
    | whole n ↦ λ key. none
    | array xs ↦ λ key. none
    | object ms ↦ find ms
  ];
  as_array = elim [
    | text s ↦ none
    | whole n ↦ none
    | array xs ↦ some (items xs)
    | object ms ↦ none
  ];
  as_str = elim [ text s ↦ some s | whole n ↦ none | array xs ↦ none | object ms ↦ none ];
  as_u64 = elim [ text s ↦ none | whole n ↦ some n | array xs ↦ none | object ms ↦ none ];
}
