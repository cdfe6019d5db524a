-- ===== src/BuildInputs/Json.antt =====
-- `serde_json::Value` as build_inputs/graph.rs reads it, and `string` of that file. The type and its
-- accessors belong to serde_json, so they are a parameter of what reads a document.
use Prim.Native.String.{len}
use sim_tooling.Support.{
  ℕ, String, Bool, true, false, ◌==◌, Option, none, some, List, ltb, if◌then◌else◌,
}

pub record JsonApi : Type 1 where
  pub Json : Type 0
  pub get : Json → String → Option Json
  pub as_array : Json → Option (List Json)
  pub as_str : Json → Option String
  pub as_u64 : Json → Option ℕ

-- `Option::and_then`
infixl 6 ◌&>◌
abbrev pub ◌&>◌ {ℓ κ} : {A : Type ℓ} {B : Type κ} → Option A → (A → Option B) → Option B
none &> f = none
some a &> f = f a

-- `Option::filter`
abbrev pub keep_if {ℓ} : {A : Type ℓ} → (A → Bool) → A → Option A
keep_if p a = if p a then some a else none

-- `!value.is_empty() && value.len() <= 4096`, in bytes.
pub is_identity : String → Bool
is_identity s = if len s == 0 then false else if ltb 4096 (len s) then false else true

module _ (json : JsonApi) where
  open json use {Json, get, as_str}

  -- `string(value, field)`; `none` stands for its error "Cargo metadata {field} is invalid".
  unfoldable pub string : Json → String → Option String
  unfolding is_identity
  string value field = get value field &> as_str &> keep_if is_identity
