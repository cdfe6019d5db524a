-- ===== src/Vault/Paths.antt =====
-- The checks of paths: `std::path::Path::components` on Unix as the code uses it,
-- `validate_namespace`, `validate_sibling_name`, `validate_relative_path` and `slash_path`.
use Prim.Native.Char.{code}
use Prim.Native.String.{◌++◌ as ◌<>◌}
use sim_tooling.Support.{
  ℕ, String, Bool, true, false, not, ◌&&◌, ◌||◌, ◌==◌, leb, List, [], ◌∷◌, Result, ok, err, ◌>>=◌,
  ◌>>◌, refuse_if, if◌then◌else◌, same_key, text_order,
}
use sim_tooling.Support.Text.{split, starts_with}
use sim_tooling.Vault.{
  VaultError, empty_namespace, not_relative, traverses, invalid_sibling, not_normalized, empty_path,
  backslash_in_path, not_normalized_path,
}

pub data Component : Type 0 where
  root_dir cur_dir parent_dir : Component
  normal : String → Component

-- A `.` after the first part leaves no component.
unfoldable pub later_components : List String → List Component
later_components [] = []
later_components (part ∷ parts) =
    let rest = later_components parts in
    if same_key part "" || same_key part "."
    then rest
    else if same_key part ".."
    then parent_dir ∷ rest
    else normal part ∷ rest

unfoldable pub first_component : List String → List Component
first_component [] = []
first_component (part ∷ []) =
    if same_key part "." then cur_dir ∷ [] else later_components (part ∷ [])
first_component (part ∷ next ∷ parts) =
    let rest = later_components (next ∷ parts) in
    if same_key part ""
    then root_dir ∷ rest
    else if same_key part "."
    then cur_dir ∷ rest
    else later_components (part ∷ next ∷ parts)

-- `path.components()`; 47 is the slash.
unfoldable pub components : String → List Component
components path = first_component (split 47 path)

abbrev pub is_normal : Component → Bool
is_normal (normal part) = true
is_normal _ = false

unfoldable pub any : (String → Bool) → List String → Bool
any test [] = false
any test (part ∷ parts) = test part || any test parts

-- `any(|component| !matches!(component, Component::Normal(_)))`
unfoldable pub any_special : List Component → Bool
any_special [] = false
any_special (c ∷ cs) = not (is_normal c) || any_special cs

-- `text.contains(char)`
unfoldable pub contains_char : ℕ → String → Bool
contains_char wanted String.[] = false
contains_char wanted (String.◌∷◌ c s) = code c == wanted || contains_char wanted s

abbrev is_ascii_alphabetic : ℕ → Bool
is_ascii_alphabetic c = (leb 65 c && leb c 90) || (leb 97 c && leb c 122)

unfoldable pub looks_like_windows_absolute : String → Bool
looks_like_windows_absolute (String.◌∷◌ c (String.◌∷◌ d s)) =
    is_ascii_alphabetic (code c) && code d == 58
looks_like_windows_absolute _ = false

unfoldable pub validate_namespace : String → Result VaultError String
validate_namespace text = do
  refuse_if (same_key text "") empty_namespace
  refuse_if
      (starts_with text "/"
        || (looks_like_windows_absolute text
            || (contains_char 92 text || any (λ part. same_key part "") (split 47 text))))
      not_relative
  refuse_if (any_special (components text)) traverses
  ok text

unfoldable pub validate_sibling_name : String → Result VaultError (Unit {0})
validate_sibling_name name =
    refuse_if (same_key name "" || (contains_char 47 name || contains_char 92 name)) invalid_sibling

unfoldable pub validate_relative_path : String → Result VaultError (Unit {0})
validate_relative_path text = do
  refuse_if (same_key text "") empty_path
  refuse_if (starts_with text "/" || looks_like_windows_absolute text) not_relative
  refuse_if (contains_char 92 text) backslash_in_path
  refuse_if (any (λ part. same_key part "" || same_key part ".") (split 47 text))
      not_normalized_path
  refuse_if (any_special (components text)) traverses

unfoldable pub normal_parts : List Component → Result VaultError (List String)
normal_parts [] = ok []
normal_parts (normal part ∷ cs) = do parts ← normal_parts cs; ok (part ∷ parts)
normal_parts (_ ∷ cs) = err not_normalized

-- `parts.join("/")`
unfoldable pub join : List String → String
join [] = ""
join (part ∷ []) = part
join (part ∷ next ∷ parts) = part <> ("/" <> join (next ∷ parts))

unfoldable pub slash_path : String → Result VaultError String
slash_path path = do parts ← normal_parts (components path); ok (join parts)
