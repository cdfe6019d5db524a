-- ===== src/SimDoc/Cut.antt =====
-- repo_contract_cut.rs: the grouping of packages, read from a file or derived.
pub mod Partition
use Prim.Native.Char.{Char, code}
use Prim.Native.String.{◌++◌ as ◌<>◌}
use sim_tooling.Support.{
  ℕ, String, Bool, true, false, not, ◌&&◌, ◌||◌, ◌==◌, Option, none, some, List, [], ◌∷◌, ◌++◌,
  Result, ok, err, ◌>>=◌, ◌>>◌, refuse_if, if◌then◌else◌, same_key, text_order,
}
use sim_tooling.Support.Sets
use sim_tooling.Support.Maps
use sim_tooling.Support.Maps.{Map, keys}
use sim_tooling.Support.Text.{trim, trim_start, trim_end, lines, starts_with}

pub record SplitCut : Type 0 where
  pub group_order : List String
  pub groups : Map String (List String)
  pub package_groups : Map String String

pub data CutError : Type 0 where
  empty_workspace missing_group_order missing_groups : CutError
  unreadable unterminated_array group_not_ordered group_without_packages : String → CutError
  package_in_two_groups : String → String → String → CutError

-- `text.split_once(char)`
unfoldable pub split_once : ℕ → String → Option (String × String)
split_once wanted String.[] = none
split_once wanted (String.◌∷◌ c s) =
    let rest = split_once wanted s in
    if code c == wanted
    then some ("", s)
    else elim rest [ none ↦ none | some parts ↦ some (String.◌∷◌ c parts.0, parts.1) ]

-- `line.contains(char)`
unfoldable pub has_char : ℕ → String → Bool
has_char wanted String.[] = false
has_char wanted (String.◌∷◌ c s) = code c == wanted || has_char wanted s

-- `line.ends_with(char)`
unfoldable pub ends_with : ℕ → String → Bool
ends_with wanted String.[] = false
ends_with wanted (String.◌∷◌ c String.[]) = code c == wanted
ends_with wanted (String.◌∷◌ c (String.◌∷◌ d s)) = ends_with wanted (String.◌∷◌ d s)

abbrev is_bracket : ℕ → Bool
is_bracket c = c == 91 || c == 93

unfoldable pub only_brackets : String → Bool
only_brackets String.[] = true
only_brackets (String.◌∷◌ c s) = is_bracket (code c) && only_brackets s

unfoldable pub trim_start_brackets : String → String
trim_start_brackets String.[] = ""
trim_start_brackets (String.◌∷◌ c s) =
    let rest = trim_start_brackets s in if is_bracket (code c) then rest else String.◌∷◌ c s

unfoldable pub trim_end_brackets : String → String
trim_end_brackets String.[] = ""
trim_end_brackets (String.◌∷◌ c s) =
    let rest = trim_end_brackets s in
    if is_bracket (code c) && only_brackets s then "" else String.◌∷◌ c rest

-- `line.trim_matches(['[', ']'])`
abbrev pub trim_brackets : String → String
trim_brackets s = trim_start_brackets (trim_end_brackets s)

-- 35 is `#`.
unfoldable pub strip_comment : String → String
strip_comment line = elim (split_once 35 line) [ none ↦ line | some parts ↦ parts.0 ]

-- What follows is read from outside a quotation or, with what it holds so far, from inside one; one
-- that is not closed counts for nothing. 34 is the quotation mark.
unfoldable pub quoted_from : Option String → String → List String
quoted_from state String.[] = []
quoted_from none (String.◌∷◌ c s) =
    let opened = quoted_from (some "") s in
    let skipped = quoted_from none s in if code c == 34 then opened else skipped
quoted_from (some held) (String.◌∷◌ c s) =
    let closed = quoted_from none s in
    let longer = quoted_from (some (held <> String.◌∷◌ c String.[])) s in
    if code c == 34 then held ∷ closed else longer

abbrev pub quoted_strings : String → List String
quoted_strings line = quoted_from none line

-- The variables of the loop over the lines.
pub record Reading : Type 0 where
  pub group_order : List String
  pub groups : Map String (List String)
  pub section : String
  pub active_array : Option String
  pub active_items : List String

unfoldable pub start : Reading
start = record {
  group_order = [];
  groups = [];
  section = "";
  active_array = none;
  active_items = [];
}

-- An array that is complete: the group order, or a group where `is_group` says so.
unfoldable pub close_array : Reading → String → Bool → List String → Reading
close_array r name is_group items =
    if same_key name "group_order"
    then record {
      group_order = items;
      groups = r.groups;
      section = r.section;
      active_array = none;
      active_items = [];
    }
    else if is_group
    then record {
      group_order = r.group_order;
      groups = Maps.insert name items r.groups;
      section = r.section;
      active_array = none;
      active_items = [];
    }
    else record {
      group_order = r.group_order;
      groups = r.groups;
      section = r.section;
      active_array = none;
      active_items = items;
    }

abbrev pub with_array : Reading → Option String → List String → Reading
with_array r name items = record {
  group_order = r.group_order;
  groups = r.groups;
  section = r.section;
  active_array = name;
  active_items = items;
}

abbrev pub with_section : Reading → String → Reading
with_section r name = record {
  group_order = r.group_order;
  groups = r.groups;
  section = name;
  active_array = r.active_array;
  active_items = r.active_items;
}

-- `key = rest`, where `rest` opens an array; 93 is the closing bracket.
unfoldable pub read_entry : Reading → String → String → Reading
read_entry r key rest =
    let in_groups = same_key r.section "groups" in
    if not (starts_with rest "[")
    then r
    else if has_char 93 rest
    then close_array r key in_groups (quoted_strings rest)
    else if same_key key "group_order" || in_groups
    then with_array r (some key) (quoted_strings rest)
    else with_array r none (quoted_strings rest)

-- The body of the loop, on a line without its comment and its blanks.
unfoldable pub read_line : Reading → String → Reading
read_line r line = if same_key line "" then r else elim r.active_array [
  | some name ↦
      let items = r.active_items ++ quoted_strings line in
      if has_char 93 line then close_array r name true items else with_array r (some name) items
  | none ↦
      if starts_with line "[" && ends_with 93 line
      then with_section r (trim_brackets line)
      else elim (split_once 61 line) [
        | none ↦ r
        | some parts ↦ read_entry r (trim parts.0) (trim parts.1)
      ]
]

unfoldable pub read_lines : Reading → List String → Reading
read_lines r [] = r
read_lines r (raw ∷ rest) = read_lines (read_line r (trim (strip_comment raw))) rest

-- The packages of a group; `BTreeMap::insert` gives the previous group of a package.
unfoldable pub assign :
    String → List String → Map String String → Result CutError (Map String String)
assign group [] package_groups = ok package_groups
assign group (name ∷ rest) package_groups = elim (Maps.get package_groups name) [
  | some previous ↦ err (package_in_two_groups name previous group)
  | none ↦ assign group rest (Maps.insert name group package_groups)
]

unfoldable pub assign_all :
    List String → Map String (List String) → Map String String → Result CutError (Map String String)
assign_all group_order [] package_groups = ok package_groups
assign_all group_order ((group, packages) ∷ rest) package_groups = do
  refuse_if (not (Sets.contains group_order group)) (group_not_ordered group)
  assigned ← assign group packages package_groups
  assign_all group_order rest assigned

-- `ordered.difference(&configured).next()`
unfoldable pub refuse_first : List String → Result CutError (Unit {0})
refuse_first [] = ok tt
refuse_first (group ∷ _) = err (group_without_packages group)

unfoldable pub finish : Reading → Result CutError SplitCut
finish r = do
  elim r.active_array [ none ↦ ok tt | some name ↦ err (unterminated_array name) ]
  elim r.group_order [ [] ↦ err missing_group_order | _ ∷ _ ↦ ok tt ]
  elim r.groups [ [] ↦ err missing_groups | _ ∷ _ ↦ ok tt ]
  package_groups ← assign_all r.group_order r.groups []
  refuse_first (Sets.difference (Sets.from_list r.group_order) (keys r.groups))
  ok (record { group_order = r.group_order; groups = r.groups; package_groups = package_groups })

unfoldable pub parse_split_cut : String → Result CutError SplitCut
parse_split_cut text = finish (read_lines start (lines text))

unfoldable pub all_in_workspace : List String → Map String String → Map String String
all_in_workspace [] package_groups = package_groups
all_in_workspace (name ∷ rest) package_groups =
    all_in_workspace rest (Maps.insert name "workspace" package_groups)

-- The names are those of a `BTreeSet`.
unfoldable pub derive_split_cut : List String → Result CutError SplitCut
derive_split_cut [] = err empty_workspace
derive_split_cut (name ∷ rest) = ok (record {
  group_order = "workspace" ∷ [];
  groups = ("workspace", name ∷ rest) ∷ [];
  package_groups = all_in_workspace (name ∷ rest) [];
})

-- The file is absent, or given by what reading it returns.
unfoldable pub load_or_derive_split_cut :
    Option (Result String String) → List String → Result CutError SplitCut
load_or_derive_split_cut none package_names = derive_split_cut package_names
load_or_derive_split_cut (some (ok text)) package_names = parse_split_cut text
load_or_derive_split_cut (some (err e)) package_names = err (unreadable e)
