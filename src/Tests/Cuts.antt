-- ===== src/Tests/Cuts.antt =====
-- Cuts of packages.
use sim_tooling.Support.{String, ◌≡◌, refl, some, [], ◌∷◌, ok, err, text_order}
use sim_tooling.Support.Sets
use sim_tooling.Support.Maps
use sim_tooling.Support.Text.{trim_start, trim_end, split, lines, starts_with, is_blank}
use sim_tooling.SimDoc.Cut.{
  SplitCut, package_in_two_groups, split_once, has_char, ends_with, only_brackets,
  trim_start_brackets, trim_end_brackets, strip_comment, quoted_from, start, close_array,
  read_entry, read_line, read_lines, assign, assign_all, refuse_first, finish, parse_split_cut,
  load_or_derive_split_cut,
}
use sim_tooling.SimDoc.Cut.Partition.{IsPartition, load_or_derive_split_cut-IsPartition}

abbrev file_text : String
file_text =
    "group_order = [\"core\", \"tools\"] # the order\n[groups]\ncore = [\n  \"sim-kernel\",\n  \"sim-codec\",\n]\ntools = [\"xtask\"]\n"

abbrev cut : SplitCut
cut = record {
  group_order = "core" ∷ "tools" ∷ [];
  groups = ("core", "sim-kernel" ∷ "sim-codec" ∷ []) ∷ ("tools", "xtask" ∷ []) ∷ [];
  package_groups = ("sim-codec", "core") ∷ ("sim-kernel", "core") ∷ ("xtask", "tools") ∷ [];
}

read_cut : load_or_derive_split_cut (some (ok file_text)) [] ≡ ok cut
unfolding load_or_derive_split_cut parse_split_cut finish read_lines read_line read_entry
    close_array start strip_comment split_once has_char ends_with only_brackets trim_start_brackets
    trim_end_brackets quoted_from assign assign_all refuse_first lines split trim_start trim_end
    is_blank starts_with Sets.contains Sets.from_list Sets.insert Sets.difference Maps.get
    Maps.insert
read_cut = refl

twice :
    parse_split_cut "group_order = [\"a\", \"b\"]\n[groups]\na = [\"x\"]\nb = [\"x\"]"
    ≡ err (package_in_two_groups "x" "a" "b")
unfolding load_or_derive_split_cut parse_split_cut finish read_lines read_line read_entry
    close_array start strip_comment split_once has_char ends_with only_brackets trim_start_brackets
    trim_end_brackets quoted_from assign assign_all refuse_first lines split trim_start trim_end
    is_blank starts_with Sets.contains Sets.from_list Sets.insert Sets.difference Maps.get
    Maps.insert
twice = refl

load_or_derive_split_cut-IsPartition_example : IsPartition cut
load_or_derive_split_cut-IsPartition_example =
    load_or_derive_split_cut-IsPartition (some (ok file_text)) [] cut read_cut
