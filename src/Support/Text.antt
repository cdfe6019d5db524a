-- ===== src/Support/Text.antt =====
-- `str` as the code uses it: lines, fields, blanks and prefixes.
use Prim.Native.Char.{Char, code}
use Prim.Native.String.{String}
use Prim.Native.Nat.{ℕ}
use mathlib.Core.Bool.{Bool, true, false, ◌&&◌, ◌||◌}
use mathlib.Core.List.{List, [], ◌∷◌}
use sim_tooling.Support.Tests.{leb, ◌==◌, if◌then◌else◌}

-- `char::is_whitespace`
abbrev is_whitespace : ℕ → Bool
is_whitespace c =
    (leb 9 c && leb c 13)
    || (c == 32
        || (c == 133
            || (c == 160
                || (c == 5760
                    || ((leb 8192 c && leb c 8202)
                        || (c == 8232
                            || (c == 8233 || (c == 8239 || (c == 8287 || c == 12288)))))))))

-- `text.trim().is_empty()`
unfoldable pub is_blank : String → Bool
is_blank String.[] = true
is_blank (String.◌∷◌ c s) = is_whitespace (code c) && is_blank s

-- `text.trim_start()`
unfoldable pub trim_start : String → String
trim_start String.[] = ""
trim_start (String.◌∷◌ c s) =
    let rest = trim_start s in if is_whitespace (code c) then rest else String.◌∷◌ c s

-- `text.trim_end()`
unfoldable pub trim_end : String → String
trim_end String.[] = ""
trim_end (String.◌∷◌ c s) =
    let rest = trim_end s in
    if is_whitespace (code c) && is_blank rest then "" else String.◌∷◌ c rest

-- `text.trim()`
abbrev pub trim : String → String
trim s = trim_start (trim_end s)

abbrev put_first : Char → List String → List String
put_first c [] = String.◌∷◌ c String.[] ∷ []
put_first c (s ∷ ss) = String.◌∷◌ c s ∷ ss

-- `text.split(sep)`
unfoldable pub split : ℕ → String → List String
split sep String.[] = "" ∷ []
split sep (String.◌∷◌ c s) =
    let rest = split sep s in if code c == sep then "" ∷ rest else put_first c rest

-- `text.starts_with(prefix)`
unfoldable pub starts_with : String → String → Bool
starts_with s String.[] = true
starts_with String.[] (String.◌∷◌ p ps) = false
starts_with (String.◌∷◌ c s) (String.◌∷◌ p ps) = code c == code p && starts_with s ps

-- A line without the `\r` at its end.
unfoldable strip_return : String → String
strip_return String.[] = ""
strip_return (String.◌∷◌ c String.[]) = if code c == 13 then "" else String.◌∷◌ c String.[]
strip_return (String.◌∷◌ c (String.◌∷◌ d s)) = String.◌∷◌ c (strip_return (String.◌∷◌ d s))

-- `text.lines()`: what follows the last `\n` is a line only if it holds something.
abbrev lines_of : List String → List String
lines_of [] = []
lines_of (String.[] ∷ []) = []
lines_of (String.◌∷◌ c s ∷ []) = String.◌∷◌ c s ∷ []
lines_of (s ∷ t ∷ ss) = strip_return s ∷ lines_of (t ∷ ss)

unfoldable pub lines : String → List String
unfolding split strip_return
lines s = lines_of (split 10 s)
