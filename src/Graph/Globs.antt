-- ===== src/Graph/Globs.antt =====
-- globToRegExp of src/services/brain-graph.ts: the expression as a list of its parts, and its matching.
use brain_mcp_server.Prelude.{
  Bool, false, not, ◌&&◌, ◌||◌, List, [], ◌∷◌, ℕ, Text, ◌==◌, nat_eq, if◌then◌else◌, is_empty,
}
use brain_mcp_server.Policy.Patterns.{is_terminator}

-- `.*`, `[^/]*`, `[^/]` and a unit.
pub data GlobPart : Type 0 where
  any_path any_name any_unit : GlobPart
  unit : ℕ → GlobPart

-- A unit U+0000 is what the source puts for `**`.
abbrev glob_part : ℕ → GlobPart
glob_part c =
    if c == b'*'
    then any_name
    else if c == 0
    then any_path
    else if c == b'?'
    then any_unit
    else unit c

unfoldable pub glob_parts : Text → List GlobPart
glob_parts [] = []
glob_parts (c ∷ []) = glob_part c ∷ []
glob_parts (c ∷ d ∷ s) =
    let pair = glob_parts s in
    let rest = glob_parts (d ∷ s) in
    if (c == b'*') && (d == b'*') then any_path ∷ pair else glob_part c ∷ rest

unfoldable pub matches_parts : List GlobPart → Text → Bool
matches_parts [] s = is_empty s
matches_parts (any_path ∷ ps) [] = matches_parts ps []
matches_parts (any_path ∷ ps) (c ∷ s) =
    matches_parts ps (c ∷ s) || not (is_terminator c) && matches_parts (any_path ∷ ps) s
matches_parts (any_name ∷ ps) [] = matches_parts ps []
matches_parts (any_name ∷ ps) (c ∷ s) =
    matches_parts ps (c ∷ s) || not (c == b'/') && matches_parts (any_name ∷ ps) s
matches_parts (any_unit ∷ ps) [] = false
matches_parts (any_unit ∷ ps) (c ∷ s) = not (c == b'/') && matches_parts ps s
matches_parts (unit d ∷ ps) [] = false
matches_parts (unit d ∷ ps) (c ∷ s) = (c == d) && matches_parts ps s

-- `globToRegExp(glob).test(filename)`
unfoldable pub glob_matches : Text → Text → Bool
unfolding glob_parts matches_parts
glob_matches glob filename = matches_parts (glob_parts glob) filename
