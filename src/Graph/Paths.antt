-- ===== src/Graph/Paths.antt =====
-- What src/services/brain-graph.ts takes from `path.posix`, and its tests on paths.
use brain_mcp_server.Policy.Patterns.{ends_with}
use brain_mcp_server.Prelude.{
  Bool, true, false, not, ◌&&◌, ◌||◌, List, [], ◌∷◌, ◌++◌, reverse, ℕ, Text, codes, text_eq, nat_eq,
  ◌==◌, split, join, is_empty, starts_with, if◌then◌else◌, leb,
}

-- The longest prefix whose units pass the test, and what follows it.
unfoldable pub take_while : (ℕ → Bool) → Text → Text
take_while p [] = []
take_while p (c ∷ s) = if p c then c ∷ take_while p s else []

unfoldable pub drop_while : (ℕ → Bool) → Text → Text
drop_while p [] = []
drop_while p (c ∷ s) = if p c then drop_while p s else c ∷ s

abbrev pub is_slash : ℕ → Bool
is_slash c = c == b'/'

unfoldable pub is_absolute : Text → Bool
is_absolute s = starts_with s (codes "/")

-- One segment of `normalizeString`, over the segments kept so far, the last one first.
unfoldable pub keep_segment : Bool → Text → List Text → List Text
keep_segment above segment [] =
    if is_empty segment || segment == codes "."
    then []
    else if segment == codes ".."
    then (if above then segment ∷ [] else [])
    else segment ∷ []
keep_segment above segment (last ∷ kept) =
    if is_empty segment || segment == codes "."
    then last ∷ kept
    else if segment == codes ".."
    then (if last == codes ".."
        then (if above then segment ∷ last ∷ kept else last ∷ kept)
        else kept)
    else segment ∷ last ∷ kept

unfoldable pub keep_segments : Bool → List Text → List Text → List Text
unfolding keep_segment
keep_segments above [] kept = kept
keep_segments above (s ∷ ss) kept = keep_segments above ss (keep_segment above s kept)

-- `path.posix.normalize` of the kept segments.
abbrev normalized_path : (absolute trailing : Bool) → Text → Text
normalized_path true trailing [] = codes "/"
normalized_path false true [] = codes "./"
normalized_path false false [] = codes "."
normalized_path absolute trailing (c ∷ s) =
    (if absolute then codes "/" else []) ++ ((c ∷ s) ++ (if trailing then codes "/" else []))

unfoldable pub normalize : Text → Text
unfolding keep_segments is_absolute ends_with
normalize s =
    if is_empty s
    then codes "."
    else normalized_path (is_absolute s) (ends_with s (codes "/"))
        (join b'/' (reverse (keep_segments (not (is_absolute s)) (split b'/' s) [])))

-- `path.posix.join(s, t)`: empty parts are left out.
unfoldable pub join_paths : Text → Text → Text
unfolding normalize
join_paths [] [] = codes "."
join_paths [] (d ∷ t) = normalize (d ∷ t)
join_paths (c ∷ s) [] = normalize (c ∷ s)
join_paths (c ∷ s) (d ∷ t) = normalize ((c ∷ s) ++ (b'/' ∷ d ∷ t))

-- `path.posix.dirname`, over what stands before the last name, reversed.
abbrev directory_of : Bool → Text → Text
directory_of absolute [] = if absolute then codes "/" else codes "."
directory_of absolute (slash ∷ []) = codes "/"
directory_of absolute (slash ∷ c ∷ s) =
    if reverse (c ∷ s) == codes "/" then codes "//" else reverse (c ∷ s)

abbrev not_slash : ℕ → Bool
not_slash c = not (is_slash c)

unfoldable pub dirname : Text → Text
unfolding drop_while is_absolute
dirname s = directory_of (is_absolute s) (drop_while not_slash (drop_while is_slash (reverse s)))

-- `path.posix.basename`
unfoldable pub basename : Text → Text
unfolding take_while drop_while
basename s = reverse (take_while not_slash (drop_while is_slash (reverse s)))

-- `/^[A-Za-z]:[\\/]/`
abbrev is_letter : ℕ → Bool
is_letter c = leb b'A' c && leb c b'Z' || leb b'a' c && leb c b'z'

unfoldable pub is_drive : Text → Bool
is_drive (c ∷ colon ∷ slash ∷ s) = is_letter c && (colon == 58) && (slash == 92 || slash == b'/')
is_drive _ = false

-- `decoded.replace(/^(?:\.\.\/)+/, "")`
unfoldable pub without_parents : Text → Text
without_parents (a ∷ b ∷ c ∷ s) =
    let rest = without_parents s in
    if (a == b'.') && (b == b'.') && (c == b'/') then rest else a ∷ b ∷ c ∷ s
without_parents s = s

-- `decoded.replace(/^\.\//, "")`
unfoldable pub without_dot : Text → Text
without_dot (a ∷ b ∷ s) = if (a == b'.') && (b == b'/') then s else a ∷ b ∷ s
without_dot s = s

-- A path that leads out of the Brain.
unfoldable pub is_above : Text → Bool
is_above s = s == codes ".." || starts_with s (codes "../")
