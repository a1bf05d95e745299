-- ===== src/Cache/Lines.antt =====
-- ParseCacheEntries. The lines are the bytes between newlines; a line that is skipped is `none`.
use eqemu_monomyth_client.Prelude.{
  ℕ, ◌+◌, ◌-◌, ◌*◌, Bool, not, ltb, leb, ◌==◌, ◌||◌, ◌&&◌, List, [], ◌∷◌, ◌++◌, Option, none, some,
  ◌>>=◌, ◌>>◌, guard, is_nil, eq_bytes, if◌then◌else◌,
}
use eqemu_monomyth_client.Wire.Names.{normalize_name}
use eqemu_monomyth_client.Cache.Hex.{parse_hex_u32}

pub record CacheEntry : Type 0 where
  pub name : List ℕ
  pub normalized_name : List ℕ
  pub classes_bitmask : ℕ
  pub native_class_id : ℕ
  pub server_name : List ℕ
  pub normalized_server_name : List ℕ

pub data CacheVersion : Type 0 where
  version_1 version_2 version_3 : CacheVersion

-- "MONOMYTH_MULTICLASS_CACHE_V".
abbrev pub cache_header : List ℕ
cache_header =
    b'M' ∷ b'O' ∷ b'N' ∷ b'O' ∷ b'M' ∷ b'Y' ∷ b'T' ∷ b'H' ∷ b'_' ∷ b'M' ∷ b'U' ∷ b'L' ∷ b'T' ∷ b'I'
    ∷ b'C' ∷ b'L' ∷ b'A' ∷ b'S' ∷ b'S' ∷ b'_' ∷ b'C' ∷ b'A' ∷ b'C' ∷ b'H' ∷ b'E' ∷ b'_' ∷ b'V' ∷ []

unfoldable pub header_version : List ℕ → Option CacheVersion
header_version header =
    if eq_bytes header (cache_header ++ b'1' ∷ [])
    then some version_1
    else if eq_bytes header (cache_header ++ b'2' ∷ [])
    then some version_2
    else if eq_bytes header (cache_header ++ b'3' ∷ [])
    then some version_3
    else none

-- The lines from `current` on, the part of a line that was passed; no line follows the last
-- newline.
unfoldable pub lines_of : List ℕ → List ℕ → List (List ℕ)
lines_of current [] = if is_nil current then [] else current ∷ []
lines_of current (ch ∷ rest) =
    let next = current ∷ lines_of [] rest in
    let more = lines_of (current ++ ch ∷ []) rest in if ch == 10 then next else more

-- `remove_suffix(1)` if the line ends in '\r'.
unfoldable pub strip_return : List ℕ → List ℕ
strip_return [] = []
strip_return (ch ∷ []) = if ch == 13 then [] else ch ∷ []
strip_return (ch ∷ next ∷ rest) = ch ∷ strip_return (next ∷ rest)

-- What stands before and behind the first '|'.
unfoldable pub cut : List ℕ → Option (List ℕ × List ℕ)
cut [] = none
cut (ch ∷ rest) =
    let later = cut rest >>= λ (before, behind). some (ch ∷ before, behind) in
    if ch == b'|' then some ([], rest) else later

abbrev pub is_space : ℕ → Bool
is_space ch = ch == 32 || leb 9 ch && leb ch 13

unfoldable pub atoi_digits : ℕ → List ℕ → ℕ
atoi_digits value [] = value
atoi_digits value (ch ∷ rest) =
    let later = atoi_digits (value * 10 + (ch - b'0')) rest in
    if leb b'0' ch && leb ch b'9' then later else value

-- `std::atoi(…)` if the value is above 0, and 0 otherwise.
unfoldable pub positive_atoi : List ℕ → ℕ
positive_atoi [] = 0
positive_atoi (ch ∷ rest) =
    let later = positive_atoi rest in
    if is_space ch
    then later
    else if ch == b'-'
    then 0
    else if ch == b'+'
    then atoi_digits 0 rest
    else atoi_digits 0 (ch ∷ rest)

-- The class id of a field, in 1 to 255.
unfoldable pub native_class_of : List ℕ → Option ℕ
native_class_of field =
    let parsed = positive_atoi field in if parsed == 0 || ltb 255 parsed then none else some parsed

-- The class id and the server behind the mask, by version.
unfoldable pub parse_tail : CacheVersion → List ℕ → Option (ℕ × List ℕ)
parse_tail version_1 behind = some (0, [])
parse_tail version_2 behind = do
  guard (not (is_nil behind))
  native ← native_class_of behind
  some (native, [])
parse_tail version_3 behind = do
  (field, server) ← cut behind
  native ← native_class_of field
  guard (not (is_nil server) && not (is_nil (normalize_name server)))
  some (native, server)

-- The mask's field and what stands behind it.
unfoldable pub mask_field_of : CacheVersion → List ℕ → Option (List ℕ × List ℕ)
mask_field_of version_1 behind = some (behind, [])
mask_field_of version_2 behind = cut behind
mask_field_of version_3 behind = cut behind

unfoldable pub parse_line : CacheVersion → List ℕ → Option CacheEntry
parse_line version line = do
  (name, behind) ← cut line
  guard (not (is_nil name) && not (is_nil behind))
  (mask_field, tail) ← mask_field_of version behind
  guard (not (is_nil (normalize_name name)))
  mask ← parse_hex_u32 mask_field
  (native, server) ← parse_tail version tail
  some (record {
    name = name;
    normalized_name = normalize_name name;
    classes_bitmask = mask;
    native_class_id = native;
    server_name = server;
    normalized_server_name = normalize_name server;
  })

-- The entry of that name is overwritten, or the entry added.
unfoldable pub put_cache_entry : CacheEntry → List CacheEntry → List CacheEntry
put_cache_entry new [] = new ∷ []
put_cache_entry new (entry ∷ entries) =
    let later = entry ∷ put_cache_entry new entries in
    if eq_bytes entry.normalized_name new.normalized_name then new ∷ entries else later

unfoldable pub parse_lines : CacheVersion → List (List ℕ) → List CacheEntry → List CacheEntry
parse_lines version [] entries = entries
parse_lines version (line ∷ rest) entries = elim (parse_line version (strip_return line)) [
  | none ↦ parse_lines version rest entries
  | some entry ↦ parse_lines version rest (put_cache_entry entry entries)
]

-- The header line and the lines behind it.
unfoldable pub parse_cache_lines : List (List ℕ) → Option (List CacheEntry)
parse_cache_lines [] = none
parse_cache_lines (header ∷ rest) = elim (header_version (strip_return header)) [
  | none ↦ none
  | some version ↦ some (parse_lines version rest [])
]

unfoldable pub parse_cache_entries : List ℕ → Option (List CacheEntry)
parse_cache_entries bytes = parse_cache_lines (lines_of [] bytes)
