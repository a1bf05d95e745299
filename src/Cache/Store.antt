-- ===== src/Cache/Store.antt =====
-- The cache file: BuildCacheFileContents, ReadCacheEntries, WriteCacheEntries, the lookups and
-- StoreCharacterClassMask. The file's bytes are the state, `none` where it cannot be read; what
-- the system does is a parameter: `std::sort`, and whether the directory and the file are written.
-- A name that is a null pointer is the empty text, which the functions treat alike.
use eqemu_monomyth_client.Prelude.{
  ℕ, zero, suc, ◌+◌, ◌-◌, ◌*◌, ◌/◌, ◌%◌, ◌^◌, bit_and, Bool, true, false, not, ltb, ◌==◌, ◌!=◌,
  ◌||◌, ◌&&◌, List, [], ◌∷◌, ◌++◌, Option, none, some, ◌>>=◌, is_nil, eq_bytes, length,
  if◌then◌else◌,
}
use eqemu_monomyth_client.Wire.Names.{normalize_name}
use eqemu_monomyth_client.Cache.Lines.{CacheEntry, cache_header, parse_cache_entries}

-- kMaxCacheFileBytes.
abbrev pub max_cache_file_bytes : ℕ
max_cache_file_bytes = 64 * 1024

abbrev pub hex_char : ℕ → ℕ
hex_char digit = if ltb digit 10 then b'0' + digit else b'a' + (digit - 10)

-- `std::hex` with `std::setw(8)` and `std::setfill('0')`, of 32 bits.
unfoldable pub hex_text : ℕ → ℕ → List ℕ
hex_text zero value = []
hex_text (suc places) value = hex_char (value / 16 ^ places % 16) ∷ hex_text places value

-- `std::dec`, of 8 bits.
abbrev pub dec_text : ℕ → List ℕ
dec_text value =
    if ltb value 10
    then (b'0' + value) ∷ []
    else if ltb value 100
    then (b'0' + value / 10) ∷ (b'0' + value % 10) ∷ []
    else (b'0' + value / 100) ∷ (b'0' + value / 10 % 10) ∷ (b'0' + value % 10) ∷ []

-- The mask's field, and the fields behind it.
abbrev pub mask_text : CacheEntry → List ℕ
mask_text entry = b'0' ∷ b'x' ∷ hex_text 8 entry.classes_bitmask

abbrev pub tail_text : CacheEntry → List ℕ
tail_text entry = dec_text entry.native_class_id ++ (b'|' ∷ entry.server_name)

-- A line, before "\r\n".
abbrev pub entry_line : CacheEntry → List ℕ
entry_line entry = entry.name ++ (b'|' ∷ (mask_text entry ++ (b'|' ∷ tail_text entry)))

unfoldable pub entry_lines : List CacheEntry → List ℕ
entry_lines [] = []
entry_lines (entry ∷ entries) =
    let later = entry_lines entries in
    if is_nil entry.name || is_nil entry.normalized_name
    then later
    else entry_line entry ++ (13 ∷ 10 ∷ later)

unfoldable pub read_cache_entries : Option (List ℕ) → Option (List CacheEntry)
read_cache_entries none = none
read_cache_entries (some bytes) =
    if ltb max_cache_file_bytes (length bytes) then none else parse_cache_entries bytes

-- The entry of that name, if it is of the server and class that are asked for.
unfoldable pub find_named : List ℕ → ℕ → List ℕ → List CacheEntry → Option ℕ
find_named name expected_native_class_id server [] = none
find_named name expected_native_class_id server (entry ∷ entries) =
    let later = find_named name expected_native_class_id server entries in
    if not (eq_bytes entry.normalized_name name)
    then later
    else if not (is_nil server)
        && (is_nil entry.normalized_server_name
            || not (eq_bytes entry.normalized_server_name server))
    then none
    else if expected_native_class_id != 0
        && entry.native_class_id != 0
        && entry.native_class_id != expected_native_class_id
    then none
    else some entry.classes_bitmask

unfoldable pub try_lookup_character_class_mask : List ℕ → ℕ → List ℕ → Option (List ℕ) → Option ℕ
try_lookup_character_class_mask character_name expected_native_class_id expected_server_name file =
    if is_nil character_name || is_nil (normalize_name character_name) then none else do
      entries ← read_cache_entries file
      find_named (normalize_name character_name) expected_native_class_id
          (normalize_name expected_server_name) entries

-- The entry is looked at: its server, its class, and the class's bit in its mask.
abbrev pub is_candidate : ℕ → List ℕ → CacheEntry → Bool
is_candidate native_class_id server entry =
    not (
      not (is_nil server)
      && (is_nil entry.normalized_server_name
          || not (eq_bytes entry.normalized_server_name server)))
    && not (entry.native_class_id != 0 && entry.native_class_id != native_class_id)
    && bit_and entry.classes_bitmask (2 ^ (native_class_id - 1)) != 0

-- The loop; `found` is the mask that was matched.
unfoldable pub find_unique : ℕ → List ℕ → Option ℕ → List CacheEntry → Option ℕ
find_unique native_class_id server found [] = found
find_unique native_class_id server none (entry ∷ entries) =
    find_unique native_class_id server
      (if is_candidate native_class_id server entry then some entry.classes_bitmask else none)
      entries
find_unique native_class_id server (some matched_mask) (entry ∷ entries) =
    let later = find_unique native_class_id server (some matched_mask) entries in
    if is_candidate native_class_id server entry && matched_mask != entry.classes_bitmask
    then none
    else later

unfoldable pub try_lookup_unique_class_mask_for_native_class_id :
    ℕ → List ℕ → Option (List ℕ) → Option ℕ
try_lookup_unique_class_mask_for_native_class_id native_class_id expected_server_name file =
    if native_class_id == 0 || ltb 32 native_class_id then none else do
      entries ← read_cache_entries file
      find_unique native_class_id (normalize_name expected_server_name) none entries

-- The entry of that name on that server, overwritten but for its normalized name, or added.
unfoldable pub store_entry : CacheEntry → List CacheEntry → List CacheEntry
store_entry new [] = new ∷ []
store_entry new (entry ∷ entries) =
    let later = entry ∷ store_entry new entries in
    if eq_bytes entry.normalized_name new.normalized_name
      && eq_bytes entry.normalized_server_name new.normalized_server_name
    then record new { normalized_name = entry.normalized_name } ∷ entries
    else later

abbrev pub listed_entries : Option (List CacheEntry) → List CacheEntry
listed_entries none = []
listed_entries (some entries) = entries

module _ (sort : List CacheEntry → List CacheEntry) where
  unfoldable pub build_cache_file_contents : List CacheEntry → List ℕ
  build_cache_file_contents entries = cache_header ++ (b'3' ∷ 13 ∷ 10 ∷ entry_lines (sort entries))

module _ (sort : List CacheEntry → List CacheEntry) (writable : Bool) where
  -- The new file is written beside the old one, which stays where this fails.
  unfoldable pub write_cache_entries : List CacheEntry → Option (List ℕ) → Option (List ℕ) × Bool
  write_cache_entries entries file =
      if writable then (some (build_cache_file_contents sort entries), true) else (file, false)

  unfoldable pub store_character_class_mask :
      List ℕ → ℕ → ℕ → List ℕ → Option (List ℕ) → Option (List ℕ) × Bool
  store_character_class_mask character_name classes_bitmask native_class_id server_name file =
      if is_nil character_name
        || is_nil server_name
        || is_nil (normalize_name character_name)
        || is_nil (normalize_name server_name)
      then (file, false)
      else write_cache_entries
          (store_entry
            (record {
              name = character_name;
              normalized_name = normalize_name character_name;
              classes_bitmask = classes_bitmask;
              native_class_id = native_class_id % 256;
              server_name = server_name;
              normalized_server_name = normalize_name server_name;
            })
            (listed_entries (read_cache_entries file)))
          file
