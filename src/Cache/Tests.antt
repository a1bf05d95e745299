-- ===== src/Cache/Tests.antt =====
-- A mask, and a file with one name on two servers.
use mathlib.Core.List.Permᴰ
use eqemu_monomyth_client.Prelude.{
  ℕ, ◌≡◌, refl, true, List, [], ◌∷◌, ◌++◌, none, some, length, arith,
}
use eqemu_monomyth_client.Wire.Names.{normalize_name}
use eqemu_monomyth_client.Cache.Hex.{parse_hex_u32, hex_loop, hex_digit}
use eqemu_monomyth_client.Cache.Value.{hex_value, fitting, parse_hex_u32-fitting}
use eqemu_monomyth_client.Cache.Lines.{
  cache_header, header_version, lines_of, strip_return, cut, atoi_digits, positive_atoi,
  native_class_of, parse_tail, mask_field_of, parse_line, put_cache_entry, parse_lines,
  parse_cache_lines, parse_cache_entries,
}
use eqemu_monomyth_client.Cache.Names.{entries_of}
use eqemu_monomyth_client.Cache.Folded.{DistinctNames, parse_cache_entries-DistinctNames}
use eqemu_monomyth_client.Cache.Lines.{CacheEntry}
use eqemu_monomyth_client.Cache.Store.{
  hex_text, entry_lines, read_cache_entries, try_lookup_character_class_mask, store_entry,
  build_cache_file_contents, store_character_class_mask,
}
use eqemu_monomyth_client.Cache.RoundTrip.{IsWritable, parse_cache_entries-build}
use eqemu_monomyth_client.Cache.Lookup.{stored}
use eqemu_monomyth_client.AuthStats.Observe.{Snapshot, initial_globals}
use eqemu_monomyth_client.Retry.Notify.{notify_cache}
use eqemu_monomyth_client.Retry.Cached.{all_read, nothing_pending, try_lookup-notify_cache}
use eqemu_monomyth_client.Cache.Stored.{try_lookup-store_character_class_mask}

-- 0x0803.
parse_hex_u32-fitting_example :
    parse_hex_u32 (b'0' ∷ b'x' ∷ b'0' ∷ b'8' ∷ b'0' ∷ b'3' ∷ [])
    ≡ fitting (hex_value 0 (b'0' ∷ b'8' ∷ b'0' ∷ b'3' ∷ []))
parse_hex_u32-fitting_example = parse_hex_u32-fitting b'x' b'0' (b'8' ∷ b'0' ∷ b'3' ∷ []) refl

-- Ann|0x3|1|s and ann|0x1|1|t.
abbrev two_servers : List ℕ
two_servers =
    cache_header
    ++ b'3' ∷ 10 ∷ b'A' ∷ b'n' ∷ b'n' ∷ b'|' ∷ b'0' ∷ b'x' ∷ b'3' ∷ b'|' ∷ b'1' ∷ b'|' ∷ b's' ∷ 10
      ∷ b'a' ∷ b'n' ∷ b'n' ∷ b'|' ∷ b'0' ∷ b'x' ∷ b'1' ∷ b'|' ∷ b'1' ∷ b'|' ∷ b't' ∷ 10 ∷ []

one_is_kept : length (entries_of (parse_cache_entries two_servers)) ≡ 1
unfolding parse_cache_entries parse_cache_lines header_version lines_of strip_return cut atoi_digits
    positive_atoi native_class_of parse_tail mask_field_of parse_line put_cache_entry parse_lines
    normalize_name parse_hex_u32 hex_loop hex_digit
one_is_kept = refl

parse_cache_entries-DistinctNames_example :
    DistinctNames (entries_of (parse_cache_entries two_servers))
parse_cache_entries-DistinctNames_example = parse_cache_entries-DistinctNames two_servers

-- Ann, a warrior and shadow knight on the server s.
abbrev ann : CacheEntry
ann = stored (b'A' ∷ b'n' ∷ b'n' ∷ []) 0x11 5 (b's' ∷ [])

abbrev as_they_are : List CacheEntry → List CacheEntry
as_they_are entries = entries

ann-IsWritable : IsWritable ann
unfolding normalize_name
ann-IsWritable = record {
  name_bytes = ((λ h. omega (arith, h)), ((λ h. omega (arith, h)), ((λ h. omega (arith, h)), tt)));
  name_line = ((λ h. omega (arith, h)), ((λ h. omega (arith, h)), ((λ h. omega (arith, h)), tt)));
  server_line = ((λ h. omega (arith, h)), tt);
  named = refl;
  on_server = refl;
  name_normalized = refl;
  server_normalized = refl;
  mask_bound = omega arith;
  class_from = omega arith;
  class_to = omega arith;
}

parse_cache_entries-build_example :
    parse_cache_entries (build_cache_file_contents as_they_are (ann ∷ [])) ≡ some (ann ∷ [])
parse_cache_entries-build_example =
    parse_cache_entries-build as_they_are (ann ∷ []) (ann-IsWritable, tt) (refl, tt)

try_lookup-store_character_class_mask_example :
    try_lookup_character_class_mask
      (b'A' ∷ b'n' ∷ b'n' ∷ [])
      5
      (b's' ∷ [])
      (store_character_class_mask as_they_are true
        (b'A' ∷ b'n' ∷ b'n' ∷ [])
        0x11
        5
        (b's' ∷ [])
        none).0
    ≡ some 0x11
unfolding read_cache_entries store_entry build_cache_file_contents entry_lines hex_text
    normalize_name
try_lookup-store_character_class_mask_example =
    try_lookup-store_character_class_mask as_they_are (b'A' ∷ b'n' ∷ b'n' ∷ []) 0x11 5 (b's' ∷ [])
      none (λ es. Permᴰ.refl es) (omega arith) ann-IsWritable tt tt (omega arith)

abbrev ann_stats : Snapshot
ann_stats = record initial_globals.stats { has_classes_bitmask = true; classes_bitmask = 0x11 }

try_lookup-notify_cache_example :
    let r =
      notify_cache as_they_are true ann_stats
        (all_read (b'A' ∷ b'n' ∷ b'n' ∷ []) 5 (b's' ∷ []))
        nothing_pending
        none in
    (r.0 ≡ nothing_pending)
    × (try_lookup_character_class_mask (b'A' ∷ b'n' ∷ b'n' ∷ []) 5 (b's' ∷ []) r.1 ≡ some 0x11)
unfolding read_cache_entries store_entry build_cache_file_contents entry_lines hex_text
    normalize_name
try_lookup-notify_cache_example =
    try_lookup-notify_cache as_they_are ann_stats nothing_pending (b'A' ∷ b'n' ∷ b'n' ∷ []) 5
      (b's' ∷ []) none refl refl (λ es. Permᴰ.refl es) (omega arith) ann-IsWritable tt tt
      (omega arith)
