-- ===== src/Cache/Stored.antt =====
-- What the next session reads from the cache file.
use eqemu_monomyth_client.Prelude.{
  ℕ, ◌%◌, ◌≤◌, ◌<◌, ◌≡◌, ◌∙◌, sym, ap, true, false, ltb, List, Option, some, is_nil, All, length,
  arith,
}
use mathlib.Core.Path.{subst}
use mathlib.Core.List.{Permᴰ}
use eqemu_monomyth_client.Wire.Names.{normalize_name}
use eqemu_monomyth_client.Cache.Lines.{CacheEntry, put_cache_entry}
use eqemu_monomyth_client.Cache.Store.{
  max_cache_file_bytes, read_cache_entries, find_named, try_lookup_character_class_mask,
  store_entry, listed_entries, build_cache_file_contents, write_cache_entries,
  store_character_class_mask,
}
use eqemu_monomyth_client.Cache.Names.{OneForEachName, put_cache_entry-OneForEachName}
use eqemu_monomyth_client.Cache.RoundTrip.{IsWritable, not_nil, parse_cache_entries-build}
use eqemu_monomyth_client.Cache.Lookup.{
  Held, SameServer, stored, perm-All, perm-Held, perm-OneForEachName, find_named-Held,
  put-store_entry, put_cache_entry-Held, put_cache_entry-IsWritable,
  read_cache_entries-OneForEachName,
}

-- The entries that are written: those of the file, with the new one put among them.
abbrev pub written : CacheEntry → Option (List ℕ) → List CacheEntry
written new file = store_entry new (listed_entries (read_cache_entries file))

-- What was written is read back.
read_cache_entries-build :
    (sort : List CacheEntry → List CacheEntry) (entries : List CacheEntry)
    → All IsWritable (sort entries)
    → OneForEachName (sort entries)
    → length (build_cache_file_contents sort entries) ≤ max_cache_file_bytes
    → read_cache_entries (some (build_cache_file_contents sort entries)) ≡ some (sort entries)
unfolding read_cache_entries
read_cache_entries-build sort entries w one fits =
    let small : ltb max_cache_file_bytes (length (build_cache_file_contents sort entries)) ≡ false =
      ground (arith, fits) in
    rw small (parse_cache_entries-build sort entries w one)

module _ (sort : List CacheEntry → List CacheEntry)
    (perm : (es : List CacheEntry) → Permᴰ es (sort es)) (new : CacheEntry) (file : Option (List ℕ))
    (w : IsWritable new) (ws : All IsWritable (listed_entries (read_cache_entries file)))
    (same : All (SameServer new) (listed_entries (read_cache_entries file))) where
  abbrev old : List CacheEntry
  old = listed_entries (read_cache_entries file)

  abbrev result : List CacheEntry
  result = store_entry new old

  put_result : put_cache_entry new old ≡ result
  put_result = sym (put-store_entry new old same)

  pub result-IsWritable : All IsWritable (sort result)
  result-IsWritable =
      perm-All IsWritable (perm result)
        (subst (All IsWritable) put_result (put_cache_entry-IsWritable new old w ws))

  pub result-OneForEachName : OneForEachName (sort result)
  result-OneForEachName = perm-OneForEachName (perm result) (
      subst OneForEachName put_result
        (put_cache_entry-OneForEachName new old (read_cache_entries-OneForEachName file)))

  pub result-Held : Held new (sort result)
  result-Held =
      perm-Held new (perm result) (subst (Held new) put_result (put_cache_entry-Held new old))

lookup_written :
    (name : List ℕ) (native : ℕ) (server : List ℕ) (bytes : List ℕ) (entries : List CacheEntry)
    → is_nil name ≡ false
    → is_nil (normalize_name name) ≡ false
    → read_cache_entries (some bytes) ≡ some entries
    → try_lookup_character_class_mask name native server (some bytes)
      ≡ find_named (normalize_name name) native (normalize_name server) entries
unfolding try_lookup_character_class_mask
lookup_written name native server bytes entries named normalized read = rw (named, normalized, read)

store_written :
    (sort : List CacheEntry → List CacheEntry) (name : List ℕ) (mask native : ℕ) (server : List ℕ)
    (file : Option (List ℕ))
    → is_nil (normalize_name name) ≡ false
    → is_nil (normalize_name server) ≡ false
    → (store_character_class_mask sort true name mask native server file).0
      ≡ some (build_cache_file_contents sort (written (stored name mask native server) file))
unfolding store_character_class_mask write_cache_entries
store_written sort name mask native server file named on_server =
    let some_name = not_nil name named in
    let some_server = not_nil server on_server in simp (some_name, some_server, named, on_server)

pub store_done :
    (sort : List CacheEntry → List CacheEntry) (name : List ℕ) (mask native : ℕ) (server : List ℕ)
    (file : Option (List ℕ))
    → is_nil (normalize_name name) ≡ false
    → is_nil (normalize_name server) ≡ false
    → (store_character_class_mask sort true name mask native server file).1 ≡ true
unfolding store_character_class_mask write_cache_entries
store_done sort name mask native server file named on_server =
    let some_name = not_nil name named in
    let some_server = not_nil server on_server in simp (some_name, some_server, named, on_server)

-- The classes that are stored for a character are the ones that a later session looks up by the
-- character's name, class and server. For a sort that permutes, names and entries that the file can
-- hold, no entry of the same name on another server, a file that can be written and that does not
-- grow beyond its limit.
pub try_lookup-store_character_class_mask :
    (sort : List CacheEntry → List CacheEntry) (name : List ℕ) (mask native : ℕ) (server : List ℕ)
    (file : Option (List ℕ))
    → ((es : List CacheEntry) → Permᴰ es (sort es))
    → native < 256
    → IsWritable (stored name mask native server)
    → All IsWritable (listed_entries (read_cache_entries file))
    → All (SameServer (stored name mask native server)) (listed_entries (read_cache_entries file))
    → length (build_cache_file_contents sort (written (stored name mask native server) file))
      ≤ max_cache_file_bytes
    → try_lookup_character_class_mask name native server
        (store_character_class_mask sort true name mask native server file).0
      ≡ some mask
try_lookup-store_character_class_mask sort name mask native server file perm small w ws same fits =
    let new = stored name mask native server in
    let entries = sort (written new file) in
    let class_id : native % 256 ≡ native = omega (arith, small) in
    let read =
      read_cache_entries-build sort (written new file)
        (result-IsWritable sort perm new file w ws same)
        (result-OneForEachName sort perm new file w ws same) fits in
    let found =
      find_named-Held new entries w.on_server (result-OneForEachName sort perm new file w ws same)
        (result-Held sort perm new file w ws same) in
    ap (try_lookup_character_class_mask name native server)
      (store_written sort name mask native server file w.named w.on_server)
    ∙ lookup_written name native server _ entries (not_nil name w.named) w.named read
    ∙ ap (λ n. find_named (normalize_name name) n (normalize_name server) entries) (sym class_id)
    ∙ found
