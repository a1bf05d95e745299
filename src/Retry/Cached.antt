-- ===== src/Retry/Cached.antt =====
-- The cache file behind a notification.
use mathlib.Core.List.{Permᴰ}
use eqemu_monomyth_client.Prelude.{
  ℕ, ◌≡◌, ◌≤◌, ◌<◌, ◌∙◌, ap, true, false, ◌==◌, List, Option, some, is_nil, All, length,
}
use eqemu_monomyth_client.Wire.Names.{normalize_name}
use eqemu_monomyth_client.AuthStats.Observe.{Snapshot}
use eqemu_monomyth_client.Cache.Lines.{CacheEntry}
use eqemu_monomyth_client.Cache.Store.{
  max_cache_file_bytes, read_cache_entries, listed_entries, build_cache_file_contents,
  store_character_class_mask, try_lookup_character_class_mask,
}
use eqemu_monomyth_client.Cache.RoundTrip.{IsWritable}
use eqemu_monomyth_client.Cache.Lookup.{SameServer, stored}
use eqemu_monomyth_client.Cache.Stored.{written, store_done, try_lookup-store_character_class_mask}
use eqemu_monomyth_client.Retry.Notify.{
  Persist, PersistAnswers, persisted_file, try_persist_pending_multiclass_cache, notify_cache,
}

abbrev pub all_read : List ℕ → ℕ → List ℕ → PersistAnswers
all_read name native server = record {
  profile_class_id = some native;
  server_name = some server;
  local_player_name = some name;
}

abbrev pub nothing_pending : Persist
nothing_pending = record { pending = false; pending_mask = 0 }

-- The file that a notification stores, where everything can be read.
notify_cache-store :
    (sort : List CacheEntry → List CacheEntry) (snapshot : Snapshot) (p : Persist) (name : List ℕ)
    (native : ℕ) (server : List ℕ) (file : Option (List ℕ))
    → snapshot.has_classes_bitmask ≡ true
    → (snapshot.classes_bitmask == 0) ≡ false
    → is_nil (normalize_name name) ≡ false
    → is_nil (normalize_name server) ≡ false
    → notify_cache sort true snapshot (all_read name native server) p file ≡ (
      nothing_pending,
      (store_character_class_mask sort true name snapshot.classes_bitmask native server file).0,
    )
unfolding notify_cache try_persist_pending_multiclass_cache persisted_file
notify_cache-store sort snapshot p name native server file known some_mask named on_server =
    let done = store_done sort name snapshot.classes_bitmask native server file named on_server in
    simp (known, some_mask, done)

-- Once the server's statistics with a mask of classes have come, nothing is left to persist and a
-- later session finds the mask in the cache file by the character's name, class and server. Where
-- the profile's class, the server and the character's name are read, and with the conditions under
-- which the file gives back what is stored.
pub try_lookup-notify_cache :
    (sort : List CacheEntry → List CacheEntry) (snapshot : Snapshot) (p : Persist) (name : List ℕ)
    (native : ℕ) (server : List ℕ) (file : Option (List ℕ))
    → snapshot.has_classes_bitmask ≡ true
    → (snapshot.classes_bitmask == 0) ≡ false
    → ((es : List CacheEntry) → Permᴰ es (sort es))
    → native < 256
    → IsWritable (stored name snapshot.classes_bitmask native server)
    → All IsWritable (listed_entries (read_cache_entries file))
    → All
        (SameServer (stored name snapshot.classes_bitmask native server))
        (listed_entries (read_cache_entries file))
    → length (
        build_cache_file_contents sort
          (written (stored name snapshot.classes_bitmask native server) file))
      ≤ max_cache_file_bytes
    → let r = notify_cache sort true snapshot (all_read name native server) p file in
      (r.0 ≡ nothing_pending)
      × (try_lookup_character_class_mask name native server r.1 ≡ some snapshot.classes_bitmask)
try_lookup-notify_cache sort snapshot p name native server file known some_mask perm small w ws same
      fits =
    let after =
      notify_cache-store sort snapshot p name native server file known some_mask w.named
        w.on_server in
    (
      ap (λ r. r.0) after,
      ap (λ r. try_lookup_character_class_mask name native server r.1) after
          ∙ try_lookup-store_character_class_mask sort name snapshot.classes_bitmask native server
              file perm small w ws same fits,
    )
