-- ===== src/RemoteIdentity/Store.antt =====
-- The store of class masks, by server and character name without regard to case. A `const char*`
-- is `none` for null; a method returns the new entries and its result.
use eqemu_monomyth_client.Prelude.{
  ℕ, ◌%◌, Bool, true, false, not, ◌!=◌, ◌&&◌, ◌||◌, List, [], ◌∷◌, Option, none, some, length,
  eq_bytes, is_nil, if◌then◌else◌,
}
use eqemu_monomyth_client.Wire.Names.{normalize_name}
use eqemu_monomyth_client.RemoteIdentity.Parse.{is_acceptable_remote_identity_entry}

pub record StoredEntry : Type 0 where
  pub normalized_server_name : List ℕ
  pub normalized_character_name : List ℕ
  pub native_class_id : ℕ
  pub classes_bitmask : ℕ

abbrev pub same_key : List ℕ → List ℕ → StoredEntry → Bool
same_key server character entry =
    eq_bytes entry.normalized_server_name server
    && eq_bytes entry.normalized_character_name character

-- The loop that updates the first entry of that key, and the `push_back` behind it.
unfoldable pub put_entry : StoredEntry → List StoredEntry → List StoredEntry
put_entry new [] = new ∷ []
put_entry new (entry ∷ entries) =
    if same_key new.normalized_server_name new.normalized_character_name entry
    then record entry {
      native_class_id = new.native_class_id;
      classes_bitmask = new.classes_bitmask;
    }
      ∷ entries
    else entry ∷ put_entry new entries

-- StoreCharacterClassMask on names that are not null.
unfoldable pub store_named : List ℕ → List ℕ → ℕ → ℕ → List StoredEntry → List StoredEntry × Bool
store_named server_name character_name native_class_id classes_bitmask entries =
    let server = normalize_name server_name in
    let character = normalize_name character_name in
    if is_nil server
      || is_nil character
      || not (is_acceptable_remote_identity_entry character_name native_class_id classes_bitmask)
    then (entries, false)
    else (
      put_entry
          (record {
            normalized_server_name = server;
            normalized_character_name = character;
            native_class_id = native_class_id % 256;
            classes_bitmask = classes_bitmask;
          })
          entries,
      true,
    )

unfoldable pub store_character_class_mask :
    Option (List ℕ) → Option (List ℕ) → ℕ → ℕ → List StoredEntry → List StoredEntry × Bool
unfolding store_named
store_character_class_mask none character_name native classes entries = (entries, false)
store_character_class_mask (some server) none native classes entries = (entries, false)
store_character_class_mask (some server) (some character) native classes entries =
    store_named server character native classes entries

-- The checks on the entry that was found.
unfoldable pub entry_mask : List ℕ → ℕ → StoredEntry → Option ℕ
entry_mask character_name expected_native_class_id entry =
    if expected_native_class_id != 0
      && entry.native_class_id != 0
      && entry.native_class_id != expected_native_class_id
    then none
    else if not (
        is_acceptable_remote_identity_entry character_name entry.native_class_id
          entry.classes_bitmask)
    then none
    else some entry.classes_bitmask

-- The loop: the first entry of that key decides.
unfoldable pub find_mask : List ℕ → List ℕ → List ℕ → ℕ → List StoredEntry → Option ℕ
find_mask server character character_name expected [] = none
find_mask server character character_name expected (entry ∷ entries) =
    if not (same_key server character entry)
    then find_mask server character character_name expected entries
    else entry_mask character_name expected entry

unfoldable pub lookup_named : List ℕ → List ℕ → ℕ → List StoredEntry → Option ℕ
lookup_named server_name character_name expected entries =
    let server = normalize_name server_name in
    let character = normalize_name character_name in
    if is_nil server || is_nil character
    then none
    else find_mask server character character_name expected entries

-- `none` is the result false; `some` the mask that is written.
unfoldable pub try_lookup_character_class_mask :
    Option (List ℕ) → Option (List ℕ) → ℕ → List StoredEntry → Option ℕ
unfolding lookup_named
try_lookup_character_class_mask none character_name expected entries = none
try_lookup_character_class_mask (some server) none expected entries = none
try_lookup_character_class_mask (some server) (some character) expected entries =
    lookup_named server character expected entries

unfoldable pub clear : List StoredEntry → List StoredEntry
clear entries = []

unfoldable pub get_stored_entry_count_for_testing : List StoredEntry → ℕ
get_stored_entry_count_for_testing entries = length entries
