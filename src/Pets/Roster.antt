-- ===== src/Pets/Roster.antt =====
-- The roster and the observers that change it. A payload that is null is `none`;
-- the 64-bit counters wrap; the logger's output is the list of its lines. A pointer that
-- FindEntryBySpawnId returns is a write to the first entry of that id.
use eqemu_monomyth_client.Prelude.{
  ℕ, zero, suc, ◌+◌, ◌-◌, ◌%◌, ◌^◌, Bool, true, false, not, ltb, leb, ◌==◌, ◌||◌, ◌&&◌, List, [],
  ◌∷◌, ◌++◌, Option, none, some, length, take, is_nil, eq_bytes, if◌then◌else◌,
}
use eqemu_monomyth_client.Wire.Bytes.{Memory}
use eqemu_monomyth_client.Pets.Parse.{ParsedSpawnEntry, parse_single_spawn_payload, try_read_u32}

pub record ObservedPetEntry : Type 0 where
  pub spawn_id : ℕ
  pub owner_id : ℕ
  pub first_seen_order : ℕ
  pub active : Bool
  pub name : List ℕ

pub data LogLine : Type 0 where
  spawn_line : (count spawn_id owner_id : ℕ) → List ℕ → LogLine
  delete_line : (count spawn_id : ℕ) → Bool → LogLine

pub record Roster : Type 0 where
  pub entries : List ObservedPetEntry
  pub next_first_seen_order : ℕ
  pub spawn_observe_log_count : ℕ
  pub delete_observe_log_count : ℕ
  pub log : List LogLine

abbrev pub next_count : ℕ → ℕ
next_count n = (n + 1) % 2 ^ 64

unfoldable pub should_log : ℕ → Bool
should_log count = leb count 20 || count % 100 == 0

unfoldable pub find_entry_by_spawn_id : ℕ → List ObservedPetEntry → Option ObservedPetEntry
find_entry_by_spawn_id spawn_id [] = none
find_entry_by_spawn_id spawn_id (entry ∷ entries) =
    let later = find_entry_by_spawn_id spawn_id entries in
    if entry.spawn_id == spawn_id then some entry else later

-- The write through the pointer to the first entry of the id.
unfoldable pub write_entry : ℕ → ObservedPetEntry → List ObservedPetEntry → List ObservedPetEntry
write_entry spawn_id written [] = []
write_entry spawn_id written (entry ∷ entries) =
    let later = write_entry spawn_id written entries in
    if entry.spawn_id == spawn_id then written ∷ entries else entry ∷ later

-- `display.ends_with("000")`.
unfoldable pub is_three_zeros : List ℕ → Bool
is_three_zeros tail = eq_bytes tail (b'0' ∷ b'0' ∷ b'0' ∷ [])

abbrev pub drop_bytes : ℕ → List ℕ → List ℕ
drop_bytes zero s = s
drop_bytes (suc n) [] = []
drop_bytes (suc n) (x ∷ s) = drop_bytes n s

unfoldable pub build_display_name : List ℕ → List ℕ
build_display_name raw_name =
    if ltb 3 (length raw_name) && is_three_zeros (drop_bytes (length raw_name - 3) raw_name)
    then take (length raw_name - 3) raw_name
    else raw_name

unfoldable pub log_spawn_observe : Roster → ParsedSpawnEntry → Roster
log_spawn_observe r entry =
    let count = next_count r.spawn_observe_log_count in
    let counted = record r { spawn_observe_log_count = count } in
    if not (should_log count)
    then counted
    else record counted { log = spawn_line count entry.spawn_id entry.owner_id entry.name ∷ r.log }

unfoldable pub log_delete_observe : Roster → ℕ → Bool → Roster
log_delete_observe r spawn_id removed =
    let count = next_count r.delete_observe_log_count in
    let counted = record r { delete_observe_log_count = count } in
    if not (should_log count)
    then counted
    else record counted { log = delete_line count spawn_id removed ∷ r.log }

-- The entries after a spawn, and the next order.
unfoldable pub put_spawn : Roster → ParsedSpawnEntry → Roster
put_spawn r entry = elim (find_entry_by_spawn_id entry.spawn_id r.entries) [
  | some existing ↦ record r {
    entries =
        write_entry entry.spawn_id
          (record existing { owner_id = entry.owner_id; name = entry.name; active = true })
          r.entries;
  }
  | none ↦ record r {
    entries =
        r.entries
        ++ record {
          spawn_id = entry.spawn_id;
          owner_id = entry.owner_id;
          first_seen_order = r.next_first_seen_order;
          active = true;
          name = entry.name;
        }
          ∷ [];
    next_first_seen_order = next_count r.next_first_seen_order;
  }
]

unfoldable pub observe_spawn_payload : Roster → Option Memory → ℕ → Roster
observe_spawn_payload r payload payload_length =
    elim (parse_single_spawn_payload payload payload_length) [
      | none ↦ r
      | some entry ↦
          if not entry.valid || entry.owner_id == 0 || is_nil entry.name
          then r
          else log_spawn_observe (put_spawn r entry) entry
    ]

-- The entry of a deleted spawn becomes inactive and stays.
unfoldable pub delete_spawn : Roster → ℕ → Roster
delete_spawn r spawn_id = elim (find_entry_by_spawn_id spawn_id r.entries) [
  | none ↦ log_delete_observe r spawn_id false
  | some existing ↦
      log_delete_observe
        (record r { entries = write_entry spawn_id (record existing { active = false }) r.entries })
        spawn_id true
]

unfoldable pub observe_delete_spawn_payload : Roster → Option Memory → ℕ → Roster
observe_delete_spawn_payload r none payload_length = r
observe_delete_spawn_payload r (some payload) payload_length =
    if ltb payload_length 4 then r else elim (try_read_u32 payload payload_length 0) [
      | none ↦ r
      | some spawn_id ↦ delete_spawn r spawn_id
    ]

-- The roster that the program starts with; the log is the logger's.
abbrev pub cleared : List LogLine → Roster
cleared log = record {
  entries = [];
  next_first_seen_order = 1;
  spawn_observe_log_count = 0;
  delete_observe_log_count = 0;
  log = log;
}

unfoldable pub clear : Roster → Roster
clear r = cleared r.log
