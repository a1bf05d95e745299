-- ===== src/Pets/Tests.antt =====
-- Two pets of one owner announced, one of them focused, and one deleted.
use eqemu_monomyth_client.Prelude.{
  ℕ, ◌≡◌, refl, true, false, List, [], ◌∷◌, none, some, get_or, replicate, length, ◌==◌, arith,
  if◌then◌else◌,
}
use eqemu_monomyth_client.Wire.Bytes.{Memory, word_at, text_end, bytes_at}
use eqemu_monomyth_client.Wire.Layout.{word_bytes, Lays-get_or}
use eqemu_monomyth_client.AuthStats.Observe as Stats
use eqemu_monomyth_client.Pets.Parse.{
  ParsedSpawnEntry, parse_single_spawn_payload, parse_fields, try_read_c_string, try_read_u8,
  try_read_u32, try_advance, can_read_bytes,
}
use eqemu_monomyth_client.Pets.RoundTrip.{
  SpawnPacket, packet_bytes, parse_single_spawn_payload-packet_bytes,
}
use eqemu_monomyth_client.Pets.Roster.{
  ObservedPetEntry, cleared, find_entry_by_spawn_id, observe_spawn_payload,
  observe_delete_spawn_payload, put_spawn, log_spawn_observe, should_log,
}
use eqemu_monomyth_client.Pets.Window.{find_focused, candidates, get_snapshot}
use eqemu_monomyth_client.Pets.Order.{RosterOk, has_spawn}
use eqemu_monomyth_client.Pets.Reach.{Event, spawn, step, run, run-RosterOk}
use eqemu_monomyth_client.Pets.Report.{companions, slots_of, get_snapshot-companions}
use eqemu_monomyth_client.Pets.Delete.{delete-unreported}
use eqemu_monomyth_client.Pets.Find.{entry_for, observe_spawn_payload-find}

-- A pet of owner 9 with one property.
abbrev pet_packet : ℕ → ℕ → SpawnPacket
pet_packet letter id = record {
  name = letter ∷ b'0' ∷ b'0' ∷ b'0' ∷ [];
  spawn_id = id;
  appearance = replicate 19 5;
  properties = replicate 4 6;
  property_count = 1;
  equipment = replicate 58 7;
  last_name = [];
  flags = replicate 6 8;
  owner_id = 9;
  remainder = 1 ∷ 2 ∷ [];
}

abbrev memory_of : List ℕ → Memory
memory_of bytes i = get_or bytes i 0

abbrev first_pet : Memory
first_pet = memory_of (packet_bytes (pet_packet b'A' 40))

abbrev second_pet : Memory
second_pet = memory_of (packet_bytes (pet_packet b'B' 41))

packet_size : length (packet_bytes (pet_packet b'A' 40)) ≡ 104
packet_size = refl

abbrev parsed_pet : ParsedSpawnEntry
parsed_pet = record {
  valid = true;
  spawn_id = 40;
  owner_id = 9;
  name = b'A' ∷ b'0' ∷ b'0' ∷ b'0' ∷ [];
}

parse_single_spawn_payload-packet_bytes_example :
    parse_single_spawn_payload (some first_pet) 104 ≡ some parsed_pet
parse_single_spawn_payload-packet_bytes_example =
    parse_single_spawn_payload-packet_bytes first_pet 104 (pet_packet b'A' 40) (omega arith) refl
      (
        (
          λ e. absurd (omega arith),
          (λ e. absurd (omega arith), (λ e. absurd (omega arith), (λ e. absurd (omega arith), tt))),
        ),
        refl,
        omega arith,
        refl,
        omega arith,
        refl,
        refl,
        tt,
        refl,
        omega arith,
      )
      (Lays-get_or (packet_bytes (pet_packet b'A' 40)))

-- The same payload, run.
pet_is_parsed : parse_single_spawn_payload (some first_pet) 104 ≡ some parsed_pet
unfolding parse_single_spawn_payload parse_fields try_read_c_string try_read_u8 try_read_u32
    try_advance can_read_bytes text_end bytes_at
pet_is_parsed = refl

abbrev two_spawns : List Event
two_spawns = spawn (some first_pet) 104 ∷ spawn (some second_pet) 104 ∷ []

run-RosterOk_example : RosterOk (run (cleared []) two_spawns)
run-RosterOk_example = run-RosterOk two_spawns [] (omega arith)

observe_spawn_payload-find_example :
    find_entry_by_spawn_id 40 (observe_spawn_payload (cleared []) (some first_pet) 104).entries
    ≡ (if 40 == 40 then some (entry_for (cleared []) parsed_pet) else find_entry_by_spawn_id 40 [])
observe_spawn_payload-find_example =
    observe_spawn_payload-find (cleared []) first_pet 104 40 parsed_pet pet_is_parsed refl

delete-unreported_example :
    let after =
      observe_delete_spawn_payload
        (run (cleared []) two_spawns)
        (some (memory_of (word_bytes 41)))
        4 in
    (find_focused (word_at (memory_of (word_bytes 41)) 0) after.entries ≡ none)
    × (has_spawn (word_at (memory_of (word_bytes 41)) 0) (candidates 9 40 after.entries) ≡ false)
delete-unreported_example =
    delete-unreported two_spawns [] (memory_of (word_bytes 41)) 4 9 40 (omega arith) (omega arith)

abbrev focused_stats : Stats.Snapshot
focused_stats = record Stats.initial_globals.stats {
  has_focused_pet_id = true;
  focused_pet_id = 40;
}

abbrev focused_entry : ObservedPetEntry
focused_entry = record {
  spawn_id = 40;
  owner_id = 9;
  first_seen_order = 1;
  active = true;
  name = b'A' ∷ b'0' ∷ b'0' ∷ b'0' ∷ [];
}

focused_is_found : find_focused 40 (run (cleared []) two_spawns).entries ≡ some focused_entry
unfolding run step observe_spawn_payload put_spawn find_entry_by_spawn_id log_spawn_observe
    should_log parse_single_spawn_payload parse_fields try_read_c_string try_read_u8 try_read_u32
    try_advance can_read_bytes text_end bytes_at find_focused
focused_is_found = refl

get_snapshot-companions_example :
    get_snapshot focused_stats (run (cleared []) two_spawns)
    ≡ slots_of 40 (companions 9 40 (run (cleared []) two_spawns).entries)
get_snapshot-companions_example =
    get_snapshot-companions two_spawns [] focused_stats focused_entry (omega arith) refl refl
      focused_is_found refl
