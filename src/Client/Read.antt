-- ===== src/Client/Read.antt =====
-- The reads of the local player, its profile and its class record, and of the classes there. The
-- client's memory is `Pages`, in which a read may fault; an address is a 32-bit word, and 0 is the
-- null pointer. The module's base is a parameter.
use eqemu_monomyth_client.Prelude.{
  ℕ, zero, suc, ◌+◌, ◌-◌, ◌%◌, ◌^◌, ltb, ◌==◌, ◌||◌, Option, none, some, ◌>>=◌, get_or,
  if◌then◌else◌,
}
use eqemu_monomyth_client.AuthStats.Read.{Pages}
use eqemu_monomyth_client.Identity.Mask.{is_playable_class_id}
use eqemu_monomyth_client.Patch.Jump.{try_copy_bytes, word_in}

abbrev pub local_char_data_global_rva : ℕ
local_char_data_global_rva = 0x009d261c

abbrev pub local_player_global_rva : ℕ
local_player_global_rva = 0x009d2630

abbrev pub pc_profile_class_offset : ℕ
pc_profile_class_offset = 0x3374

abbrev pub eq_player_displayed_class_offset : ℕ
eq_player_displayed_class_offset = 0x0fe0

abbrev pub scribe_gate_resolved_class_id_offset : ℕ
scribe_gate_resolved_class_id_offset = 0x3374

-- kScribeGateMaxRelativeLookupOffset.
abbrev pub max_relative_lookup_offset : ℕ
max_relative_lookup_offset = 0x00100000

-- kScribeGateMaxLookupNodes.
abbrev pub max_lookup_nodes : ℕ
max_lookup_nodes = 256

-- A pointer and an offset.
abbrev pub at_offset : ℕ → ℕ → ℕ
at_offset address offset = (address + offset) % 2 ^ 32

-- TryCopyObject of 32 bits.
unfoldable pub read_word : Pages → ℕ → Option ℕ
read_word memory address = do bytes ← try_copy_bytes memory address 4; some (word_in bytes 0)

-- TryCopyObject of 8 bits.
unfoldable pub read_byte : Pages → ℕ → Option ℕ
read_byte memory address = do bytes ← try_copy_bytes memory address 1; some (get_or bytes 0 0)

-- A pointer that is read and is not null.
abbrev pub non_null : Option ℕ → Option ℕ
non_null none = none
non_null (some address) = if address == 0 then none else some address

-- A class that is read and is playable.
abbrev pub playable : Option ℕ → Option ℕ
playable none = none
playable (some class_id) = if is_playable_class_id class_id then some class_id else none

unfoldable pub try_read_eq_player_displayed_class_id : Pages → ℕ → Option ℕ
try_read_eq_player_displayed_class_id memory subject =
    if subject == 0
    then none
    else read_byte memory (at_offset subject eq_player_displayed_class_offset)

module _ (module_base : ℕ) (memory : Pages) where
  unfoldable pub try_read_local_player_pointer : Option ℕ
  try_read_local_player_pointer =
      if module_base == 0
      then none
      else read_word memory (at_offset module_base local_player_global_rva)

  unfoldable pub try_read_local_char_data_pointer : Option ℕ
  try_read_local_char_data_pointer =
      if module_base == 0
      then none
      else read_word memory (at_offset module_base local_char_data_global_rva)

  -- The profile and its class.
  unfoldable pub try_resolve_local_profile_class_storage : Option (ℕ × ℕ)
  try_resolve_local_profile_class_storage = do
    local_char_data ← non_null try_read_local_char_data_pointer
    ci2 ← non_null (read_word memory (at_offset local_char_data 0x31f0))
    profile ← non_null (read_word memory (at_offset ci2 0x4))
    class_id ← playable (read_word memory (at_offset profile pc_profile_class_offset))
    some (profile, class_id)

  unfoldable pub try_read_local_profile_class_id : Option ℕ
  try_read_local_profile_class_id = do
    (profile, class_id) ← try_resolve_local_profile_class_storage
    some (class_id % 256)

  unfoldable pub try_read_local_player_displayed_class_id : Option ℕ
  try_read_local_player_displayed_class_id = elim (non_null try_read_local_player_pointer) [
    | none ↦ try_read_local_profile_class_id
    | some local_player ↦
        elim (playable (try_read_eq_player_displayed_class_id memory local_player)) [
          | none ↦ try_read_local_profile_class_id
          | some class_id ↦ some class_id
        ]
  ]

-- The class record of a node whose key was found.
unfoldable pub read_class_record : Pages → ℕ → Option (ℕ × ℕ)
read_class_record memory node = do
  class_record ← non_null (read_word memory (at_offset node 0x4))
  class_id ←
      playable (read_byte memory (at_offset class_record scribe_gate_resolved_class_id_offset))
  some (class_record, class_id)

-- The loop with `left` nodes to go.
unfoldable pub visit_nodes : ℕ → Pages → ℕ → ℕ → Option (ℕ × ℕ)
visit_nodes zero memory lookup_key node = none
visit_nodes (suc left) memory lookup_key node =
    if node == 0 then none else elim (read_word memory node) [
      | none ↦ none
      | some node_key ↦
          let next = read_word memory (at_offset node 0xc) >>= visit_nodes left memory lookup_key in
          if node_key == lookup_key then read_class_record memory node else next
    ]

-- The node and the key of the lookup context.
unfoldable pub visit_lookup_context : Pages → ℕ → Option (ℕ × ℕ)
visit_lookup_context memory lookup_context = do
  node ← read_word memory lookup_context
  lookup_key ← read_word memory (at_offset lookup_context 0x4)
  visit_nodes max_lookup_nodes memory lookup_key node

-- The lookup context lies behind the context by the offset, where the sum does not wrap.
unfoldable pub visit_relative : Pages → ℕ → ℕ → Option (ℕ × ℕ)
visit_relative memory this_context relative_offset =
    if ltb max_relative_lookup_offset relative_offset
      || ltb (2 ^ 32 - 1 - relative_offset - 0x8) this_context
    then none
    else visit_lookup_context memory (this_context + relative_offset + 0x8)

unfoldable pub read_relative_offset : Pages → ℕ → Option ℕ
read_relative_offset memory this_context = do
  descriptor_table ← non_null (read_word memory (at_offset this_context 0x4))
  non_null (read_word memory (at_offset descriptor_table 0x4))

unfoldable pub try_resolve_lookup_class_record : Pages → ℕ → Option (ℕ × ℕ)
try_resolve_lookup_class_record memory this_context =
    if this_context == 0 then none else elim (read_relative_offset memory this_context) [
      | none ↦ none
      | some relative_offset ↦ visit_relative memory this_context relative_offset
    ]

unfoldable pub try_resolve_local_char_data_class_record_storage : ℕ → Pages → Option (ℕ × ℕ)
try_resolve_local_char_data_class_record_storage module_base memory = do
  local_char_data ← non_null (try_read_local_char_data_pointer module_base memory)
  try_resolve_lookup_class_record memory local_char_data
