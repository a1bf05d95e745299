-- ===== src/Pets/Parse.antt =====
-- The cursor helpers and ParseSingleSpawnPayload. A cursor is a 32-bit word; a failed step is
-- `none`.
use eqemu_monomyth_client.Prelude.{
  ℕ, ◌+◌, ◌-◌, ◌*◌, ◌^◌, ◌%◌, Bool, true, false, ltb, leb, ◌==◌, ◌||◌, List, [], Option, none, some,
  ◌>>=◌, ◌>>◌, guard, not, is_nil, if◌then◌else◌,
}
use eqemu_monomyth_client.Wire.Bytes.{Memory, word_at, text_end, bytes_at}

pub record ParsedSpawnEntry : Type 0 where
  pub valid : Bool
  pub spawn_id : ℕ
  pub owner_id : ℕ
  pub name : List ℕ

-- `*entry_out = {};`
abbrev pub no_entry : ParsedSpawnEntry
no_entry = record { valid = false; spawn_id = 0; owner_id = 0; name = [] }

-- The bounds that TryReadBytes checks for `length` bytes.
unfoldable pub can_read_bytes : ℕ → ℕ → ℕ → Bool
can_read_bytes payload_length offset length =
    if length == 0 || ltb payload_length offset || ltb payload_length (offset + length)
    then false
    else true

unfoldable pub try_read_u8 : Memory → ℕ → ℕ → Option ℕ
try_read_u8 payload payload_length offset =
    if can_read_bytes payload_length offset 1 then some (payload offset) else none

unfoldable pub try_read_u32 : Memory → ℕ → ℕ → Option ℕ
try_read_u32 payload payload_length offset =
    if can_read_bytes payload_length offset 4 then some (word_at payload offset) else none

unfoldable pub try_advance : ℕ → ℕ → ℕ → Option ℕ
try_advance payload_length cursor bytes =
    if ltb payload_length cursor || ltb payload_length (cursor + bytes)
    then none
    else some ((cursor + bytes) % 2 ^ 32)

-- The text and the cursor behind its 0.
unfoldable pub try_read_c_string : Memory → ℕ → ℕ → Option (List ℕ × ℕ)
try_read_c_string payload payload_length cursor =
    if leb payload_length cursor
    then none
    else let end = text_end payload (payload_length - cursor) cursor in
      if leb payload_length end
      then none
      else some (bytes_at payload cursor (end - cursor), (end + 1) % 2 ^ 32)

-- The reads of ParseSingleSpawnPayload after its first checks, each failure an early return. What
-- a failed parse leaves in the entry is not kept: no caller reads it.
unfoldable pub parse_fields : Memory → ℕ → Option ParsedSpawnEntry
parse_fields bytes payload_length = do
  (name, c0) ← try_read_c_string bytes payload_length 0
  guard (not (is_nil name))
  spawn_id ← try_read_u32 bytes payload_length c0
  c1 ← try_advance payload_length c0 4
  c2 ← try_advance payload_length c1 (1 + 4 + 1 + 4 + 1 + 4 + 4)
  property_count ← try_read_u8 bytes payload_length c2
  c3 ← try_advance payload_length c2 1
  c4 ← try_advance payload_length c3 (property_count * 4 % 2 ^ 32)
  c5 ←
      try_advance payload_length c4
        (7 + 12 + 4 + 4 + 1 + 4 + 4 + 4 + 1 + 4 + 4 + 4 + 1 + 1 + 1 + 1 + 1)
  (ignored_last_name, c6) ← try_read_c_string bytes payload_length c5
  c7 ← try_advance payload_length c6 (4 + 1 + 1)
  owner_id ← try_read_u32 bytes payload_length c7
  some (record { valid = true; spawn_id = spawn_id; owner_id = owner_id; name = name })

-- A null payload is `none`.
unfoldable pub parse_single_spawn_payload : Option Memory → ℕ → Option ParsedSpawnEntry
parse_single_spawn_payload none payload_length = none
parse_single_spawn_payload (some bytes) payload_length =
    if ltb payload_length 8 then none else parse_fields bytes payload_length
