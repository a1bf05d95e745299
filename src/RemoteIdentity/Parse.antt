-- ===== src/RemoteIdentity/Parse.antt =====
-- ParsePayload. Offsets are 32-bit words and wrap.
use eqemu_monomyth_client.Prelude.{
  ℕ, zero, suc, ◌+◌, ◌-◌, ◌/◌, ◌%◌, ◌^◌, Bool, true, false, not, ltb, leb, ◌==◌, ◌||◌, List, [],
  ◌∷◌, ◌++◌, Option, none, some, ◌>>=◌, is_nil, if◌then◌else◌,
}
use eqemu_monomyth_client.Wire.Bytes.{Memory, word_at, text_end, bytes_at}
use eqemu_monomyth_client.Identity.Mask.{is_playable_class_id, is_playable_class_mask, has_class}

abbrev pub remote_identity_header_bytes : ℕ
remote_identity_header_bytes = 4

abbrev pub remote_identity_minimum_entry_bytes : ℕ
remote_identity_minimum_entry_bytes = 9

pub record ParsedEntry : Type 0 where
  pub character_name : List ℕ
  pub native_class_id : ℕ
  pub classes_bitmask : ℕ

pub record ParseResult : Type 0 where
  pub valid : Bool
  pub declared_entry_count : ℕ
  pub parsed_entry_count : ℕ
  pub accepted_entry_count : ℕ
  pub rejected_entry_count : ℕ
  pub entries : List ParsedEntry

-- `ParseResult result = {};`
abbrev pub empty_result : ParseResult
empty_result = record {
  valid = false;
  declared_entry_count = 0;
  parsed_entry_count = 0;
  accepted_entry_count = 0;
  rejected_entry_count = 0;
  entries = [];
}

unfoldable pub try_read_u32 : Memory → ℕ → ℕ → Option ℕ
try_read_u32 payload payload_length offset =
    if ltb payload_length offset || ltb (payload_length - offset) 4
    then none
    else some (word_at payload offset)

-- The text and the offset behind its 0.
unfoldable pub try_read_c_string : Memory → ℕ → ℕ → Option (List ℕ × ℕ)
try_read_c_string payload payload_length offset =
    if leb payload_length offset
    then none
    else let cursor = text_end payload (payload_length - offset) offset in
      if leb payload_length cursor
      then none
      else some (bytes_at payload offset (cursor - offset), (cursor + 1) % 2 ^ 32)

unfoldable pub is_acceptable_remote_identity_entry : List ℕ → ℕ → ℕ → Bool
is_acceptable_remote_identity_entry character_name native_class_id classes_bitmask =
    if is_nil character_name
      || not (is_playable_class_id native_class_id)
      || classes_bitmask == 0
      || not (is_playable_class_mask classes_bitmask)
      || not (has_class classes_bitmask native_class_id)
    then false
    else true

unfoldable pub max_possible_entries_for_payload_length : ℕ → ℕ
max_possible_entries_for_payload_length payload_length =
    if leb payload_length remote_identity_header_bytes
    then 0
    else (payload_length - remote_identity_header_bytes) / remote_identity_minimum_entry_bytes

-- The three reads of one round, and the cursor behind them.
unfoldable pub read_entry : Memory → ℕ → ℕ → Option (ParsedEntry × ℕ)
read_entry payload payload_length offset = do
  (name, cursor) ← try_read_c_string payload payload_length offset
  native ← try_read_u32 payload payload_length cursor
  mask ← try_read_u32 payload payload_length ((cursor + 4) % 2 ^ 32)
  some (
    record { character_name = name; native_class_id = native; classes_bitmask = mask },
    (cursor + 8) % 2 ^ 32,
  )

abbrev pub is_acceptable_entry : ParsedEntry → Bool
is_acceptable_entry entry =
    is_acceptable_remote_identity_entry entry.character_name entry.native_class_id
      entry.classes_bitmask

unfoldable pub keep_entry : ParseResult → ParsedEntry → ParseResult
keep_entry r entry =
    let parsed = record r { parsed_entry_count = r.parsed_entry_count + 1 } in
    if not (is_acceptable_entry entry)
    then record parsed { rejected_entry_count = r.rejected_entry_count + 1 }
    else record parsed {
      entries = r.entries ++ entry ∷ [];
      accepted_entry_count = r.accepted_entry_count + 1;
    }

-- The loop with `left` entries to go.
unfoldable pub read_entries : Memory → ℕ → ℕ → ℕ → ParseResult → ParseResult
read_entries payload payload_length zero cursor r = record r { valid = true }
read_entries payload payload_length (suc left) cursor r =
    elim (read_entry payload payload_length cursor) [
      | none ↦ record r {
        valid = false;
        entries = [];
        accepted_entry_count = 0;
        rejected_entry_count = 0;
      }
      | some (entry, after) ↦ read_entries payload payload_length left after (keep_entry r entry)
    ]

-- What follows the null and length checks.
unfoldable pub parse_counted : Memory → ℕ → ℕ → ParseResult
parse_counted payload payload_length entry_count =
    let counted = record empty_result { declared_entry_count = entry_count } in
    if ltb (max_possible_entries_for_payload_length payload_length) entry_count
    then counted
    else read_entries payload payload_length entry_count remote_identity_header_bytes counted

unfoldable pub parse_payload : Option Memory → ℕ → ParseResult
parse_payload none payload_length = empty_result
parse_payload (some payload) payload_length =
    if ltb payload_length remote_identity_header_bytes
    then empty_result
    else elim (try_read_u32 payload payload_length 0) [
      | none ↦ empty_result
      | some entry_count ↦ parse_counted payload payload_length entry_count
    ]
