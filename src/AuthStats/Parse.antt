-- ===== src/AuthStats/Parse.antt =====
-- ParsePayload. An array of two is a pair of slots; a count below the entry count never wraps.
use Prim.Native.String.{String}
use eqemu_monomyth_client.Prelude.{
  ℕ, zero, suc, ◌+◌, ◌-◌, ◌*◌, ◌/◌, ◌%◌, ◌^◌, Bool, true, false, ltb, ◌==◌, ◌!=◌, ◌||◌, Option,
  none, some, if◌then◌else◌,
}
use eqemu_monomyth_client.AuthStats.Read.{Pages, read_u32_le, read_u64_le}

abbrev pub stat_classes_bitmask_key : ℕ
stat_classes_bitmask_key = 1

abbrev pub stat_activated_skill_mask_low_key : ℕ
stat_activated_skill_mask_low_key = 2

abbrev pub stat_activated_skill_mask_high_key : ℕ
stat_activated_skill_mask_high_key = 3

abbrev pub stat_extra_pet0_hp1000_key : ℕ
stat_extra_pet0_hp1000_key = 100

abbrev pub stat_extra_pet1_hp1000_key : ℕ
stat_extra_pet1_hp1000_key = 101

abbrev pub stat_focused_pet_id_key : ℕ
stat_focused_pet_id_key = 102

abbrev pub header_bytes : ℕ
header_bytes = 4

abbrev pub entry_bytes : ℕ
entry_bytes = 12

-- `std::numeric_limits<std::uint32_t>::max()`.
abbrev pub u32_max : ℕ
u32_max = 2 ^ 32 - 1

-- An array of two.
pub record Slots (A : Type 0) : Type 0 where
  pub slot0 : A
  pub slot1 : A

abbrev pub both : {A : Type 0} → A → Slots A
both a = record { slot0 = a; slot1 = a }

pub record ParseResult : Type 0 where
  pub valid : Bool
  pub count : ℕ
  pub has_classes_bitmask : Bool
  pub classes_bitmask : ℕ
  pub invalid_classes_bitmask : Bool
  pub invalid_classes_bitmask_value : ℕ
  pub duplicate_classes_bitmask : Bool
  pub has_activated_skill_mask_low : Bool
  pub activated_skill_mask_low : ℕ
  pub duplicate_activated_skill_mask_low : Bool
  pub has_activated_skill_mask_high : Bool
  pub activated_skill_mask_high : ℕ
  pub duplicate_activated_skill_mask_high : Bool
  pub has_extra_pet_hp_1000 : Slots Bool
  pub extra_pet_hp_1000 : Slots ℕ
  pub duplicate_extra_pet_hp_1000 : Slots Bool
  pub has_focused_pet_id : Bool
  pub focused_pet_id : ℕ
  pub duplicate_focused_pet_id : Bool
  pub recognized_entry_count : ℕ
  pub unknown_entry_count : ℕ
  pub malformed_reason : String

-- `ParseResult result = {}; result.malformed_reason = reason;`
abbrev pub blank_result : String → ParseResult
blank_result reason = record {
  valid = false;
  count = 0;
  has_classes_bitmask = false;
  classes_bitmask = 0;
  invalid_classes_bitmask = false;
  invalid_classes_bitmask_value = 0;
  duplicate_classes_bitmask = false;
  has_activated_skill_mask_low = false;
  activated_skill_mask_low = 0;
  duplicate_activated_skill_mask_low = false;
  has_activated_skill_mask_high = false;
  activated_skill_mask_high = 0;
  duplicate_activated_skill_mask_high = false;
  has_extra_pet_hp_1000 = both false;
  extra_pet_hp_1000 = both 0;
  duplicate_extra_pet_hp_1000 = both false;
  has_focused_pet_id = false;
  focused_pet_id = 0;
  duplicate_focused_pet_id = false;
  recognized_entry_count = 0;
  unknown_entry_count = 0;
  malformed_reason = reason;
}

abbrev recognized : ParseResult → ParseResult
recognized r = record r { recognized_entry_count = r.recognized_entry_count + 1 }

abbrev unknown : ParseResult → ParseResult
unknown r = record r { unknown_entry_count = r.unknown_entry_count + 1 }

unfoldable pub take_classes_bitmask : ParseResult → ℕ → ParseResult
take_classes_bitmask r stat_value =
    if ltb u32_max stat_value
    then record r { invalid_classes_bitmask = true; invalid_classes_bitmask_value = stat_value }
    else record r {
      duplicate_classes_bitmask = r.has_classes_bitmask;
      has_classes_bitmask = true;
      classes_bitmask = stat_value;
    }

unfoldable pub take_extra_pet_hp : ParseResult → ℕ → ℕ → ParseResult
take_extra_pet_hp r stat_key stat_value =
    if stat_key == stat_extra_pet0_hp1000_key
    then record r {
      duplicate_extra_pet_hp_1000 = record (r.duplicate_extra_pet_hp_1000) {
        slot0 = r.has_extra_pet_hp_1000.slot0;
      };
      has_extra_pet_hp_1000 = record (r.has_extra_pet_hp_1000) { slot0 = true };
      extra_pet_hp_1000 = record (r.extra_pet_hp_1000) { slot0 = stat_value };
    }
    else record r {
      duplicate_extra_pet_hp_1000 = record (r.duplicate_extra_pet_hp_1000) {
        slot1 = r.has_extra_pet_hp_1000.slot1;
      };
      has_extra_pet_hp_1000 = record (r.has_extra_pet_hp_1000) { slot1 = true };
      extra_pet_hp_1000 = record (r.extra_pet_hp_1000) { slot1 = stat_value };
    }

unfoldable pub take_focused_pet_id : ParseResult → ℕ → ParseResult
take_focused_pet_id r stat_value = if ltb u32_max stat_value then unknown r else record r {
  duplicate_focused_pet_id = r.has_focused_pet_id;
  has_focused_pet_id = true;
  focused_pet_id = stat_value;
}

-- The `switch` on the key of an entry.
unfoldable pub take_entry : ParseResult → ℕ → ℕ → ParseResult
unfolding take_classes_bitmask take_extra_pet_hp take_focused_pet_id
take_entry r stat_key stat_value =
    if stat_key == stat_classes_bitmask_key
    then take_classes_bitmask (recognized r) stat_value
    else if stat_key == stat_activated_skill_mask_low_key
    then record (recognized r) {
      duplicate_activated_skill_mask_low = r.has_activated_skill_mask_low;
      has_activated_skill_mask_low = true;
      activated_skill_mask_low = stat_value;
    }
    else if stat_key == stat_activated_skill_mask_high_key
    then record (recognized r) {
      duplicate_activated_skill_mask_high = r.has_activated_skill_mask_high;
      has_activated_skill_mask_high = true;
      activated_skill_mask_high = stat_value;
    }
    else if stat_key == stat_extra_pet0_hp1000_key || stat_key == stat_extra_pet1_hp1000_key
    then take_extra_pet_hp (recognized r) stat_key stat_value
    else if stat_key == stat_focused_pet_id_key
    then take_focused_pet_id (recognized r) stat_value
    else unknown r

-- One round ends with a result to go on from, or with the result that is returned.
pub data Round : Type 0 where
  next : ParseResult → Round
  stop : ParseResult → Round

abbrev reason : ParseResult → String → ParseResult
reason r why = record r { malformed_reason = why }

unfoldable pub read_value : Pages → ℕ → ℕ → ℕ → ParseResult → Round
read_value payload payload_length value_offset stat_key r =
    elim (read_u64_le payload payload_length value_offset) [
      | none ↦ stop (reason r "stat_value_read_fault")
      | some stat_value ↦ next (take_entry r stat_key stat_value)
    ]

unfoldable pub parse_round : Pages → ℕ → ℕ → ParseResult → Round
unfolding read_value
parse_round payload payload_length i r =
    let entry_offset = header_bytes + i * entry_bytes in
    if ltb u32_max entry_offset
    then stop (reason r "entry_offset_overflow")
    else elim (read_u32_le payload payload_length entry_offset) [
      | none ↦ stop (reason r "stat_key_read_fault")
      | some stat_key ↦ read_value payload payload_length ((entry_offset + 4) % 2 ^ 32) stat_key r
    ]

-- The loop at entry `i` with `left` entries to go, and the `return` behind it.
unfoldable pub parse_entries : Pages → ℕ → ℕ → ℕ → ParseResult → ParseResult
parse_entries payload payload_length zero i r = record r { valid = true; malformed_reason = "" }
parse_entries payload payload_length (suc left) i r =
    elim (parse_round payload payload_length i r) [
      | stop failed ↦ failed
      | next r' ↦ parse_entries payload payload_length left (i + 1) r'
    ]

-- What follows the read of the count.
unfoldable pub parse_counted : Pages → ℕ → ℕ → ParseResult
parse_counted payload payload_length count =
    let counted = record (blank_result "unknown") { count = count } in
    let body_length = payload_length - header_bytes in
    if ltb (body_length / entry_bytes) count
    then reason counted "truncated_entries"
    else if header_bytes + count * entry_bytes != payload_length
    then reason counted "unexpected_trailing_bytes"
    else parse_entries payload payload_length count 0 counted

unfoldable pub parse_present : Pages → ℕ → ParseResult
parse_present payload payload_length =
    if ltb payload_length header_bytes
    then blank_result "payload_too_short_for_count"
    else elim (read_u32_le payload payload_length 0) [
      | none ↦ blank_result "count_read_fault"
      | some count ↦ parse_counted payload payload_length count
    ]

unfoldable pub parse_payload : Option Pages → ℕ → ParseResult
unfolding parse_present
parse_payload none payload_length =
    if payload_length != 0
    then blank_result "null_payload"
    else blank_result "payload_too_short_for_count"
parse_payload (some payload) payload_length = parse_present payload payload_length
