-- ===== src/AuthStats/Observe.antt =====
-- ObserveReceivePayload and GetSnapshot. The atomic globals are a record that the handler
-- returns anew; a line that is logged is a value, its text left out.
use Prim.Native.String.{String}
use eqemu_monomyth_client.Prelude.{
  ℕ, ◌+◌, ◌%◌, ◌^◌, Bool, true, false, not, ltb, ◌!=◌, ◌&&◌, List, [], ◌∷◌, ◌++◌, Option,
  if◌then◌else◌,
}
use eqemu_monomyth_client.AuthStats.Read.{Pages}
use eqemu_monomyth_client.AuthStats.Parse.{ParseResult, Slots, both, parse_payload}

pub record Snapshot : Type 0 where
  pub has_classes_bitmask : Bool
  pub classes_bitmask : ℕ
  pub has_activated_skill_mask_low : Bool
  pub activated_skill_mask_low : ℕ
  pub has_activated_skill_mask_high : Bool
  pub activated_skill_mask_high : ℕ
  pub has_extra_pet_hp_1000 : Slots Bool
  pub extra_pet_hp_1000 : Slots ℕ
  pub has_focused_pet_id : Bool
  pub focused_pet_id : ℕ

-- LogMalformed, LogInvalidClassesBitmask and LogValid.
pub data LogLine : Type 0 where
  malformed : ℕ → String → LogLine
  invalid_classes_bitmask : ℕ → ℕ → LogLine
  valid_stats : ℕ → ParseResult → LogLine

-- The globals, and the lines logged so far, oldest first.
pub record Globals : Type 0 where
  pub stats : Snapshot
  pub valid_log_count : ℕ
  pub log : List LogLine

abbrev pub initial_globals : Globals
initial_globals = record {
  stats = record {
    has_classes_bitmask = false;
    classes_bitmask = 0;
    has_activated_skill_mask_low = false;
    activated_skill_mask_low = 0;
    has_activated_skill_mask_high = false;
    activated_skill_mask_high = 0;
    has_extra_pet_hp_1000 = both false;
    extra_pet_hp_1000 = both 0;
    has_focused_pet_id = false;
    focused_pet_id = 0;
  };
  valid_log_count = 0;
  log = [];
}

abbrev log_line : Globals → LogLine → Globals
log_line g line = record g { log = g.log ++ line ∷ [] }

unfoldable pub store_classes_bitmask : Snapshot → ℕ → Snapshot
store_classes_bitmask s bitmask = record s { classes_bitmask = bitmask; has_classes_bitmask = true }

unfoldable pub store_activated_skill_masks : Snapshot → ParseResult → Snapshot
store_activated_skill_masks s result = record s {
  activated_skill_mask_low = result.activated_skill_mask_low;
  activated_skill_mask_high = result.activated_skill_mask_high;
  has_activated_skill_mask_low = result.has_activated_skill_mask_low;
  has_activated_skill_mask_high = result.has_activated_skill_mask_high;
}

unfoldable pub store_extra_pet_hp_1000 : Snapshot → ParseResult → Snapshot
store_extra_pet_hp_1000 s result = record s {
  extra_pet_hp_1000 = result.extra_pet_hp_1000;
  has_extra_pet_hp_1000 = result.has_extra_pet_hp_1000;
}

unfoldable pub store_focused_pet_id : Snapshot → ParseResult → Snapshot
store_focused_pet_id s result = record s {
  focused_pet_id = result.focused_pet_id;
  has_focused_pet_id = result.has_focused_pet_id;
}

unfoldable pub log_valid : Globals → ParseResult → Globals
log_valid g result =
    let log_index = (g.valid_log_count + 1) % 2 ^ 64 in
    let counted = record g { valid_log_count = log_index } in
    if ltb 20 log_index && log_index % 100 != 0
    then counted
    else log_line counted (valid_stats log_index result)

-- The stores of a valid result.
unfoldable pub store_result : Snapshot → ParseResult → Snapshot
unfolding store_classes_bitmask store_activated_skill_masks store_extra_pet_hp_1000
    store_focused_pet_id
store_result s result =
    store_focused_pet_id
      (store_extra_pet_hp_1000
        (store_activated_skill_masks
          (if result.has_classes_bitmask then store_classes_bitmask s result.classes_bitmask else s)
          result)
        result)
      result

unfoldable pub observe_result : Globals → ℕ → ParseResult → Globals
observe_result g payload_length result =
    if not result.valid
    then log_line g (malformed payload_length result.malformed_reason)
    else let warned =
        if result.invalid_classes_bitmask
        then log_line g (invalid_classes_bitmask result.count result.invalid_classes_bitmask_value)
        else g in
      log_valid (record warned { stats = store_result warned.stats result }) result

unfoldable pub observe_receive_payload : Globals → Option Pages → ℕ → Globals
observe_receive_payload g payload payload_length =
    observe_result g payload_length (parse_payload payload payload_length)

unfoldable pub get_snapshot : Globals → Snapshot
get_snapshot g = g.stats
