-- ===== src/Retry/State.antt =====
-- A retry that is armed, and how it is armed and cleared. The four atomic variables of each retry
-- are one record; the functions are called from the client's main thread.
use eqemu_monomyth_client.Prelude.{
  ℕ, ◌+◌, ◌%◌, ◌^◌, Bool, true, false, not, leb, ◌==◌, ◌!=◌, ◌||◌, ◌&&◌, Option, none, some,
  if◌then◌else◌,
}
use eqemu_monomyth_client.Identity.Mask.{
  is_playable_class_id, is_playable_class_mask, is_casting_class_id, has_authoritative_class,
  has_any_authoritative_casting_class,
}

-- kMulticlassCasterUiAccessRetryMaxAttempts.
abbrev pub max_attempts : ℕ
max_attempts = 30

-- kMulticlassCasterUiAccessRetryCooldownMs.
abbrev pub cooldown_ms : ℕ
cooldown_ms = 1000

abbrev pub new_zone_opcode : ℕ
new_zone_opcode = 0x1795

abbrev pub zone_change_opcode : ℕ
zone_change_opcode = 0x2d18

pub record Retry : Type 0 where
  pub pending : Bool
  pub mask : ℕ
  pub attempt_count : ℕ
  pub next_tick_ms : ℕ

-- ClearDeferredMulticlassCasterUiAccessRetryState, and the same for the combat abilities.
abbrev pub cleared : Retry
cleared = record { pending = false; mask = 0; attempt_count = 0; next_tick_ms = 0 }

-- ArmDeferredMulticlassCasterUiAccessRetry, and the same for the combat abilities.
abbrev pub armed : ℕ → ℕ → Retry
armed assigned_mask next_retry_tick_ms = record {
  pending = true;
  mask = assigned_mask;
  attempt_count = 0;
  next_tick_ms = next_retry_tick_ms;
}

-- A tick and the cooldown, in 64 bits.
abbrev pub after_cooldown : ℕ → ℕ
after_cooldown tick = (tick + cooldown_ms) % 2 ^ 64

-- What the retry becomes behind an attempt that succeeded or is still eligible.
unfoldable pub settle : Retry → ℕ → Bool → Bool → Retry
settle r tick success still_eligible =
    let attempt_number = (r.attempt_count + 1) % 2 ^ 32 in
    if success || not still_eligible
    then cleared
    else if leb max_attempts attempt_number
    then cleared
    else record r { attempt_count = attempt_number; next_tick_ms = after_cooldown tick }

-- The class is what TryReadLocalProfileClassId reads.
unfoldable pub should_arm_deferred_multiclass_caster_ui_access_retry : Option ℕ → ℕ → Bool
should_arm_deferred_multiclass_caster_ui_access_retry primary_class assigned_mask =
    if not (has_any_authoritative_casting_class true assigned_mask)
    then false
    else elim primary_class [
      | none ↦ false
      | some class_id ↦ not (
          not (is_playable_class_id class_id)
          || is_casting_class_id class_id
          || not (has_authoritative_class true assigned_mask class_id))
    ]

unfoldable pub should_arm_deferred_combat_ability_resync_retry : ℕ → Bool
should_arm_deferred_combat_ability_resync_retry assigned_mask =
    assigned_mask != 0 && is_playable_class_mask assigned_mask

unfoldable pub is_multiclass_caster_ui_access_zone_opcode : ℕ → Bool
is_multiclass_caster_ui_access_zone_opcode opcode =
    opcode == new_zone_opcode || opcode == zone_change_opcode
