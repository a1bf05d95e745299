-- ===== src/Retry/Pending.antt =====
-- TryRetryPendingMulticlassCasterUiAccess, TryRetryPendingCombatAbilityResync and
-- TryRearmMulticlassCasterUiAccessForZoneTransition.
use eqemu_monomyth_client.Prelude.{
  ℕ, ◌+◌, ◌%◌, ◌^◌, Bool, false, not, ltb, leb, ◌==◌, ◌!=◌, ◌||◌, ◌&&◌, List, ◌∷◌, Option, none,
  some, if◌then◌else◌,
}
use eqemu_monomyth_client.Identity.Mask.{is_playable_class_id}
use eqemu_monomyth_client.AuthStats.Observe.{Snapshot}
use eqemu_monomyth_client.Retry.State.{
  Retry, max_attempts, cleared, armed, after_cooldown, settle,
  should_arm_deferred_multiclass_caster_ui_access_retry,
  should_arm_deferred_combat_ability_resync_retry, is_multiclass_caster_ui_access_zone_opcode,
}
use eqemu_monomyth_client.Retry.Ensure.{
  not_ensured, Answers, Ui, try_ensure_multiclass_caster_ui_access_for_assigned_mask,
}

pub data LogLine : Type 0 where
  caster_retry_exhausted : ℕ → ℕ → LogLine
  caster_retry : ℕ → ℕ → Bool → Bool → LogLine
  combat_retry_exhausted : ℕ → ℕ → LogLine
  combat_retry_waiting : ℕ → ℕ → LogLine
  combat_retry : ℕ → ℕ → Bool → Bool → LogLine
  zone_rearm : ℕ → ℕ → LogLine

pub record Globals : Type 0 where
  pub caster : Retry
  pub combat : Retry
  pub ui : Ui
  pub log : List LogLine

-- A pointer that was read and is not null.
abbrev pub is_pointer : Option ℕ → Bool
is_pointer none = false
is_pointer (some address) = address != 0

-- What the client answers to one retry of the caster windows: the local player, the answers to the
-- attempt, and the profile's class behind it.
pub record CasterAnswers : Type 0 where
  pub local_player : Option ℕ
  pub attempt : Answers
  pub class_behind : Option ℕ

unfoldable pub attempt_caster : ℕ → CasterAnswers → Globals → Globals
attempt_caster tick answers g =
    let mask = g.caster.mask in
    let tried =
      try_ensure_multiclass_caster_ui_access_for_assigned_mask answers.attempt mask g.ui in
    let still_eligible =
      not tried.1
      && should_arm_deferred_multiclass_caster_ui_access_retry answers.class_behind mask in
    record g {
      caster = settle g.caster tick tried.1 still_eligible;
      ui = tried.0;
      log =
          caster_retry mask ((g.caster.attempt_count + 1) % 2 ^ 32) still_eligible tried.1 ∷ g.log;
    }

unfoldable pub try_retry_pending_multiclass_caster_ui_access : ℕ → CasterAnswers → Globals → Globals
try_retry_pending_multiclass_caster_ui_access tick answers g =
    let r = g.caster in
    if not r.pending
    then g
    else if r.mask == 0
    then record g { caster = cleared }
    else if r.next_tick_ms != 0 && ltb tick r.next_tick_ms
    then g
    else if leb max_attempts r.attempt_count
    then record g { caster = cleared; log = caster_retry_exhausted r.mask r.attempt_count ∷ g.log }
    else if not (is_pointer answers.local_player)
    then record g { caster = record r { next_tick_ms = after_cooldown tick } }
    else attempt_caster tick answers g

-- What the client answers to one retry of the combat abilities, and whether
-- TryResyncLocalCombatAbilityArrayFromLastSource succeeds.
pub record CombatAnswers : Type 0 where
  pub local_player : Option ℕ
  pub displayed_class : Option ℕ
  pub spell_manager : Option ℕ
  pub resynced : Bool

abbrev pub is_playable : Option ℕ → Bool
is_playable none = false
is_playable (some class_id) = is_playable_class_id class_id

abbrev pub prerequisites : CombatAnswers → Bool
prerequisites answers =
    is_pointer answers.local_player
    && is_playable answers.displayed_class
    && is_pointer answers.spell_manager

unfoldable pub try_retry_pending_combat_ability_resync : ℕ → CombatAnswers → Globals → Globals
try_retry_pending_combat_ability_resync tick answers g =
    let r = g.combat in
    if not r.pending
    then g
    else if r.mask == 0
    then record g { combat = cleared }
    else if r.next_tick_ms != 0 && ltb tick r.next_tick_ms
    then g
    else if leb max_attempts r.attempt_count
    then record g { combat = cleared; log = combat_retry_exhausted r.mask r.attempt_count ∷ g.log }
    else if not (prerequisites answers)
    then record g {
      combat = record r { next_tick_ms = after_cooldown tick };
      log = combat_retry_waiting r.mask r.attempt_count ∷ g.log;
    }
    else let still_eligible =
        not answers.resynced && should_arm_deferred_combat_ability_resync_retry r.mask in
      record g {
        combat = settle r tick answers.resynced still_eligible;
        log =
            combat_retry r.mask ((r.attempt_count + 1) % 2 ^ 32) still_eligible answers.resynced
            ∷ g.log;
      }

unfoldable pub try_rearm_multiclass_caster_ui_access_for_zone_transition :
    ℕ → ℕ → Snapshot → Option ℕ → Globals → Globals
try_rearm_multiclass_caster_ui_access_for_zone_transition tick opcode snapshot primary_class g =
    let mask = snapshot.classes_bitmask in
    if not (is_multiclass_caster_ui_access_zone_opcode opcode)
    then g
    else if not snapshot.has_classes_bitmask
        || mask == 0
        || not (should_arm_deferred_multiclass_caster_ui_access_retry primary_class mask)
    then g
    else record g {
      caster = armed mask (after_cooldown tick);
      ui = record g.ui { ensured = not_ensured };
      log = zone_rearm opcode mask ∷ g.log;
    }
