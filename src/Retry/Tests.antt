-- ===== src/Retry/Tests.antt =====
-- A warrior and cleric, mask 3, whose profile's class is the warrior.
use eqemu_monomyth_client.Prelude.{◌≡◌, refl, inr, true, false, ◌&&◌, [], ◌∷◌, none, some, arith}
use eqemu_monomyth_client.AuthStats.Observe.{initial_globals}
use eqemu_monomyth_client.Retry.State.{
  cleared, armed, should_arm_deferred_multiclass_caster_ui_access_retry,
}
use eqemu_monomyth_client.Retry.Ensure.{
  Answers, Ui, not_ensured, try_ensure_multiclass_caster_ui_access_for_assigned_mask,
}
use eqemu_monomyth_client.Retry.Pending.{Globals, CasterAnswers, CombatAnswers}
use eqemu_monomyth_client.Retry.Notify.{zone_transition, caster_trigger, combat_trigger, run}
use eqemu_monomyth_client.Retry.Bounded.{BothBounded, run-BothBounded}
use eqemu_monomyth_client.Retry.Live.{
  triggers, caster_retry_ends, any_ui_attempt, try_ensure-should_arm,
}

abbrev no_windows : Answers
no_windows = record {
  primary_class = some 1;
  cast_spell_window = none;
  spellbook_window = none;
  cast_spell_visible = false;
  command_id = none;
  cast_spell_window_after = none;
  spellbook_window_after = none;
}

abbrev player_there : CasterAnswers
player_there = record { local_player = some 0x7000; attempt = no_windows; class_behind = some 1 }

abbrev nothing_there : CombatAnswers
nothing_there = record {
  local_player = none;
  displayed_class = none;
  spell_manager = none;
  resynced = false;
}

abbrev untouched : Ui
untouched = record { ensured = not_ensured; calls = []; reasons = [] }

abbrev two_left : Globals
two_left = record {
  caster = record { pending = true; mask = 3; attempt_count = 28; next_tick_ms = 5000 };
  combat = armed 3 5000;
  ui = untouched;
  log = [];
}

run-BothBounded_example : BothBounded (
    run
      (caster_trigger 6000 player_there
        ∷ combat_trigger 6000 nothing_there
        ∷ zone_transition 7000 0x1795 initial_globals.stats (some 1)
        ∷ [])
      two_left)
run-BothBounded_example =
    run-BothBounded
      (caster_trigger 6000 player_there
        ∷ combat_trigger 6000 nothing_there
        ∷ zone_transition 7000 0x1795 initial_globals.stats (some 1)
        ∷ [])
      two_left (inr (refl, refl, omega arith), inr (refl, refl, omega arith))

caster_retry_ends_example :
    (run (triggers ((5000, player_there) ∷ (6500, player_there) ∷ [])) two_left).caster ≡ cleared
caster_retry_ends_example =
    caster_retry_ends ((5000, player_there) ∷ (6500, player_there) ∷ []) two_left
      (inr (refl, refl, omega arith))
      (omega arith, omega arith, refl, (omega arith, omega arith, refl, tt)) (omega arith)

try_ensure-should_arm_example :
    (try_ensure_multiclass_caster_ui_access_for_assigned_mask no_windows 3 untouched).1 ≡ (
      should_arm_deferred_multiclass_caster_ui_access_retry (some 1) 3 && any_ui_attempt no_windows)
try_ensure-should_arm_example = try_ensure-should_arm no_windows 3 untouched
