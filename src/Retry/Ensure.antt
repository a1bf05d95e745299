-- ===== src/Retry/Ensure.antt =====
-- TryEnsureMulticlassCasterUiAccessForAssignedMask. What the client's memory and windows answer
-- is a parameter; what is asked of the windows is the list of the calls. The windows' snapshots
-- and the command tables that are only logged are left out.
use eqemu_monomyth_client.Prelude.{
  ℕ, Bool, true, false, not, ◌==◌, ◌!=◌, ◌||◌, List, [], ◌∷◌, ◌++◌, Option, none, some,
  if◌then◌else◌,
}
use eqemu_monomyth_client.Identity.Mask.{
  is_playable_class_id, is_casting_class_id, has_authoritative_class,
  has_any_authoritative_casting_class,
}

pub record Ensured : Type 0 where
  pub ensured : Bool
  pub mask : ℕ
  pub primary_class : ℕ

-- ClearEnsuredMulticlassCasterUiAccessState.
abbrev pub not_ensured : Ensured
not_ensured = record { ensured = false; mask = 0; primary_class = 0 }

pub data UiCall : Type 0 where
  execute_cmd : ℕ → Bool → UiCall
  minimize : ℕ → Bool → UiCall
  show activate bring_to_top : ℕ → UiCall

pub data Reason : Type 0 where
  assigned_mask_has_no_caster primary_class_unavailable primary_class_not_playable : Reason
  primary_class_already_caster primary_class_missing_from_assigned_mask : Reason
  deduped_same_primary_and_mask no_ui_attempt_available ui_attempted : Reason

-- What the client answers in the order of the reads: the profile's class, the two windows, whether
-- the first is valid and visible, the command's id, and the windows again.
pub record Answers : Type 0 where
  pub primary_class : Option ℕ
  pub cast_spell_window : Option ℕ
  pub spellbook_window : Option ℕ
  pub cast_spell_visible : Bool
  pub command_id : Option ℕ
  pub cast_spell_window_after : Option ℕ
  pub spellbook_window_after : Option ℕ

pub record Ui : Type 0 where
  pub ensured : Ensured
  pub calls : List UiCall
  pub reasons : List Reason

-- A read that fails leaves the variable.
abbrev pub read_or : Option ℕ → ℕ → ℕ
read_or none variable = variable
read_or (some value) variable = value

-- The command is looked for only where the window was not visible.
abbrev pub resolved_command : Answers → Option ℕ
resolved_command answers = if answers.cast_spell_visible then none else answers.command_id

abbrev pub command_calls : Option ℕ → List UiCall
command_calls none = []
command_calls (some command_id) = execute_cmd command_id true ∷ execute_cmd command_id false ∷ []

abbrev pub window_calls : ℕ → List UiCall
window_calls window =
    if window == 0
    then []
    else minimize window false ∷ show window ∷ activate window ∷ bring_to_top window ∷ []

abbrev pub is_resolved : Option ℕ → Bool
is_resolved none = false
is_resolved (some value) = true

abbrev pub finalize : Ui → Reason → Ui
finalize ui reason = record ui { reasons = reason ∷ ui.reasons }

-- The part behind the guards, with the class that was read.
unfoldable pub open_caster_windows : Answers → ℕ → ℕ → Ui → Ui × Bool
open_caster_windows answers assigned_mask class_id ui =
    let command = resolved_command answers in
    let cast_spell_window =
      read_or answers.cast_spell_window_after (read_or answers.cast_spell_window 0) in
    let spellbook_window =
      read_or answers.spellbook_window_after (read_or answers.spellbook_window 0) in
    let called = record ui {
      calls = ui.calls ++ command_calls command ++ window_calls cast_spell_window;
    } in
    let any_ui_attempt = is_resolved command || cast_spell_window != 0 || spellbook_window != 0 in
    if not any_ui_attempt then (finalize called no_ui_attempt_available, false) else (
      record called {
        ensured = record { ensured = true; mask = assigned_mask; primary_class = class_id };
        reasons = ui_attempted ∷ called.reasons;
      },
      true,
    )

-- `dedupe_hit` where it is tested: its value is computed only behind the test.
abbrev pub dedupe_hit : Bool
dedupe_hit = false

unfoldable pub ensure_for_class : Answers → ℕ → ℕ → Ui → Ui × Bool
ensure_for_class answers assigned_mask class_id ui =
    if not (is_playable_class_id class_id)
    then (finalize ui primary_class_not_playable, false)
    else if is_casting_class_id class_id
    then (finalize ui primary_class_already_caster, false)
    else if not (has_authoritative_class true assigned_mask class_id)
    then (finalize ui primary_class_missing_from_assigned_mask, false)
    else if dedupe_hit
    then (finalize ui deduped_same_primary_and_mask, false)
    else open_caster_windows answers assigned_mask class_id ui

unfoldable pub try_ensure_multiclass_caster_ui_access_for_assigned_mask :
    Answers → ℕ → Ui → Ui × Bool
try_ensure_multiclass_caster_ui_access_for_assigned_mask answers assigned_mask ui =
    if not (has_any_authoritative_casting_class true assigned_mask)
    then (finalize ui assigned_mask_has_no_caster, false)
    else elim answers.primary_class [
      | none ↦ (finalize ui primary_class_unavailable, false)
      | some class_id ↦ ensure_for_class answers assigned_mask class_id ui
    ]
