-- ===== src/Client/Best.antt =====
-- EvaluateBestAuthoritativeSkillsWindowSkillValue: the best answer of the client's function over the
-- character's classes. The client's function, for the context and the skill it is given, is a
-- parameter: it is `none` where its pointer is null, it may write memory, and it answers `none` where
-- it faults.
use eqemu_monomyth_client.Prelude.{
  ℕ, zero, suc, ◌+◌, Bool, true, false, not, ltb, ◌==◌, ◌||◌, ◌&&◌, Option, none, some,
  if◌then◌else◌,
}
use eqemu_monomyth_client.Prelude.Int.{ℤ, pos, negsuc, is_positive}
use eqemu_monomyth_client.AuthStats.Read.{Pages}
use eqemu_monomyth_client.AuthStats.Observe.{Snapshot}
use eqemu_monomyth_client.Identity.Mask.{is_playable_class_mask, has_authoritative_class}
use eqemu_monomyth_client.Client.Read.{try_read_local_char_data_pointer}
use eqemu_monomyth_client.Client.Override.{
  blank_state, try_apply_temporary_local_class_override, restore_temporary_local_class_override,
}

-- `a < b`.
abbrev pub less : ℤ → ℤ → Bool
less (pos m) (pos n) = ltb m n
less (pos m) (negsuc n) = false
less (negsuc m) (pos n) = true
less (negsuc m) (negsuc n) = ltb n m

-- The candidate where it is there and larger.
abbrev pub larger : ℤ → Option ℤ → ℤ
larger best none = best
larger best (some candidate) = if less best candidate then candidate else best

unfoldable pub is_local_char_data_context : ℕ → Pages → ℕ → Bool
is_local_char_data_context module_base memory this_context =
    if this_context == 0
    then false
    else elim (try_read_local_char_data_pointer module_base memory) [
      | none ↦ false
      | some local_char_data ↦ not (local_char_data == 0) && local_char_data == this_context
    ]

module _ (protect : ℕ → ℕ → Bool) (module_base : ℕ) (original : Pages → Pages × Option ℤ) where
  -- One round: the class is put in, the client's function is asked, and the class is taken back.
  unfoldable pub ask_as_class : ℕ → Pages → Pages × Option ℤ
  ask_as_class class_id memory =
      let applied =
        try_apply_temporary_local_class_override protect module_base class_id blank_state memory in
      let asked = original applied.0.0 in
      if not applied.1
      then (applied.0.0, none)
      else ((restore_temporary_local_class_override protect applied.0.1 asked.0).0, asked.1)

  -- The loop with `left` classes to go.
  unfoldable pub evaluate_from : ℕ → ℕ → Snapshot → ℤ → Pages → Pages × ℤ
  evaluate_from zero class_id snapshot best memory = (memory, best)
  evaluate_from (suc left) class_id snapshot best memory =
      let asked = ask_as_class class_id memory in
      let skipped = evaluate_from left (class_id + 1) snapshot best memory in
      let taken = evaluate_from left (class_id + 1) snapshot (larger best asked.1) asked.0 in
      if not
        (has_authoritative_class snapshot.has_classes_bitmask snapshot.classes_bitmask class_id)
      then skipped
      else taken

unfoldable pub evaluate_best_authoritative_skills_window_skill_value :
    (ℕ → ℕ → Bool) → ℕ → Option (Pages → Pages × Option ℤ) → ℕ → ℤ → Snapshot → Pages → Pages × ℤ
evaluate_best_authoritative_skills_window_skill_value protect module_base producer this_context
      native_result snapshot memory =
    elim producer [
      | none ↦ (memory, native_result)
      | some original ↦
          if is_positive native_result
            || not snapshot.has_classes_bitmask
            || snapshot.classes_bitmask == 0
            || not (is_playable_class_mask snapshot.classes_bitmask)
            || not (is_local_char_data_context module_base memory this_context)
          then (memory, native_result)
          else evaluate_from protect module_base original 16 1 snapshot native_result memory
    ]
