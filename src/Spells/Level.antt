-- ===== src/Spells/Level.antt =====
-- SelectLowestValidRequiredLevel. The callback is a function from class ids to 8-bit levels, `none`
-- for a null pointer; its context and the spell are part of the function.
use Prim.Native.String.{String}
use eqemu_monomyth_client.Prelude.{
  ℕ, zero, suc, ◌+◌, Bool, true, false, not, ltb, ◌==◌, ◌!=◌, ◌&&◌, ◌||◌, Option, none, some,
  if◌then◌else◌,
}
use eqemu_monomyth_client.Identity.Mask.{
  is_playable_class_mask, has_class, playable_class_count, first_playable_class_id,
}

pub record SelectionResult : Type 0 where
  pub level : ℕ
  pub selected_class : ℕ
  pub used_assigned_class : Bool
  pub fallback_reason : String

unfoldable pub fallback : ℕ → String → SelectionResult
fallback original_level reason = record {
  level = original_level;
  selected_class = 0;
  used_assigned_class = false;
  fallback_reason = reason;
}

unfoldable pub is_valid_required_level : ℕ → Bool
is_valid_required_level level = level != 0 && level != 255

-- One round of the loop.
unfoldable pub consider_class : (ℕ → ℕ) → ℕ → ℕ → SelectionResult → SelectionResult
consider_class query class_mask class_id selected =
    if not (has_class class_mask class_id)
    then selected
    else let candidate_level = query class_id in
      if not (is_valid_required_level candidate_level)
      then selected
      else if not selected.used_assigned_class || ltb candidate_level selected.level
      then record {
        level = candidate_level;
        selected_class = class_id;
        used_assigned_class = true;
        fallback_reason = "";
      }
      else selected

-- The loop `class_id, class_id + 1, …` with `left` rounds to go.
unfoldable pub consider_from : (ℕ → ℕ) → ℕ → ℕ → ℕ → SelectionResult → SelectionResult
consider_from query class_mask zero class_id selected = selected
consider_from query class_mask (suc left) class_id selected =
    consider_from query class_mask left (class_id + 1)
      (consider_class query class_mask class_id selected)

-- What follows the checks of the mask.
unfoldable pub select_assigned : (ℕ → ℕ) → ℕ → ℕ → SelectionResult
select_assigned query class_mask original_level =
    let selected =
      consider_from query class_mask playable_class_count first_playable_class_id
        (fallback original_level "no_valid_assigned_class") in
    if not selected.used_assigned_class
    then fallback original_level "no_valid_assigned_class"
    else selected

unfoldable pub select_lowest_valid_required_level : Option (ℕ → ℕ) → Bool → ℕ → ℕ → SelectionResult
select_lowest_valid_required_level query has_mask class_mask original_level =
    if not has_mask
    then fallback original_level "no_authoritative_class_mask"
    else if class_mask == 0
    then fallback original_level "empty_class_mask"
    else if not (is_playable_class_mask class_mask)
    then fallback original_level "invalid_class_mask"
    else elim query [
      | none ↦ fallback original_level "original_unavailable"
      | some f ↦ select_assigned f class_mask original_level
    ]
