-- ===== src/Combat/Ability.antt =====
-- The three functions. An array is a list of its length; the set of seen ids is a list.
use eqemu_monomyth_client.Prelude.{
  ℕ, ◌+◌, Bool, not, leb, ◌==◌, ◌!=◌, ◌&&◌, ◌||◌, List, [], ◌∷◌, length, any, set, replicate,
  if◌then◌else◌,
}
use eqemu_monomyth_client.Prelude.Int.{ℤ, pos, is_negative, is_positive, below, eq_int}
use eqemu_monomyth_client.Identity.Mask.{is_playable_class_mask, has_class}
use eqemu_monomyth_client.Identity.Order.{OrderedClassIds, empty_ids, build_ordered_class_id_list}
use eqemu_monomyth_client.AuthStats.Observe.{Snapshot}

abbrev pub max_combat_ability_index : ℕ
max_combat_ability_index = 300

abbrev pub max_learned_discipline_index : ℕ
max_learned_discipline_index = 200

unfoldable pub should_resolve_authoritative_combat_ability : Snapshot → ℤ → ℤ → Bool
should_resolve_authoritative_combat_ability snapshot ability_index native_result =
    not (is_positive native_result)
    && not (is_negative ability_index)
    && below ability_index max_combat_ability_index
    && snapshot.has_classes_bitmask
    && snapshot.classes_bitmask != 0
    && is_playable_class_mask snapshot.classes_bitmask

unfoldable pub build_authoritative_combat_ability_class_order : Snapshot → ℕ → OrderedClassIds
build_authoritative_combat_ability_class_order snapshot preferred_class_id =
    if not snapshot.has_classes_bitmask
      || snapshot.classes_bitmask == 0
      || not (is_playable_class_mask snapshot.classes_bitmask)
    then empty_ids
    else build_ordered_class_id_list
        (if has_class snapshot.classes_bitmask preferred_class_id then preferred_class_id else 0)
        snapshot.has_classes_bitmask snapshot.classes_bitmask

-- The array and the number of its entries in use.
pub record CombatAbilities : Type 0 where
  pub combat_abilities : List ℤ
  pub nonzero_entries : ℕ

abbrev pub is_seen : ℤ → List ℤ → Bool
is_seen id = any (λ s. eq_int s id)

-- The loop over the learned disciplines; `break` returns.
unfoldable pub copy_disciplines : List ℤ → ℕ → List ℤ → List ℤ → CombatAbilities
copy_disciplines seen write_index [] array = record {
  combat_abilities = array;
  nonzero_entries = write_index;
}
copy_disciplines seen write_index (id ∷ ids) array =
    let skipped = copy_disciplines seen write_index ids array in
    let written = copy_disciplines (id ∷ seen) (write_index + 1) ids (set array write_index id) in
    if not (is_positive id) || is_seen id seen
    then skipped
    else if leb (length array) write_index
    then record { combat_abilities = array; nonzero_entries = write_index }
    else written

unfoldable pub build_combat_ability_array_from_learned_disciplines : List ℤ → CombatAbilities
build_combat_ability_array_from_learned_disciplines learned_disciplines =
    copy_disciplines [] 0 learned_disciplines (replicate max_combat_ability_index (pos 0))
