-- ===== src/Identity/Hands.antt =====
-- Two-handed weapons and the two hands.
use eqemu_monomyth_client.Prelude.{
  ℕ, ◌≡◌, ◌↔◌, Bool, true, false, ◌&&◌, ◌||◌, ◌==◌, arith, if◌then◌else◌,
}

pub data HandEquipConflict : Type 0 where
  no_conflict : HandEquipConflict
  primary_two_handed_blocked_by_occupied_secondary : HandEquipConflict
  secondary_blocked_by_primary_two_handed : HandEquipConflict

unfoldable pub is_two_handed_weapon_item_class : ℕ → Bool
is_two_handed_weapon_item_class item_class = item_class == 1 || item_class == 4 || item_class == 35

unfoldable pub needs_hand_equip_conflict_check : Bool → Bool → Bool → Bool → Bool
needs_hand_equip_conflict_check target_is_primary target_is_secondary candidate_is_weapon
      candidate_is_two_handed_weapon =
    if target_is_primary
    then candidate_is_weapon && candidate_is_two_handed_weapon
    else if target_is_secondary
    then true
    else false

unfoldable pub evaluate_hand_equip_conflict :
    Bool → Bool → Bool → Bool → Bool → Bool → HandEquipConflict
evaluate_hand_equip_conflict target_is_primary target_is_secondary candidate_is_weapon
      candidate_is_two_handed_weapon current_primary_blocks_secondary current_secondary_occupied =
    if target_is_primary && candidate_is_weapon && candidate_is_two_handed_weapon
      && current_secondary_occupied
    then primary_two_handed_blocked_by_occupied_secondary
    else if target_is_secondary && current_primary_blocks_secondary
    then secondary_blocked_by_primary_two_handed
    else no_conflict

-- The check is an exact filter: for a target that is not both hands at once, a candidate needs
-- no check exactly when it has no conflict whatever the hands hold now.
pub needs_check-evaluate :
    (primary secondary weapon two_handed : Bool)
    → primary && secondary ≡ false
    → (needs_hand_equip_conflict_check primary secondary weapon two_handed ≡ false) ↔ (
        (blocks occupied : Bool)
        → evaluate_hand_equip_conflict primary secondary weapon two_handed blocks occupied
          ≡ no_conflict)
unfolding needs_hand_equip_conflict_check evaluate_hand_equip_conflict
needs_check-evaluate primary secondary weapon two_handed h =
    (λ k blocks occupied. ground arith, λ all. ground (arith, all true true))
