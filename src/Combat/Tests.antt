-- ===== src/Combat/Tests.antt =====
-- A character of three classes, and four learned disciplines.
use eqemu_monomyth_client.Prelude.{
  ◌-◌, ◌≡◌, refl, true, not, ◌==◌, ◌&&◌, ◌||◌, List, [], ◌∷◌, any, length, arith,
}
use eqemu_monomyth_client.Prelude.Int.{ℤ, pos, negsuc, is_positive}
use eqemu_monomyth_client.Identity.Mask.{has_class, is_playable_class_mask}
use eqemu_monomyth_client.Identity.Closed.{listed, usable_mask}
use eqemu_monomyth_client.AuthStats.Observe.{Snapshot, initial_globals}
use eqemu_monomyth_client.Combat.Ability.{
  is_seen, build_authoritative_combat_ability_class_order,
  build_combat_ability_array_from_learned_disciplines,
}
use eqemu_monomyth_client.Combat.Classes.{is_first, combat_class_order-has_class}
use eqemu_monomyth_client.Combat.Distinct.{
  distinct, filled, NoRepeats, build_combat_ability_array-distinct,
}

abbrev three_classes : Snapshot
three_classes = record initial_globals.stats { has_classes_bitmask = true; classes_bitmask = 2051 }

mask_usable : usable_mask three_classes.has_classes_bitmask three_classes.classes_bitmask ≡ true
unfolding is_playable_class_mask
mask_usable = refl

combat_class_order-has_class_example :
    let order = listed (build_authoritative_combat_ability_class_order three_classes 12) in
    (any (λ x. x == 2) order ≡ has_class three_classes.classes_bitmask 2)
    × (not (has_class three_classes.classes_bitmask 12) || is_first 12 order ≡ true)
combat_class_order-has_class_example = combat_class_order-has_class three_classes 12 2 mask_usable

-- One id twice, and one below 0.
abbrev learned : List ℤ
learned = pos 4501 ∷ pos 4502 ∷ negsuc 0 ∷ pos 4501 ∷ []

build_combat_ability_array-distinct_example :
    let found = distinct [] learned in
    (build_combat_ability_array_from_learned_disciplines learned
      ≡ filled found (300 - length found))
    × NoRepeats found
    × (is_seen (pos 4502) found ≡ (is_positive (pos 4502) && is_seen (pos 4502) learned))
build_combat_ability_array-distinct_example =
    build_combat_ability_array-distinct learned (pos 4502) (omega arith)
