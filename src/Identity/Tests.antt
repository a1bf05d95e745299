-- ===== src/Identity/Tests.antt =====
-- Masks, orders and texts of concrete characters.
use eqemu_monomyth_client.Prelude.{
  ℕ, ◌<◌, ◌≡◌, ◌≢◌, ◌↔◌, refl, Bool, true, false, [], bit_and, map, length, arith, if◌then◌else◌,
  ◌^◌,
}
use eqemu_monomyth_client.Identity.Mask.{
  has_class, has_any_authoritative_client_item_class, is_playable_class_mask,
}
use eqemu_monomyth_client.Identity.Membership.{
  Holds, has_class_iff, is_playable_class_mask_iff, has_any_authoritative_client_item_class_iff,
}
use eqemu_monomyth_client.Identity.Order.{build_ordered_class_id_list}
use eqemu_monomyth_client.Identity.Closed.{
  listed, usable_mask, class_order, build_ordered_class_id_list-listed,
}
use eqemu_monomyth_client.Identity.Display.{full_name, format_class_display}
use eqemu_monomyth_client.Identity.Format.{class_name, joined, format_class_display-joined}
use eqemu_monomyth_client.Identity.Hands.{
  no_conflict, needs_hand_equip_conflict_check, evaluate_hand_equip_conflict, needs_check-evaluate,
}

-- A warrior, cleric and wizard.
abbrev three_classes : ℕ
three_classes = 2051

build_ordered_class_id_list-listed_example :
    let ids = build_ordered_class_id_list 12 true three_classes in
    let order = if usable_mask true three_classes then class_order 12 three_classes else [] in
    (listed ids ≡ order) × (ids.count ≡ length order)
build_ordered_class_id_list-listed_example =
    build_ordered_class_id_list-listed 12 true three_classes

format_class_display-joined_example : format_class_display 12 true three_classes full_name ≡ (
    if usable_mask true three_classes
    then joined (map (class_name full_name) (class_order 12 three_classes))
    else "")
format_class_display-joined_example = format_class_display-joined 12 true three_classes full_name

has_any_authoritative_client_item_class_iff_example :
    (has_any_authoritative_client_item_class true three_classes 2048 ≡ true) ↔ (
      (true ≡ true) × (three_classes < 2 ^ 16) × (2048 < 2 ^ 16) × (bit_and three_classes 2048 ≢ 0))
has_any_authoritative_client_item_class_iff_example =
    has_any_authoritative_client_item_class_iff true three_classes 2048 (omega arith) (omega arith)

has_class_iff_example : (has_class three_classes 12 ≡ true) ↔ Holds three_classes 12
has_class_iff_example = has_class_iff three_classes 12

is_playable_class_mask_iff_example :
    (is_playable_class_mask three_classes ≡ true) ↔ (three_classes < 2 ^ 16)
is_playable_class_mask_iff_example = is_playable_class_mask_iff three_classes (omega arith)

needs_check-evaluate_example : (needs_hand_equip_conflict_check true false false true ≡ false) ↔ (
    (blocks occupied : Bool)
    → evaluate_hand_equip_conflict true false false true blocks occupied ≡ no_conflict)
needs_check-evaluate_example = needs_check-evaluate true false false true refl
