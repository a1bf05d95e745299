-- ===== src/Client/Tests.antt =====
-- A client loaded at 0x400000 whose local player, at 0x1000, is a warrior; the profile is not there.
use eqemu_monomyth_client.Prelude.{
  ℕ, ◌≡◌, refl, Bool, true, ◌==◌, Option, none, some, arith, if◌then◌else◌,
}
use eqemu_monomyth_client.AuthStats.Read.{Pages, copy_bytes, safe_copy}
use eqemu_monomyth_client.Identity.Mask.{
  is_playable_class_id, is_playable_class_mask, has_class, class_bit, has_authoritative_class,
}
use eqemu_monomyth_client.Patch.Jump.{try_copy_bytes}
use eqemu_monomyth_client.Client.Read.{
  try_resolve_lookup_class_record, read_relative_offset, read_word, read_byte,
  try_read_local_player_pointer, try_read_local_char_data_pointer,
  try_read_eq_player_displayed_class_id, try_resolve_local_profile_class_storage,
  try_resolve_local_char_data_class_record_storage,
}
use eqemu_monomyth_client.Client.Override.{
  blank_state, put_bytes, copy_originals, write_object, write_three,
  try_apply_temporary_local_class_override, restore_temporary_local_class_override,
}
use eqemu_monomyth_client.Client.Originals.{AreBytes}
use eqemu_monomyth_client.Client.Restored.{restore-apply}
use eqemu_monomyth_client.Client.Best.{
  is_local_char_data_context, ask_as_class, evaluate_from,
  evaluate_best_authoritative_skills_window_skill_value,
}
use eqemu_monomyth_client.Client.Largest.{Outcome, evaluate_best-largest}
use eqemu_monomyth_client.Prelude.Int.{ℤ, pos}
use eqemu_monomyth_client.AuthStats.Observe.{Snapshot, initial_globals}

abbrev warrior : Pages
warrior i = if i == 0x1fe0 then some 1 else if i == 0xdd2631 then some 0x10 else some 0

abbrev writable : ℕ → ℕ → Bool
writable address size = true

warrior-AreBytes : AreBytes warrior
warrior-AreBytes i b h = ground (arith, h)

cleric_done :
    (try_apply_temporary_local_class_override writable 0x400000 2 blank_state warrior).1 ≡ true
unfolding try_apply_temporary_local_class_override copy_originals write_three write_object
    is_playable_class_id read_word read_byte try_copy_bytes safe_copy copy_bytes
    try_read_local_player_pointer try_read_local_char_data_pointer
    try_read_eq_player_displayed_class_id try_resolve_local_profile_class_storage
    try_resolve_local_char_data_class_record_storage
cleric_done = refl

-- The displayed class is the cleric for a while, and then the warrior again.
cleric_shown :
    (try_apply_temporary_local_class_override writable 0x400000 2 blank_state warrior).0.0 0x1fe0
    ≡ some 2
unfolding try_apply_temporary_local_class_override copy_originals write_three write_object put_bytes
    is_playable_class_id read_word read_byte try_copy_bytes safe_copy copy_bytes
    try_read_local_player_pointer try_read_local_char_data_pointer
    try_read_eq_player_displayed_class_id try_resolve_local_profile_class_storage
    try_resolve_local_char_data_class_record_storage
cleric_shown = refl

restore-apply_example :
    let r = try_apply_temporary_local_class_override writable 0x400000 2 blank_state warrior in
    (restore_temporary_local_class_override writable r.0.1 r.0.0).0 0x1fe0 ≡ some 1
restore-apply_example =
    restore-apply writable 0x400000 2 0x1fe0 blank_state warrior warrior-AreBytes cleric_done

-- The local character data at 0x2000, and a skill whose value is the displayed class.
abbrev hero : Pages
hero i =
    if i == 0x1fe0
    then some 1
    else if i == 0xdd2631
    then some 0x10
    else if i == 0xdd261d
    then some 0x20
    else some 0

abbrev class_shown : Pages → Pages × Option ℤ
class_shown memory =
    (memory, elim (memory 0x1fe0) [ none ↦ none | some class_id ↦ some (pos class_id) ])

abbrev two_classes : Snapshot
two_classes = record initial_globals.stats { has_classes_bitmask = true; classes_bitmask = 3 }

hero-AreBytes : AreBytes hero
hero-AreBytes i b h = ground (arith, h)

best_skill :
    (evaluate_best_authoritative_skills_window_skill_value writable 0x400000
      (some class_shown)
      0x2000
      (pos 0)
      two_classes
      hero).1
    ≡ pos 2
unfolding evaluate_best_authoritative_skills_window_skill_value evaluate_from ask_as_class
    is_local_char_data_context has_authoritative_class is_playable_class_mask has_class class_bit
    try_apply_temporary_local_class_override copy_originals write_three write_object put_bytes
    restore_temporary_local_class_override is_playable_class_id read_word read_byte try_copy_bytes
    safe_copy copy_bytes try_read_local_player_pointer try_read_local_char_data_pointer
    try_read_eq_player_displayed_class_id try_resolve_local_profile_class_storage
    try_resolve_local_char_data_class_record_storage try_resolve_lookup_class_record
    read_relative_offset
best_skill = refl

evaluate_best-largest_example :
    let r =
      evaluate_best_authoritative_skills_window_skill_value writable 0x400000
        (some class_shown)
        0x2000
        (pos 0)
        two_classes
        hero in
    (r.0 ≡ hero) × Outcome writable 0x400000 (some class_shown) 0x2000 (pos 0) two_classes hero r.1
evaluate_best-largest_example =
    evaluate_best-largest writable 0x400000 (some class_shown) 0x2000 (pos 0) two_classes hero
      hero-AreBytes (omega arith) (λ m. refl)
