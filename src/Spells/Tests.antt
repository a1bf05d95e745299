-- ===== src/Spells/Tests.antt =====
-- Levels of three classes.
use eqemu_monomyth_client.Prelude.{ℕ, ◌≡◌, refl, true, ◌==◌, some, if◌then◌else◌}
use eqemu_monomyth_client.Identity.Closed.{usable_mask}
use eqemu_monomyth_client.Identity.Mask.{is_playable_class_mask}
use eqemu_monomyth_client.Spells.Level.{select_lowest_valid_required_level}
use eqemu_monomyth_client.Spells.Lowest.{Selects, select_lowest_valid_required_level-Selects}

-- The cleric learns the spell at 14, the wizard at 9, and no other class does.
abbrev levels : ℕ → ℕ
levels class_id = if class_id == 2 then 14 else if class_id == 12 then 9 else 255

three_classes_usable : usable_mask true 2051 ≡ true
unfolding is_playable_class_mask
three_classes_usable = refl

select_lowest_valid_required_level-Selects_example :
    Selects levels 2051 60 (select_lowest_valid_required_level (some levels) true 2051 60)
select_lowest_valid_required_level-Selects_example =
    select_lowest_valid_required_level-Selects levels true 2051 60 three_classes_usable
