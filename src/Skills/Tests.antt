-- ===== src/Skills/Tests.antt =====
-- The masks of a character who can backstab and bash.
use eqemu_monomyth_client.Prelude.{◌≡◌, ◌↔◌, true, arith}
use eqemu_monomyth_client.Prelude.Int.{pos}
use eqemu_monomyth_client.Prelude.Bits.{bit}
use eqemu_monomyth_client.AuthStats.Observe.{Snapshot, initial_globals}
use eqemu_monomyth_client.Skills.Visibility.{
  is_advertised_activated_skill, has_authoritative_activated_skill,
}
use eqemu_monomyth_client.Skills.Masks.{skill_mask, has_authoritative_activated_skill_iff}

-- Skills 8 and 73.
abbrev two_skills : Snapshot
two_skills = record initial_globals.stats {
  has_activated_skill_mask_low = true;
  activated_skill_mask_low = 256;
  has_activated_skill_mask_high = true;
  activated_skill_mask_high = 512;
}

has_authoritative_activated_skill_iff_example :
    (has_authoritative_activated_skill two_skills (pos 73) ≡ true) ↔ (
      (two_skills.has_activated_skill_mask_low ≡ true)
      × (two_skills.has_activated_skill_mask_high ≡ true)
      × (is_advertised_activated_skill (pos 73) ≡ true)
      × (bit (skill_mask two_skills) 73 ≡ 1))
has_authoritative_activated_skill_iff_example =
    has_authoritative_activated_skill_iff two_skills 73 (omega arith)
