-- ===== src/Skills/Visibility.antt =====
-- The table of activated skills and the test of the server's two skill masks.
use Prim.Native.String.{String}
use eqemu_monomyth_client.Prelude.{
  ℕ, ◌-◌, ◌^◌, bit_and, Bool, true, false, not, ◌!=◌, ◌||◌, List, [], ◌∷◌, if◌then◌else◌,
}
use eqemu_monomyth_client.Prelude.Int.{ℤ, pos, negsuc, is_negative, below, eq_int}
use eqemu_monomyth_client.AuthStats.Observe.{Snapshot}

abbrev pub low_skill_limit : ℕ
low_skill_limit = 64

abbrev pub high_skill_limit : ℕ
high_skill_limit = 128

pub record ActivatedSkillEntry : Type 0 where
  pub skill_id : ℤ
  pub name : String

abbrev pub skill : ℕ → String → ActivatedSkillEntry
skill id name = record { skill_id = pos id; name = name }

abbrev pub advertised_activated_skills : List ActivatedSkillEntry
advertised_activated_skills =
    skill 6 "Apply Poison"
    ∷ skill 8 "Backstab"
    ∷ skill 9 "Bind Wound"
    ∷ skill 10 "Bash/Slam"
    ∷ skill 16 "Disarm"
    ∷ skill 17 "Disarm Traps"
    ∷ skill 21 "Dragon Punch"
    ∷ skill 23 "Eagle Strike"
    ∷ skill 25 "Feign Death"
    ∷ skill 26 "Flying Kick"
    ∷ skill 27 "Forage"
    ∷ skill 29 "Hide"
    ∷ skill 30 "Kick"
    ∷ skill 32 "Mend"
    ∷ skill 35 "Pick Lock"
    ∷ skill 38 "Round Kick"
    ∷ skill 40 "Sense Heading"
    ∷ skill 42 "Sneak"
    ∷ skill 48 "Pick Pockets"
    ∷ skill 52 "Tiger Claw"
    ∷ skill 53 "Tracking"
    ∷ skill 62 "Sense Traps"
    ∷ skill 67 "Begging"
    ∷ skill 71 "Intimidation"
    ∷ skill 73 "Taunt"
    ∷ skill 74 "Frenzy"
    ∷ []

unfoldable pub is_listed : List ActivatedSkillEntry → ℤ → Bool
is_listed [] skill_id = false
is_listed (entry ∷ entries) skill_id =
    if eq_int entry.skill_id skill_id then true else is_listed entries skill_id

unfoldable pub is_advertised_activated_skill : ℤ → Bool
is_advertised_activated_skill = is_listed advertised_activated_skills

unfoldable pub listed_name : List ActivatedSkillEntry → ℤ → String
listed_name [] skill_id = "unknown"
listed_name (entry ∷ entries) skill_id =
    if eq_int entry.skill_id skill_id then entry.name else listed_name entries skill_id

unfoldable pub activated_skill_name : ℤ → String
activated_skill_name = listed_name advertised_activated_skills

-- `mask & (std::uint64_t{1} << skill_id)`, for the value of an id that is not negative.
abbrev pub has_bit : ℕ → ℕ → Bool
has_bit mask skill_id = bit_and mask (2 ^ skill_id) != 0

abbrev pub magnitude : ℤ → ℕ
magnitude (pos n) = n
magnitude (negsuc n) = 0

unfoldable pub has_authoritative_activated_skill : Snapshot → ℤ → Bool
has_authoritative_activated_skill snapshot skill_id =
    if not snapshot.has_activated_skill_mask_low
      || not snapshot.has_activated_skill_mask_high
      || is_negative skill_id
      || not (below skill_id high_skill_limit)
      || not (is_advertised_activated_skill skill_id)
    then false
    else if below skill_id low_skill_limit
    then has_bit snapshot.activated_skill_mask_low (magnitude skill_id)
    else has_bit snapshot.activated_skill_mask_high (magnitude skill_id - low_skill_limit)
