-- ===== src/Skills/Masks.antt =====
-- The two 64-bit skill masks are one mask of 128 bits.
use native.Mathlib.Nat.{one-le-pow}
use eqemu_monomyth_client.Prelude.{ℕ, ◌+◌, ◌-◌, ◌*◌, ◌^◌, ◌<◌, ◌≡◌, ◌↔◌, true, false, ◌==◌, arith}
use eqemu_monomyth_client.Prelude.Bits.{bit, bit-le, bit_and-two_pow, bit-fields}
use eqemu_monomyth_client.Prelude.Int.{pos, negsuc}
use eqemu_monomyth_client.AuthStats.Observe.{Snapshot}
use eqemu_monomyth_client.Skills.Visibility.{
  is_advertised_activated_skill, is_listed, has_authoritative_activated_skill, has_bit,
}

has_bit-bit : (m k : ℕ) → has_bit m k ≡ (bit m k == 1)
has_bit-bit m k = ground (arith, bit_and-two_pow m k, bit-le m k, one-le-pow k 2)

-- The masks side by side.
abbrev pub skill_mask : Snapshot → ℕ
skill_mask s = s.activated_skill_mask_high * 2 ^ 64 + s.activated_skill_mask_low

advertised_small : (k : ℕ) → is_advertised_activated_skill (pos k) ≡ true → k < 128
unfolding is_advertised_activated_skill is_listed
advertised_small k h = ground arith

-- A skill is shown exactly when the server sent both masks, the skill is one of the table, and
-- its bit is set in the 128-bit mask that the two masks make; for masks of 64 bits.
pub has_authoritative_activated_skill_iff :
    (s : Snapshot) (k : ℕ)
    → s.activated_skill_mask_low < 2 ^ 64
    → (has_authoritative_activated_skill s (pos k) ≡ true) ↔ (
        (s.has_activated_skill_mask_low ≡ true)
        × (s.has_activated_skill_mask_high ≡ true)
        × (is_advertised_activated_skill (pos k) ≡ true)
        × (bit (skill_mask s) k ≡ 1))
unfolding has_authoritative_activated_skill
has_authoritative_activated_skill_iff s k low = (
  λ h. ground (
    arith,
    has_bit-bit s.activated_skill_mask_low k,
    has_bit-bit s.activated_skill_mask_high (k - 64),
    bit-fields 64 s.activated_skill_mask_high s.activated_skill_mask_low k low,
  ),
  λ h. ground (
    arith,
    has_bit-bit s.activated_skill_mask_low k,
    has_bit-bit s.activated_skill_mask_high (k - 64),
    advertised_small k,
    bit-fields 64 s.activated_skill_mask_high s.activated_skill_mask_low k low,
  ),
)

-- No skill with a negative id is shown.
negative_hidden : (s : Snapshot) (n : ℕ) → has_authoritative_activated_skill s (negsuc n) ≡ false
unfolding has_authoritative_activated_skill
negative_hidden s n = ground arith
