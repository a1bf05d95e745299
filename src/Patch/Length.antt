-- ===== src/Patch/Length.antt =====
-- The length that a detour overwrites: whole instructions, from five to sixteen bytes.
use mathlib.Core.Path.{subst}
use eqemu_monomyth_client.Prelude.{
  ℕ, zero, suc, ◌+◌, ◌-◌, ◌≤◌, ◌<◌, ◌≡◌, ◌↔◌, sym, inl, inr, true, false, Bool-cases, ltb, leb,
  some, Option-cases, arith,
}
use eqemu_monomyth_client.Wire.Bytes.{Memory}
use eqemu_monomyth_client.Patch.Jump.{shifted}
use eqemu_monomyth_client.Patch.Decode.{
  mod_rm_base_length, decode_mod_rm_instruction_length, decode_unprefixed_length,
  decode_supported_instruction_length, calculate_loop, calculate_patch_length,
}

-- From one offset to another by instructions that the decoder knows, none of which reaches past
-- sixteen bytes, to the first offset at or above five.
pub data Whole (target : Memory) (stop : ℕ) : ℕ → Type 0 where
  stops : 5 ≤ stop → Whole target stop stop
  decodes :
      (at length : ℕ)
      → at < 5
      → decode_supported_instruction_length (shifted target at) (16 - at) ≡ some length
      → at + length ≤ 16
      → Whole target stop (at + length)
      → Whole target stop at

mod_rm_base_length-ge :
    (code : Memory) (available n : ℕ) → mod_rm_base_length code available ≡ some n → 2 ≤ n
unfolding mod_rm_base_length
mod_rm_base_length-ge code available n h = ground arith

mod_rm_length-ge :
    (code : Memory) (available immediate n : ℕ)
    → decode_mod_rm_instruction_length code available immediate ≡ some n
    → 1 ≤ n
unfolding decode_mod_rm_instruction_length
mod_rm_length-ge code available immediate n h =
    elim (Option-cases (mod_rm_base_length code available)) [
      | inl bad ↦ absurd (ground (arith, h, bad))
      | inr (base, good) ↦
          let low = mod_rm_base_length-ge code available base good in ground (arith, h, good, low)
    ]

unprefixed_length-ge :
    (code : Memory) (available n : ℕ) → decode_unprefixed_length code available ≡ some n → 1 ≤ n
unfolding decode_unprefixed_length
unprefixed_length-ge code available n h = ground (
  arith,
  mod_rm_length-ge code available 0 n,
  mod_rm_length-ge code available 1 n,
  mod_rm_length-ge code available 4 n,
)

-- Each instruction has a byte.
instruction_length-ge :
    (available : ℕ) (code : Memory) (n : ℕ)
    → decode_supported_instruction_length code available ≡ some n
    → 1 ≤ n
unfolding decode_supported_instruction_length
instruction_length-ge zero code n h = absurd (ground (arith, h))
instruction_length-ge (suc available) code n h =
    elim (Option-cases (decode_supported_instruction_length (shifted code 1) available)) [
      | inl bad ↦ ground (arith, unprefixed_length-ge code (suc available) n)
      | inr (rest, good) ↦ ground (arith, unprefixed_length-ge code (suc available) n)
    ]

calculate_loop-Whole :
    (fuel : ℕ) (target : Memory) (at k : ℕ)
    → calculate_loop fuel target at ≡ some k
    → Whole target k at
unfolding calculate_loop
calculate_loop-Whole zero target at k h = absurd (ground (arith, h))
calculate_loop-Whole (suc fuel) target at k h = elim (Bool-cases (leb 5 at)) [
  | inl enough ↦
      let done : at ≡ k = ground (arith, h, enough) in
      subst (Whole target k) (sym done) (stops (ground (arith, enough, done)))
  | inr more ↦
      elim (Option-cases (decode_supported_instruction_length (shifted target at) (16 - at))) [
        | inl bad ↦ absurd (ground (arith, h, more, bad))
        | inr (length, good) ↦ elim (Bool-cases (ltb 16 (at + length))) [
          | inl far ↦ absurd (ground (arith, h, more, good, far))
          | inr near ↦ decodes at length (ground (arith, more)) good (ground (arith, near)) (
              calculate_loop-Whole fuel target (at + length) k
                (ground (arith, h, more, good, near)))
        ]
      ]
]

-- Six rounds are enough: every round but the last decodes a byte or more.
Whole-calculate_loop :
    (fuel : ℕ) (target : Memory) (at k : ℕ)
    → 6 ≤ fuel + at
    → 1 ≤ fuel
    → Whole target k at
    → calculate_loop fuel target at ≡ some k
unfolding calculate_loop
Whole-calculate_loop zero target at k enough some_fuel w = absurd (omega arith)
Whole-calculate_loop (suc fuel) target at k enough some_fuel (stops h) =
    let done : leb 5 k ≡ true = ground (arith, h) in rw done
Whole-calculate_loop (suc fuel) target at k enough some_fuel (decodes _ length low good near rest) =
    let early : leb 5 at ≡ false = ground (arith, low) in
    let fits : ltb 16 (at + length) ≡ false = ground (arith, near) in
    let one = instruction_length-ge (16 - at) (shifted target at) length good in
    rw (early, good, calculate_loop, fits)
      (Whole-calculate_loop fuel target (at + length) k (omega arith) (omega arith) rest)

-- CalculatePatchLength gives a length exactly when the instructions that it knows, decoded one
-- after the other from the target, each within sixteen bytes, first reach five bytes or more at
-- that length.
pub calculate_patch_length-Whole :
    (target : Memory) (k : ℕ) → (calculate_patch_length target ≡ some k) ↔ Whole target k 0
unfolding calculate_patch_length
calculate_patch_length-Whole target k = (
  calculate_loop-Whole 6 target 0 k,
  Whole-calculate_loop 6 target 0 k (omega arith) (omega arith),
)

Whole-bounds : (target : Memory) (k at : ℕ) → at ≤ 16 → Whole target k at → (5 ≤ k) × (k ≤ 16)
Whole-bounds target k at h (stops low) = (low, h)
Whole-bounds target k at h (decodes _ length low good near rest) =
    Whole-bounds target k (at + length) near rest

-- The length is from five to sixteen.
pub calculate_patch_length_bounds :
    (target : Memory) (k : ℕ) → calculate_patch_length target ≡ some k → (5 ≤ k) × (k ≤ 16)
calculate_patch_length_bounds target k h =
    Whole-bounds target k 0 (omega arith) ((calculate_patch_length-Whole target k).0 h)
