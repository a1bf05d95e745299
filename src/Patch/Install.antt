-- ===== src/Patch/Install.antt =====
-- InstallInlineDetour and InstallValidatedInlineDetour: what they put in, and what a failure leaves.
use Prim.Native.String.{String}
use eqemu_monomyth_client.Prelude.{
  length, ℕ, ◌+◌, ◌^◌, ◌≤◌, ◌<◌, ◌≡◌, ◌∙◌, refl, ap, inl, inr, Bool, true, Bool-cases, ◌==◌, ◌||◌,
  ◌∷◌, Option, some, Option-cases, arith,
}
use eqemu_monomyth_client.Patch.Jump.{shifted, build_relative_jump}
use eqemu_monomyth_client.Patch.Resolve.{build_relative_jump-LeadsTo}
use eqemu_monomyth_client.Patch.Decode.{calculate_patch_length}
use eqemu_monomyth_client.Patch.Length.{calculate_patch_length_bounds}
use eqemu_monomyth_client.Patch.Detour.{
  Process, InlineDetour, Outcome, write_detour, place_detour, install_inline_detour,
}
use eqemu_monomyth_client.Patch.Placed.{
  Apart, Placed, length-built, patched-Outside, patched-stolen, patched-back, patched-jump,
  target_bytes, take-copy_to_front,
}
use eqemu_monomyth_client.Patch.Memory.{length-bytes_at}

-- The answers of a call whose detour was put in.
abbrev pub Done : Process → Outcome → ℕ → ℕ → ℕ → ℕ → Type 0
Done p r target hook k t =
    Placed p.memory r.process.memory r.detour target hook k t
    × (r.process.allocations ≡ t ∷ p.allocations)
    × (r.original_out ≡ t)

module _ (alloc : ℕ → Option ℕ) (protect : ℕ → ℕ → Bool) (p : Process) (target hook k t out : ℕ)
    (detour : InlineDetour) (label : String) (low : 5 ≤ k) (given : alloc (k + 5) ≡ some t)
    (apart : Apart target k t (k + 5)) (small_target : target + k < 2 ^ 32)
    (small_hook : hook < 2 ^ 32) (small : t + k < 2 ^ 32) where
  place_detour-Done :
      let r = place_detour alloc protect p target hook k detour out label in
      r.done ≡ true → Done p r target hook k t
  unfolding place_detour write_detour
  place_detour-Done done = elim (Option-cases (build_relative_jump (t + k) (target + k))) [
    | inl far ↦ absurd (ground (arith, done, given, far))
    | inr (back, back_built) ↦ elim (Option-cases (build_relative_jump target hook)) [
      | inl far ↦ absurd (ground (arith, done, given, back_built, far))
      | inr (jump, built) ↦ elim (Bool-cases (protect target k)) [
        | inl writable ↦
            let to_hook =
              build_relative_jump-LeadsTo target hook jump (omega arith) small_hook built in
            let to_target =
              build_relative_jump-LeadsTo (t + k) (target + k) back small small_target back_built in
            let jump_size = length-built target hook jump to_hook in
            let back_size = length-built (t + k) (target + k) back to_target in
            let stolen =
              target_bytes p.memory target hook k t jump back low apart jump_size back_size in
            rw (given, place_detour, back_built, built, writable)
              (
                record {
                  jump = jump;
                  jumps =
                      patched-jump p.memory target hook k t jump back low apart jump_size back_size;
                  to_hook = to_hook;
                  stolen =
                      patched-stolen p.memory target hook k t jump back low apart jump_size
                        back_size;
                  back = back;
                  jumps_back =
                      patched-back p.memory target hook k t jump back low apart jump_size back_size;
                  to_target = to_target;
                  elsewhere =
                      patched-Outside p.memory target hook k t jump back low apart jump_size
                        back_size;
                  at_target = refl;
                  at_trampoline = refl;
                  of_length = refl;
                  remembers =
                      take-copy_to_front detour.original _ k
                        (ap length stolen ∙ length-bytes_at p.memory target k)
                      ∙ stolen;
                  is_installed = refl;
                },
                refl,
                refl,
              )
        | inr refused ↦ absurd (ground (arith, done, given, back_built, built, refused))
      ]
    ]
  ]

-- A detour that is put in jumps to the hook, its trampoline runs the overwritten instructions,
-- which are five to sixteen bytes, and jumps back behind them, and no other byte is changed. For a
-- trampoline that VirtualAlloc gives apart from the target, and addresses of 32 bits.
pub install_inline_detour-Done :
    (alloc : ℕ → Option ℕ) (protect : ℕ → ℕ → Bool) (p : Process) (target hook k t out : ℕ)
    (detour : InlineDetour) (label : String)
    → calculate_patch_length (shifted p.memory target) ≡ some k
    → alloc (k + 5) ≡ some t
    → Apart target k t (k + 5)
    → target + k < 2 ^ 32
    → hook < 2 ^ 32
    → t + k < 2 ^ 32
    → (install_inline_detour alloc protect p target hook detour out label).done ≡ true
    → Done p (install_inline_detour alloc protect p target hook detour out label) target hook k t
      × (5 ≤ k)
      × (k ≤ 16)
unfolding install_inline_detour
install_inline_detour-Done alloc protect p target hook k t out detour label len given apart st sh s
      done =
    elim (Bool-cases (target == 0 || hook == 0 || detour.installed)) [
      | inl bad ↦ absurd (ground (arith, done, bad))
      | inr good ↦
          let (low, high) = calculate_patch_length_bounds (shifted p.memory target) k len in
          let placed : (place_detour alloc protect p target hook k detour out label).done ≡ true =
            ground (arith, done, good, len) in
          rw (good, len, install_inline_detour)
            (
              place_detour-Done alloc protect p target hook k t out detour label low given apart st
                  sh s placed,
              low,
              high,
            )
    ]
