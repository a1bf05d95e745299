-- ===== src/Patch/Failed.antt =====
-- A detour that could not be put in.
use Prim.Native.String.{String}
use eqemu_monomyth_client.Prelude.{
  ℕ, ◌+◌, ◌≡◌, refl, inl, inr, Bool, false, Bool-cases, ◌==◌, ◌||◌, Option, some, Option-cases, any,
  arith,
}
use eqemu_monomyth_client.Patch.Jump.{shifted, build_relative_jump}
use eqemu_monomyth_client.Patch.Resolve.{build_relative_jump_length}
use eqemu_monomyth_client.Patch.Decode.{calculate_patch_length}
use eqemu_monomyth_client.Patch.Memory.{Outside}
use eqemu_monomyth_client.Patch.Detour.{
  Process, InlineDetour, Outcome, write_detour, place_detour, install_inline_detour,
}
use eqemu_monomyth_client.Patch.Placed.{trampoline-Outside}
use eqemu_monomyth_client.Patch.Removed.{free-allocations}

-- The process outside the region of a trampoline, its allocations and the detour are as before.
abbrev pub Unchanged : Process → InlineDetour → Outcome → ℕ → Type 0
Unchanged p detour r i =
    (r.detour ≡ detour)
    × (r.process.allocations ≡ p.allocations)
    × (r.process.memory i ≡ p.memory i)

module _ (alloc : ℕ → Option ℕ) (protect : ℕ → ℕ → Bool) (p : Process) (target hook t out i : ℕ)
    (detour : InlineDetour) (label : String) (fresh : any (λ a. a == t) p.allocations ≡ false) where
  place_detour_failed :
      (k : ℕ)
      → alloc (k + 5) ≡ some t
      → Outside t (k + 5) i
      → (place_detour alloc protect p target hook k detour out label).done ≡ false
      → Unchanged p detour (place_detour alloc protect p target hook k detour out label) i
  unfolding place_detour write_detour
  place_detour_failed k given outside failed =
      let freed = free-allocations t p.allocations fresh in
      elim (Option-cases (build_relative_jump (t + k) (target + k))) [
        | inl far ↦ rw (given, place_detour, far) (refl, freed, refl)
        | inr (back, back_built) ↦
            let size = build_relative_jump_length (t + k) (target + k) back back_built in
            elim (Option-cases (build_relative_jump target hook)) [
              | inl far ↦ rw (given, place_detour, back_built, far) (refl, freed, refl)
              | inr (jump, built) ↦ elim (Bool-cases (protect target k)) [
                | inl writable ↦ absurd (ground (arith, failed, given, back_built, built, writable))
                | inr kept ↦
                    rw (given, place_detour, back_built, built, kept)
                      (refl, freed, trampoline-Outside p.memory target k t back size i outside)
              ]
            ]
      ]

-- An installation that fails, for whatever reason, leaves the detour, the allocated regions and every
-- byte as they were, but for the bytes of the region tried for the trampoline, if there was one. For
-- a VirtualAlloc that gives a region besides those given before.
pub install_inline_detour_failed :
    (alloc : ℕ → Option ℕ) (protect : ℕ → ℕ → Bool) (p : Process) (target hook out i : ℕ)
    (detour : InlineDetour) (label : String)
    → ((k t : ℕ)
        → calculate_patch_length (shifted p.memory target) ≡ some k
        → alloc (k + 5) ≡ some t
        → (any (λ a. a == t) p.allocations ≡ false) × Outside t (k + 5) i)
    → (install_inline_detour alloc protect p target hook detour out label).done ≡ false
    → Unchanged p detour (install_inline_detour alloc protect p target hook detour out label) i
unfolding install_inline_detour place_detour
install_inline_detour_failed alloc protect p target hook out i detour label tried failed =
    elim (Bool-cases (target == 0 || hook == 0 || detour.installed)) [
      | inl bad ↦ rw (bad) (refl, refl, refl)
      | inr good ↦ elim (Option-cases (calculate_patch_length (shifted p.memory target))) [
        | inl unsupported ↦ rw (good, unsupported, install_inline_detour) (refl, refl, refl)
        | inr (k, len) ↦
            let placed : (place_detour alloc protect p target hook k detour out label).done
                ≡ false =
              ground (arith, failed, good, len) in
            rw (good, len, install_inline_detour)
              (elim (Option-cases (alloc (k + 5))) [
                | inl exhausted ↦ rw (exhausted, place_detour) (refl, refl, refl)
                | inr (t, given) ↦
                    let (fresh, outside) = tried k t len given in
                    place_detour_failed alloc protect p target hook t out i detour label fresh k
                      given outside placed
              ])
      ]
    ]
