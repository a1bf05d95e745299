-- ===== src/Patch/Removed.antt =====
-- RemoveInlineDetour: what was overwritten comes back.
use Prim.Native.String.{String}
use eqemu_monomyth_client.Prelude.{
  ℕ, ◌+◌, ◌-◌, ◌^◌, ◌<◌, ◌≡◌, ◌∙◌, refl, ap, inl, inr, Bool, true, false, Bool-cases, not, ltb, leb,
  ◌==◌, ◌&&◌, List, [], ◌∷◌, Option, some, select, any, arith,
}
use eqemu_monomyth_client.Wire.Bytes.{Memory, bytes_at}
use eqemu_monomyth_client.Patch.Jump.{shifted}
use eqemu_monomyth_client.Patch.Decode.{calculate_patch_length}
use eqemu_monomyth_client.Patch.Memory.{write_bytes, Outside, length-bytes_at, get_or-bytes_at}
use eqemu_monomyth_client.Patch.Detour.{
  Process, InlineDetour, blank_detour, free, install_inline_detour, remove_inline_detour,
}
use eqemu_monomyth_client.Patch.Placed.{Apart, Placed}
use eqemu_monomyth_client.Patch.Install.{install_inline_detour-Done}

-- Writing back what was there before gives what was there before.
pub write_back :
    (before m : Memory) (target k i : ℕ)
    → (Outside target k i → m i ≡ before i)
    → write_bytes m target (bytes_at before target k) i ≡ before i
unfolding write_bytes
write_back before m target k i same =
    let size = length-bytes_at before target k in
    elim (Bool-cases (leb target i && ltb i (target + k))) [
      | inl inside ↦
          let span : target + (i - target) ≡ i = ground (arith, inside) in
          let read = get_or-bytes_at before target k (i - target) (ground (arith, inside)) in
          rw (size, inside) (read ∙ ap before span)
      | inr outside ↦ rw (size, outside) (same (out outside))
    ]
  where
    out : (leb target i && ltb i (target + k)) ≡ false → Outside target k i
    out h = elim (Bool-cases (ltb i target)) [
      | inl before_it ↦ inl (ground (arith, before_it))
      | inr not_before ↦ inr (ground (arith, h, not_before))
    ]

select-absent :
    (t : ℕ) (regions : List ℕ)
    → any (λ a. a == t) regions ≡ false
    → select (λ a. not (a == t)) regions ≡ regions
select-absent t [] h = refl
select-absent t (a ∷ regions) h = ground (arith, select-absent t regions)

-- The trampoline's region is freed, and no other.
pub free-allocations :
    (t : ℕ) (regions : List ℕ)
    → any (λ a. a == t) regions ≡ false
    → select (λ a. not (a == t)) (t ∷ regions) ≡ regions
free-allocations t regions h = ground (arith, select-absent t regions h)

remove-Placed :
    (protect : ℕ → ℕ → Bool) (before : Memory) (p : Process) (detour : InlineDetour)
    (target hook k t i : ℕ)
    → Placed before p.memory detour target hook k t
    → protect target k ≡ true
    → (t == 0) ≡ false
    → Outside t (k + 5) i
    → let q = remove_inline_detour protect p detour in
      (q.1 ≡ true)
      × (q.0.1 ≡ blank_detour)
      × (q.0.0.allocations ≡ (free p t).allocations)
      × (q.0.0.memory i ≡ before i)
unfolding remove_inline_detour
remove-Placed protect before p detour target hook k t i placed writable there out =
    let installed = placed.is_installed in
    let at = placed.at_target in
    let size = placed.of_length in
    let trampoline = placed.at_trampoline in
    let bytes = placed.remembers in
    rw (installed, at, size, writable, trampoline, there, bytes)
      (refl, refl, refl, write_back before p.memory target k i (λ o. placed.elsewhere i o out))

-- Removing a detour that was put in gives back every byte outside its trampoline, frees the
-- trampoline and no other region, and leaves the detour blank. For a trampoline that VirtualAlloc
-- gives apart from the target and from the regions given before, and a target that VirtualProtect
-- makes writable.
pub remove-install_inline_detour :
    (alloc : ℕ → Option ℕ) (protect : ℕ → ℕ → Bool) (p : Process) (target hook k t out i : ℕ)
    (detour : InlineDetour) (label : String)
    → calculate_patch_length (shifted p.memory target) ≡ some k
    → alloc (k + 5) ≡ some t
    → Apart target k t (k + 5)
    → any (λ a. a == t) p.allocations ≡ false
    → (t == 0) ≡ false
    → target + k < 2 ^ 32
    → hook < 2 ^ 32
    → t + k < 2 ^ 32
    → protect target k ≡ true
    → (install_inline_detour alloc protect p target hook detour out label).done ≡ true
    → Outside t (k + 5) i
    → let r = install_inline_detour alloc protect p target hook detour out label in
      let q = remove_inline_detour protect r.process r.detour in
      (q.1 ≡ true)
      × (q.0.1 ≡ blank_detour)
      × (q.0.0.allocations ≡ p.allocations)
      × (q.0.0.memory i ≡ p.memory i)
remove-install_inline_detour alloc protect p target hook k t out i detour label len given apart
      fresh there st sh s writable done outside =
    let r = install_inline_detour alloc protect p target hook detour out label in
    let put =
      install_inline_detour-Done alloc protect p target hook k t out detour label len given apart st
        sh s done in
    let removed =
      remove-Placed protect p.memory r.process r.detour target hook k t i put.0.0 writable there
        outside in
    (
      removed.0,
      removed.1,
      removed.2 ∙ ap (select (λ a. not (a == t))) put.0.1 ∙ free-allocations t p.allocations fresh,
      removed.3,
    )
