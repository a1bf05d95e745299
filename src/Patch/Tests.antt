-- ===== src/Patch/Tests.antt =====
-- A function at 0x1000 that begins with `push ebp; mov ebp, esp; sub esp, 0x10`, its detour to
-- 0x9000 with a trampoline at 0x5000, and a call at 0x2000 of 0x3000 that is led to 0x9000.
use mathlib.Core.Path.{subst}
use eqemu_monomyth_client.Prelude.{
  ◌==◌, any, sym, ℕ, ◌+◌, ◌-◌, ◌≤◌, ◌≡◌, ◌↔◌, refl, inl, Bool, true, false, List, [], ◌∷◌, Option,
  some, get_or, arith, if◌then◌else◌,
}
use eqemu_monomyth_client.Wire.Bytes.{Memory, bytes_at}
use eqemu_monomyth_client.Wire.Layout.{word_bytes}
use eqemu_monomyth_client.Prelude.{ltb}
use eqemu_monomyth_client.Patch.Jump.{
  shifted, build_relative_jump, build_relative_call, relative_offset_fits, resolve_relative_call,
}
use eqemu_monomyth_client.Patch.Decode.{
  mod_rm_base_length, decode_mod_rm_instruction_length, decode_unprefixed_length,
  decode_supported_instruction_length, calculate_loop, calculate_patch_length,
}
use eqemu_monomyth_client.Patch.Length.{
  Whole, calculate_patch_length-Whole, calculate_patch_length_bounds,
}
use eqemu_monomyth_client.Patch.Detour.{
  Process, blank_detour, write_detour, place_detour, install_inline_detour, remove_inline_detour,
}
use eqemu_monomyth_client.Patch.Install.{Done, install_inline_detour-Done}
use eqemu_monomyth_client.Patch.Removed.{remove-install_inline_detour}
use eqemu_monomyth_client.Patch.Memory.{Outside}
use eqemu_monomyth_client.Patch.Failed.{Unchanged, install_inline_detour_failed}
use eqemu_monomyth_client.Patch.Sites.{
  blank_callsite_patch, blank_byte_patch, install_callsite_patch, remove_callsite_patch,
  try_write_bytes, install_byte_patch, remove_byte_patch,
}
use eqemu_monomyth_client.Patch.Undo.{
  Patched, install_callsite_patch-Patched, remove-install_callsite_patch, remove-install_byte_patch,
}

abbrev prologue : List ℕ
prologue = 0x55 ∷ 0x8b ∷ 0xec ∷ 0x83 ∷ 0xec ∷ 0x10 ∷ []

abbrev call_site : List ℕ
call_site = 0xe8 ∷ word_bytes 0xffb

abbrev client_memory : Memory
client_memory i =
    if ltb i 0x2000 then get_or prologue (i - 0x1000) 0 else get_or call_site (i - 0x2000) 0

abbrev client : Process
client = record { memory = client_memory; allocations = 0x7000 ∷ []; log = [] }

abbrev gives : ℕ → Option ℕ
gives size = some 0x5000

abbrev writable : ℕ → ℕ → Bool
writable address size = true

abbrev kept : ℕ → ℕ → Bool
kept address size = false

patch_of_six : calculate_patch_length (shifted client_memory 0x1000) ≡ some 6
unfolding calculate_patch_length calculate_loop decode_supported_instruction_length
    decode_unprefixed_length decode_mod_rm_instruction_length mod_rm_base_length
patch_of_six = refl

calculate_patch_length-Whole_example :
    (calculate_patch_length (shifted client_memory 0x1000) ≡ some 6)
    ↔ Whole (shifted client_memory 0x1000) 6 0
calculate_patch_length-Whole_example = calculate_patch_length-Whole (shifted client_memory 0x1000) 6

calculate_patch_length_bounds_example : (5 ≤ 6) × (6 ≤ 16)
calculate_patch_length_bounds_example =
    calculate_patch_length_bounds (shifted client_memory 0x1000) 6 patch_of_six

detour_done :
    (install_inline_detour gives writable client 0x1000 0x9000 blank_detour 0 "x").done ≡ true
unfolding install_inline_detour place_detour write_detour build_relative_jump relative_offset_fits
detour_done = rw patch_of_six refl

install_inline_detour-Done_example :
    Done client
      (install_inline_detour gives writable client 0x1000 0x9000 blank_detour 0 "x")
      0x1000
      0x9000
      6
      0x5000
    × (5 ≤ 6)
    × (6 ≤ 16)
install_inline_detour-Done_example =
    install_inline_detour-Done gives writable client 0x1000 0x9000 6 0x5000 0 blank_detour "x"
      patch_of_six refl (inl (omega arith)) (omega arith) (omega arith) (omega arith) detour_done

remove-install_inline_detour_example :
    let r = install_inline_detour gives writable client 0x1000 0x9000 blank_detour 0 "x" in
    let q = remove_inline_detour writable r.process r.detour in
    (q.1 ≡ true)
    × (q.0.1 ≡ blank_detour)
    × (q.0.0.allocations ≡ 0x7000 ∷ [])
    × (q.0.0.memory 0x1000 ≡ 0x55)
remove-install_inline_detour_example =
    remove-install_inline_detour gives writable client 0x1000 0x9000 6 0x5000 0 0x1000 blank_detour
      "x" patch_of_six refl (inl (omega arith)) refl refl (omega arith) (omega arith) (omega arith)
      refl detour_done (inl (omega arith))

detour_refused :
    (install_inline_detour gives kept client 0x1000 0x9000 blank_detour 0 "x").done ≡ false
unfolding install_inline_detour place_detour write_detour build_relative_jump relative_offset_fits
detour_refused = rw patch_of_six refl

-- The region that is tried is that at 0x5000, of eleven bytes.
tried_region :
    (k t : ℕ)
    → calculate_patch_length (shifted client_memory 0x1000) ≡ some k
    → gives (k + 5) ≡ some t
    → (any (λ a. a == t) (0x7000 ∷ []) ≡ false) × Outside t (k + 5) 0x1000
tried_region k t len given =
    let region : t ≡ 0x5000 = cc given in
    subst (λ x. (any (λ a. a == x) (0x7000 ∷ []) ≡ false) × Outside x (k + 5) 0x1000) (sym region)
      (refl, inl (omega arith))

install_inline_detour_failed_example :
    Unchanged client blank_detour
      (install_inline_detour gives kept client 0x1000 0x9000 blank_detour 0 "x")
      0x1000
install_inline_detour_failed_example =
    install_inline_detour_failed gives kept client 0x1000 0x9000 0 0x1000 blank_detour "x"
      tried_region detour_refused

callsite_done :
    (install_callsite_patch writable client 0x2000 0x9000 0x3000 blank_callsite_patch "x").1 ≡ true
unfolding install_callsite_patch resolve_relative_call build_relative_call relative_offset_fits
callsite_done = refl

install_callsite_patch-Patched_example :
    Patched client
      (install_callsite_patch writable client 0x2000 0x9000 0x3000 blank_callsite_patch "x")
      0x2000
      0x9000
      0x3000
      0x1000
install_callsite_patch-Patched_example =
    install_callsite_patch-Patched writable client 0x2000 0x9000 0x3000 0x1000 blank_callsite_patch
      "x" (omega arith) (omega arith) callsite_done

remove-install_callsite_patch_example :
    let r = install_callsite_patch writable client 0x2000 0x9000 0x3000 blank_callsite_patch "x" in
    let q = remove_callsite_patch writable r.0.0 r.0.1 in
    (q.1 ≡ true) × (q.0.1 ≡ blank_callsite_patch) × (q.0.0.memory 0x2000 ≡ 0xe8)
remove-install_callsite_patch_example =
    remove-install_callsite_patch writable client 0x2000 0x9000 0x3000 0x2000 blank_callsite_patch
      "x" (omega arith) (omega arith) refl callsite_done

bytes_done :
    (install_byte_patch writable writable client 0x1000
      (0x55 ∷ [])
      (0x90 ∷ [])
      1
      blank_byte_patch
      "x").1
    ≡ true
unfolding install_byte_patch try_write_bytes bytes_at
bytes_done = refl

remove-install_byte_patch_example :
    let r =
      install_byte_patch writable writable client 0x1000
        (0x55 ∷ [])
        (0x90 ∷ [])
        1
        blank_byte_patch
        "x" in
    let q = remove_byte_patch writable r.0.0 r.0.1 in
    (bytes_at client_memory 0x1000 1 ≡ 0x55 ∷ [])
    × (q.1 ≡ true)
    × (q.0.1 ≡ blank_byte_patch)
    × (q.0.0.memory 0x1000 ≡ 0x55)
remove-install_byte_patch_example =
    remove-install_byte_patch writable writable client 0x1000 1 0x1000 (0x55 ∷ []) (0x90 ∷ [])
      blank_byte_patch "x" refl refl bytes_done
