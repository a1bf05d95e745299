-- ===== src/Patch/Sites.antt =====
-- InstallCallsitePatch and InstallBytePatch, TryWriteBytes, and the functions that take such
-- patches out again. What the system answers is a parameter: whether VirtualProtect makes a region
-- writable, and whether ReadProcessMemory reads one.
use Prim.Native.String.{String}
use eqemu_monomyth_client.Prelude.{
  ℕ, Bool, true, false, not, ltb, ◌==◌, ◌!=◌, ◌||◌, List, Option, none, some, replicate, take,
  length, eq_bytes, if◌then◌else◌,
}
use eqemu_monomyth_client.Wire.Bytes.{Memory, bytes_at}
use eqemu_monomyth_client.Patch.Jump.{
  jmp_patch_bytes, max_stolen_bytes, shifted, resolve_relative_call, build_relative_call,
}
use eqemu_monomyth_client.Patch.Memory.{write_bytes}
use eqemu_monomyth_client.Patch.Detour.{
  Process, copy_to_front, log_line, callsite_validation_failed, callsite_out_of_range,
  callsite_protection_failed, callsite_hook_installed, callsite_uninstall_protection_failed,
  byte_patch_read_failed, byte_patch_write_failed, byte_patch_validation_failed,
  byte_patch_installed, byte_patch_restore_failed,
}

pub record CallsitePatch : Type 0 where
  pub address : ℕ
  pub original : List ℕ
  pub patch : List ℕ
  pub installed : Bool

abbrev pub blank_callsite_patch : CallsitePatch
blank_callsite_patch = record {
  address = 0;
  original = replicate jmp_patch_bytes 0;
  patch = replicate jmp_patch_bytes 0;
  installed = false;
}

pub record BytePatch : Type 0 where
  pub address : ℕ
  pub original : List ℕ
  pub patch : List ℕ
  pub length : ℕ
  pub installed : Bool

abbrev pub blank_byte_patch : BytePatch
blank_byte_patch = record {
  address = 0;
  original = replicate max_stolen_bytes 0;
  patch = replicate max_stolen_bytes 0;
  length = 0;
  installed = false;
}

module _ (protect : ℕ → ℕ → Bool) where
  -- The process, the patch and the result, here and below.
  unfoldable pub install_callsite_patch :
      Process → ℕ → ℕ → ℕ → CallsitePatch → String → (Process × CallsitePatch) × Bool
  install_callsite_patch p callsite hook expected_original_target patch label =
      if callsite == 0 || hook == 0 || patch.installed
      then ((p, patch), false)
      else let resolution =
          resolve_relative_call (shifted p.memory callsite) jmp_patch_bytes callsite in
        if not resolution.resolved || resolution.target != expected_original_target
        then ((log_line p (callsite_validation_failed label), patch), false)
        else elim (build_relative_call callsite hook) [
          | none ↦ ((log_line p (callsite_out_of_range label), patch), false)
          | some call_patch ↦
              if not (protect callsite jmp_patch_bytes)
              then ((log_line p (callsite_protection_failed label), patch), false)
              else (
                (
                  log_line (record p { memory = write_bytes p.memory callsite call_patch })
                      (callsite_hook_installed label callsite hook expected_original_target),
                  record {
                    address = callsite;
                    original = bytes_at p.memory callsite jmp_patch_bytes;
                    patch = call_patch;
                    installed = true;
                  },
                ),
                true,
              )
        ]

  unfoldable pub remove_callsite_patch : Process → CallsitePatch → (Process × CallsitePatch) × Bool
  remove_callsite_patch p patch =
      if not patch.installed
      then ((p, patch), true)
      else if not (protect patch.address jmp_patch_bytes)
      then ((log_line p callsite_uninstall_protection_failed, patch), false)
      else (
        (
          record p { memory = write_bytes p.memory patch.address patch.original },
          blank_callsite_patch,
        ),
        true,
      )

  -- The memory, where it was written. A copy that faults although VirtualProtect made the region
  -- writable, which the source catches as a structured exception, is not modelled.
  unfoldable pub try_write_bytes : Memory → ℕ → List ℕ → Option Memory
  try_write_bytes memory destination source =
      if destination == 0 || length source == 0
      then none
      else if not (protect destination (length source))
      then none
      else some (write_bytes memory destination source)

  unfoldable pub remove_byte_patch : Process → BytePatch → (Process × BytePatch) × Bool
  remove_byte_patch p patch =
      if not patch.installed
      then ((p, patch), true)
      else elim (try_write_bytes p.memory patch.address (take patch.length patch.original)) [
        | none ↦ ((log_line p byte_patch_restore_failed, patch), false)
        | some memory ↦ ((record p { memory = memory }, blank_byte_patch), true)
      ]

-- `expected` and `replacement` are the bytes at the two pointers, `n` of them.
module _ (readable protect : ℕ → ℕ → Bool) where
  unfoldable pub install_byte_patch :
      Process → ℕ → List ℕ → List ℕ → ℕ → BytePatch → String → (Process × BytePatch) × Bool
  install_byte_patch p address expected replacement n patch label =
      if address == 0 || patch.installed || n == 0 || ltb max_stolen_bytes n
      then ((p, patch), false)
      else if not (readable address n)
      then ((log_line p (byte_patch_read_failed label), patch), false)
      else let live = bytes_at p.memory address n in
        if not (eq_bytes live expected)
        then ((log_line p (byte_patch_validation_failed label expected live address), patch), false)
        else elim (try_write_bytes protect p.memory address replacement) [
          | none ↦ ((log_line p (byte_patch_write_failed label), blank_byte_patch), false)
          | some memory ↦ (
            (
              log_line (record p { memory = memory })
                  (byte_patch_installed label address replacement),
              record {
                address = address;
                original = copy_to_front patch.original expected;
                patch = copy_to_front patch.patch replacement;
                length = n;
                installed = true;
              },
            ),
            true,
          )
        ]
