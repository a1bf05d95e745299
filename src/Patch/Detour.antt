-- ===== src/Patch/Detour.antt =====
-- InstallInlineDetour, InstallValidatedInlineDetour and RemoveInlineDetour. What the system
-- answers is a parameter: the address that VirtualAlloc gives for a size, and whether
-- VirtualProtect makes a region writable. The logger's output is the list of its lines.
use Prim.Native.String.{String}
use eqemu_monomyth_client.Prelude.{
  ℕ, zero, suc, ◌+◌, ◌-◌, Bool, true, false, not, ltb, ◌==◌, ◌||◌, List, [], ◌∷◌, ◌++◌, Option,
  none, some, select, replicate, take, length, if◌then◌else◌,
}
use eqemu_monomyth_client.Wire.Bytes.{Memory, bytes_at}
use eqemu_monomyth_client.Patch.Jump.{
  jmp_patch_bytes, max_stolen_bytes, shifted, build_relative_jump,
}
use eqemu_monomyth_client.Patch.Decode.{calculate_patch_length}
use eqemu_monomyth_client.Patch.Memory.{write_bytes}

pub data LogLine : Type 0 where
  prologue_unsupported trampoline_allocation_failed : String → LogLine
  trampoline_jump_out_of_range target_jump_out_of_range : String → LogLine
  target_memory_protection_failed : String → LogLine
  uninstall_protection_failed : LogLine
  callsite_validation_failed callsite_out_of_range callsite_protection_failed : String → LogLine
  callsite_hook_installed : String → ℕ → ℕ → ℕ → LogLine
  callsite_uninstall_protection_failed : LogLine
  byte_patch_read_failed byte_patch_write_failed : String → LogLine
  byte_patch_validation_failed : String → List ℕ → List ℕ → ℕ → LogLine
  byte_patch_installed : String → ℕ → List ℕ → LogLine
  byte_patch_restore_failed : LogLine

-- The client's memory, the regions that VirtualAlloc gave and that are not freed, and the log.
pub record Process : Type 0 where
  pub memory : Memory
  pub allocations : List ℕ
  pub log : List LogLine

-- An array is a list of its length.
pub record InlineDetour : Type 0 where
  pub target : ℕ
  pub hook : ℕ
  pub trampoline : ℕ
  pub patch_length : ℕ
  pub original : List ℕ
  pub patch : List ℕ
  pub installed : Bool

abbrev pub blank_detour : InlineDetour
blank_detour = record {
  target = 0;
  hook = 0;
  trampoline = 0;
  patch_length = 0;
  original = replicate max_stolen_bytes 0;
  patch = replicate jmp_patch_bytes 0;
  installed = false;
}

-- What a call leaves: the process, the detour, the pointer to the original, and its result.
pub record Outcome : Type 0 where
  pub process : Process
  pub detour : InlineDetour
  pub original_out : ℕ
  pub done : Bool

-- A call that fails: the process with what it logged, and the rest as it was.
abbrev pub refused : Process → InlineDetour → ℕ → Outcome
refused p detour original_out = record {
  process = p;
  detour = detour;
  original_out = original_out;
  done = false;
}

abbrev pub drop : ℕ → List ℕ → List ℕ
drop zero xs = xs
drop (suc n) [] = []
drop (suc n) (x ∷ xs) = drop n xs

-- `std::memcpy` to the front of an array.
abbrev pub copy_to_front : List ℕ → List ℕ → List ℕ
copy_to_front array bytes = bytes ++ drop (length bytes) array

abbrev pub log_line : Process → LogLine → Process
log_line p line = record p { log = line ∷ p.log }

-- `VirtualFree(…, MEM_RELEASE)`.
abbrev pub free : Process → ℕ → Process
free p address = record p { allocations = select (λ a. not (a == address)) p.allocations }

-- The trampoline: the bytes that the patch overwrites, then the jump behind them.
abbrev pub write_trampoline : Memory → ℕ → ℕ → ℕ → List ℕ → Memory
write_trampoline m trampoline target patch_length jump =
    write_bytes (write_bytes m trampoline (bytes_at m target patch_length))
      (trampoline + patch_length) jump

-- The jump to the hook, then 0x90 up to the patch's length.
abbrev pub write_patch : Memory → ℕ → ℕ → List ℕ → Memory
write_patch m target patch_length jump =
    write_bytes m target (jump ++ replicate (patch_length - jmp_patch_bytes) 0x90)

module _ (alloc : ℕ → Option ℕ) (protect : ℕ → ℕ → Bool) where
  -- The steps behind the trampoline's two jumps.
  unfoldable pub write_detour :
      Process → ℕ → ℕ → ℕ → ℕ → List ℕ → List ℕ → InlineDetour → String → Outcome
  write_detour p target hook patch_length trampoline trampoline_jump target_jump detour label =
      let m = write_trampoline p.memory trampoline target patch_length trampoline_jump in
      if not (protect target patch_length)
      then record {
        process =
            log_line (free (record p { memory = m }) trampoline)
              (target_memory_protection_failed label);
        detour = detour;
        original_out = 0;
        done = false;
      }
      else record {
        process = record p { memory = write_patch m target patch_length target_jump };
        detour = record {
          target = target;
          hook = hook;
          trampoline = trampoline;
          patch_length = patch_length;
          original = copy_to_front detour.original (bytes_at m target patch_length);
          patch = target_jump;
          installed = true;
        };
        original_out = trampoline;
        done = true;
      }

  -- The steps that both functions share, from the allocation of the trampoline on.
  unfoldable pub place_detour : Process → ℕ → ℕ → ℕ → InlineDetour → ℕ → String → Outcome
  place_detour p target hook patch_length detour original_out label =
      elim (alloc (patch_length + jmp_patch_bytes)) [
        | none ↦ refused (log_line p (trampoline_allocation_failed label)) detour original_out
        | some trampoline ↦
            let allocated = record p { allocations = trampoline ∷ p.allocations } in
            elim (build_relative_jump (trampoline + patch_length) (target + patch_length)) [
              | none ↦
                  refused
                    (log_line (free allocated trampoline) (trampoline_jump_out_of_range label))
                    detour original_out
              | some trampoline_jump ↦ elim (build_relative_jump target hook) [
                | none ↦
                    refused (log_line (free allocated trampoline) (target_jump_out_of_range label))
                      detour original_out
                | some target_jump ↦
                    write_detour allocated target hook patch_length trampoline trampoline_jump
                      target_jump detour label
              ]
            ]
      ]

  unfoldable pub install_inline_detour : Process → ℕ → ℕ → InlineDetour → ℕ → String → Outcome
  install_inline_detour p target hook detour original_out label =
      if target == 0 || hook == 0 || detour.installed
      then refused p detour original_out
      else elim (calculate_patch_length (shifted p.memory target)) [
        | none ↦ refused (log_line p (prologue_unsupported label)) detour original_out
        | some patch_length ↦ place_detour p target hook patch_length detour original_out label
      ]

  unfoldable pub install_validated_inline_detour :
      Process → ℕ → ℕ → ℕ → InlineDetour → ℕ → String → Outcome
  install_validated_inline_detour p target hook patch_length detour original_out label =
      if target == 0
        || hook == 0
        || detour.installed
        || ltb patch_length jmp_patch_bytes
        || ltb max_stolen_bytes patch_length
      then refused p detour original_out
      else place_detour p target hook patch_length detour original_out label

module _ (protect : ℕ → ℕ → Bool) where
  -- The process, the detour and the result.
  unfoldable pub remove_inline_detour : Process → InlineDetour → (Process × InlineDetour) × Bool
  remove_inline_detour p detour =
      if not detour.installed
      then ((p, detour), true)
      else if not (protect detour.target detour.patch_length)
      then ((log_line p uninstall_protection_failed, detour), false)
      else let restored = record p {
        memory = write_bytes p.memory detour.target (take detour.patch_length detour.original);
      } in
        (
          (
            if detour.trampoline == 0 then restored else free restored detour.trampoline,
            blank_detour,
          ),
          true,
        )
