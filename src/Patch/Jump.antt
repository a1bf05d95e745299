-- ===== src/Patch/Jump.antt =====
-- BuildRelativeJump and BuildRelativeCall, and the functions that read such code back. An address
-- is a 32-bit word, the null pointer is 0; `Pages` is memory that may fault.
use eqemu_monomyth_client.Prelude.{
  ℕ, zero, suc, ◌+◌, ◌-◌, ◌%◌, ◌^◌, Bool, true, false, not, ltb, leb, ◌==◌, ◌!=◌, ◌||◌, List, [],
  ◌∷◌, Option, none, some, ◌>>=◌, get_or, take, eq_bytes, if◌then◌else◌,
}
use eqemu_monomyth_client.Prelude.Int.{ℤ, pos, negsuc}
use eqemu_monomyth_client.Wire.Bytes.{Memory, word_at}
use eqemu_monomyth_client.Wire.Layout.{word_bytes}
use eqemu_monomyth_client.AuthStats.Read.{Pages, safe_copy}

abbrev pub jmp_patch_bytes : ℕ
jmp_patch_bytes = 5

abbrev pub max_stolen_bytes : ℕ
max_stolen_bytes = 16

-- `target + offset`.
abbrev pub shifted : Memory → ℕ → Memory
shifted target offset i = target (offset + i)

-- `a - b` in 64 bits with a sign.
abbrev pub difference : ℕ → ℕ → ℤ
difference a b = if leb b a then pos (a - b) else negsuc (b - a - 1)

unfoldable pub relative_offset_fits : ℤ → Bool
relative_offset_fits (pos n) = leb n (2 ^ 31 - 1)
relative_offset_fits (negsuc n) = leb n (2 ^ 31 - 1)

-- The bits of a `std::int32_t`.
abbrev pub int32_bits : ℤ → ℕ
int32_bits (pos n) = n
int32_bits (negsuc n) = 2 ^ 32 - 1 - n

unfoldable pub build_relative_jump : ℕ → ℕ → Option (List ℕ)
build_relative_jump patch_site destination =
    if patch_site == 0 || destination == 0
    then none
    else let relative = difference destination (patch_site + jmp_patch_bytes) in
      if not (relative_offset_fits relative)
      then none
      else some (0xe9 ∷ word_bytes (int32_bits relative))

unfoldable pub build_relative_call : ℕ → ℕ → Option (List ℕ)
build_relative_call patch_site destination =
    if patch_site == 0 || destination == 0
    then none
    else let relative = difference destination (patch_site + jmp_patch_bytes) in
      if not (relative_offset_fits relative)
      then none
      else some (0xe8 ∷ word_bytes (int32_bits relative))

pub record RelativeCallResolution : Type 0 where
  pub call_site : ℕ
  pub target : ℕ
  pub resolved : Bool

-- The code's bytes count from its pointer; the sum of the address wraps.
unfoldable pub resolve_relative_call : Memory → ℕ → ℕ → RelativeCallResolution
resolve_relative_call code available instruction_address =
    if ltb available 5 || code 0 != 0xe8 || instruction_address == 0
    then record { call_site = instruction_address; target = 0; resolved = false }
    else record {
      call_site = instruction_address;
      target = (instruction_address + 5 + word_at code 1) % 2 ^ 32;
      resolved = true;
    }

-- TryCopyBytes.
unfoldable pub try_copy_bytes : Pages → ℕ → ℕ → Option (List ℕ)
try_copy_bytes pages source length =
    if source == 0 || length == 0 then none else safe_copy pages source length

-- A word in a list of bytes.
abbrev pub word_in : List ℕ → ℕ → ℕ
word_in bytes = word_at (λ i. get_or bytes i 0)

unfoldable pub try_resolve_relative_jump_target : Pages → ℕ → Option ℕ
try_resolve_relative_jump_target pages instruction_address =
    if instruction_address == 0 then none else do
      bytes ← try_copy_bytes pages instruction_address 5
      if get_or bytes 0 0 != 0xe9
          then none
          else some ((instruction_address + 5 + word_in bytes 1) % 2 ^ 32)

pub record JumpThunkResolution : Type 0 where
  pub terminal_target : ℕ
  pub hop_count : ℕ
  pub resolved : Bool

-- The first seven bytes of the prefix, which are compared.
abbrev pub hotpatch_jump_thunk_prefix : List ℕ
hotpatch_jump_thunk_prefix = 0x8b ∷ 0xff ∷ 0x55 ∷ 0x8b ∷ 0xec ∷ 0x5d ∷ 0xe9 ∷ []

-- The loop with `left` hops to go; the hop that comes is `hop`.
unfoldable pub resolve_hops : Pages → ℕ → ℕ → ℕ → JumpThunkResolution → JumpThunkResolution
resolve_hops pages zero hop current resolution = resolution
resolve_hops pages (suc left) hop current resolution = elim (try_copy_bytes pages current 8) [
  | none ↦ resolution
  | some bytes ↦
      if not (eq_bytes (take 7 bytes) hotpatch_jump_thunk_prefix) || get_or bytes 6 0 != 0xe9
      then if ltb 0 hop
        then record { terminal_target = current; hop_count = hop; resolved = true }
        else resolution
      else elim (try_resolve_relative_jump_target pages ((current + 6) % 2 ^ 32)) [
        | none ↦ resolution
        | some jump_target ↦
            resolve_hops pages left (hop + 1) jump_target
              (record { terminal_target = jump_target; hop_count = hop + 1; resolved = true })
      ]
]

abbrev pub unresolved_thunk : JumpThunkResolution
unresolved_thunk = record { terminal_target = 0; hop_count = 0; resolved = false }

unfoldable pub resolve_jump_thunk_target : Pages → ℕ → JumpThunkResolution
resolve_jump_thunk_target pages target_address =
    if target_address == 0
    then unresolved_thunk
    else resolve_hops pages 2 0 target_address unresolved_thunk
