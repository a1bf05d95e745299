-- ===== src/Patch/Decode.antt =====
-- DecodeModRmInstructionLength, DecodeSupportedInstructionLength and CalculatePatchLength. `code i`
-- is the byte at `code + i`; the fields of a byte are taken by `/` and `%`.
use eqemu_monomyth_client.Prelude.{
  ℕ, zero, suc, ◌+◌, ◌-◌, ◌/◌, ◌%◌, ltb, leb, ◌==◌, ◌!=◌, ◌||◌, ◌&&◌, Option, none, some, ◌>>=◌,
  if◌then◌else◌,
}
use eqemu_monomyth_client.Wire.Bytes.{Memory}
use eqemu_monomyth_client.Patch.Jump.{jmp_patch_bytes, max_stolen_bytes, shifted}

-- The bytes of the opcode, the ModRM byte, the SIB byte and the displacement that goes without
-- a base.
unfoldable pub mod_rm_base_length : Memory → ℕ → Option ℕ
mod_rm_base_length code available =
    let mod_field = code 1 / 64 % 4 in
    let rm = code 1 % 8 in
    if mod_field != 3 && rm == 4
    then if ltb available 3 then none else some (if mod_field == 0 && code 2 % 8 == 5 then 7 else 3)
    else some (if mod_field == 0 && rm == 5 then 6 else 2)

abbrev pub displacement_length : ℕ → ℕ
displacement_length mod_field = if mod_field == 1 then 1 else if mod_field == 2 then 4 else 0

unfoldable pub decode_mod_rm_instruction_length : Memory → ℕ → ℕ → Option ℕ
decode_mod_rm_instruction_length code available immediate_bytes =
    if ltb available 2 then none else do
      base ← mod_rm_base_length code available
      let decoded = base + displacement_length (code 1 / 64 % 4) + immediate_bytes
      if ltb available decoded then none else some decoded

-- An instruction of a fixed length.
abbrev pub fixed_length : ℕ → ℕ → Option ℕ
fixed_length available length = if ltb available length then none else some length

unfoldable pub decode_unprefixed_length : Memory → ℕ → Option ℕ
decode_unprefixed_length code available =
    let opcode = code 0 in
    if leb 0x40 opcode && leb opcode 0x5f || opcode == 0x90
    then some 1
    else if opcode == 0x68
    then fixed_length available 5
    else if opcode == 0xa1 || opcode == 0xa3
    then fixed_length available 5
    else if opcode == 0x6a
    then fixed_length available 2
    else if leb 0xb8 opcode && leb opcode 0xbf
    then fixed_length available 5
    else if opcode == 0x81 || opcode == 0xc7
    then decode_mod_rm_instruction_length code available 4
    else if opcode == 0x83
    then decode_mod_rm_instruction_length code available 1
    else if opcode == 0x31
        || opcode == 0x33
        || opcode == 0x85
        || opcode == 0x89
        || opcode == 0x8b
        || opcode == 0x8d
    then decode_mod_rm_instruction_length code available 0
    else none

unfoldable pub decode_supported_instruction_length : Memory → ℕ → Option ℕ
decode_supported_instruction_length code zero = none
decode_supported_instruction_length code (suc available) =
    let prefixed =
      decode_supported_instruction_length (shifted code 1) available >>= λ n. some (1 + n) in
    if code 0 == 0x64 || code 0 == 0x65
    then if available == 0 then none else prefixed
    else decode_unprefixed_length code (suc available)

-- The loop, in which each round decodes one instruction.
unfoldable pub calculate_loop : ℕ → Memory → ℕ → Option ℕ
calculate_loop zero target decoded = none
calculate_loop (suc fuel) target decoded =
    if leb jmp_patch_bytes decoded
    then some decoded
    else elim (decode_supported_instruction_length (shifted target decoded)
        (max_stolen_bytes - decoded)) [
          | none ↦ none
          | some length ↦
              let more = calculate_loop fuel target (decoded + length) in
              if ltb max_stolen_bytes (decoded + length) then none else more
        ]

-- Six rounds: five instructions of one byte, and the test that ends the loop.
unfoldable pub calculate_patch_length : Memory → Option ℕ
calculate_patch_length target = calculate_loop 6 target 0
