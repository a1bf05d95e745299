-- ===== src/AuthStats/Read.antt =====
-- SafeCopy, ReadU32Le and ReadU64Le. Memory may fault: SafeCopy turns an access violation into
-- the result false, which is `none` here, as it does under the client's compiler.
use eqemu_monomyth_client.Prelude.{
  ℕ, zero, suc, ◌+◌, ◌-◌, ◌*◌, ◌^◌, bit_or, ltb, ◌==◌, ◌||◌, List, [], ◌∷◌, Option, none, some,
  ◌>>=◌, get_or, if◌then◌else◌,
}

-- The byte at each offset from the payload's pointer, `none` where the access faults.
abbrev pub Pages : Type 0
Pages = ℕ → Option ℕ

unfoldable pub copy_bytes : Pages → ℕ → ℕ → Option (List ℕ)
copy_bytes source offset zero = some []
copy_bytes source offset (suc length) = do
  b ← source offset
  bs ← copy_bytes source (offset + 1) length
  some (b ∷ bs)

unfoldable pub safe_copy : Pages → ℕ → ℕ → Option (List ℕ)
safe_copy source offset length = if length == 0 then none else copy_bytes source offset length

unfoldable pub read_u32_le : Pages → ℕ → ℕ → Option ℕ
read_u32_le payload payload_length offset =
    if ltb payload_length offset || ltb (payload_length - offset) 4 then none else do
      bytes ← safe_copy payload offset 4
      some (
          bit_or
            (bit_or (bit_or (get_or bytes 0 0) (get_or bytes 1 0 * 2 ^ 8))
              (get_or bytes 2 0 * 2 ^ 16))
            (get_or bytes 3 0 * 2 ^ 24))

-- `parsed |= bytes[i] << (i * 8)`, from `i` on.
unfoldable pub or_bytes : ℕ → List ℕ → ℕ → ℕ
or_bytes i [] parsed = parsed
or_bytes i (b ∷ bs) parsed = or_bytes (i + 1) bs (bit_or parsed (b * 2 ^ (i * 8)))

unfoldable pub read_u64_le : Pages → ℕ → ℕ → Option ℕ
read_u64_le payload payload_length offset =
    if ltb payload_length offset || ltb (payload_length - offset) 8
    then none
    else do bytes ← safe_copy payload offset 8; some (or_bytes 0 bytes 0)
