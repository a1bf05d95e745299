-- ===== src/Cache/Hex.antt =====
-- ParseHexU32. A failure is `none`.
use eqemu_monomyth_client.Prelude.{
  ℕ, ◌+◌, ◌-◌, ◌*◌, ◌^◌, ltb, leb, ◌==◌, ◌||◌, ◌&&◌, not, List, [], ◌∷◌, Option, none, some, bit_or,
  if◌then◌else◌,
}

unfoldable pub hex_digit : ℕ → Option ℕ
hex_digit ch =
    if leb b'0' ch && leb ch b'9'
    then some (ch - b'0')
    else if leb b'a' ch && leb ch b'f'
    then some (10 + (ch - b'a'))
    else if leb b'A' ch && leb ch b'F'
    then some (10 + (ch - b'A'))
    else none

-- The loop over the characters behind the prefix.
unfoldable pub hex_loop : ℕ → List ℕ → Option ℕ
hex_loop result [] = some result
hex_loop result (ch ∷ rest) = elim (hex_digit ch) [
  | none ↦ none
  | some digit ↦
      let later = hex_loop (bit_or (result * 2 ^ 4) digit) rest in
      if ltb (2 ^ 32 - 1) (bit_or (result * 2 ^ 4) digit) then none else later
]

unfoldable pub parse_hex_u32 : List ℕ → Option ℕ
parse_hex_u32 (c0 ∷ c1 ∷ digit ∷ rest) =
    if not (c0 == b'0') || not (c1 == b'x') && not (c1 == b'X')
    then none
    else hex_loop 0 (digit ∷ rest)
parse_hex_u32 _ = none
