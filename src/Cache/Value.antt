-- ===== src/Cache/Value.antt =====
-- The number that ParseHexU32 reads.
use eqemu_monomyth_client.Prelude.{
  ℕ, ◌+◌, ◌-◌, ◌*◌, ◌^◌, ◌≤◌, ◌<◌, ◌≡◌, ◌∙◌, sym, inl, inr, true, false, Bool-cases, ltb, ◌==◌,
  ◌||◌, ◌&&◌, not, List, [], ◌∷◌, Option, none, some, Option-cases, bit_or, arith, if◌then◌else◌,
}
use eqemu_monomyth_client.Prelude.Bits.{bit_or_below}
use eqemu_monomyth_client.Cache.Hex.{hex_digit, hex_loop, parse_hex_u32}

-- The place of a character in a table, counted from `from`; `none` if it is not there.
abbrev pub place_from : ℕ → ℕ → List ℕ → Option ℕ
place_from from ch [] = none
place_from from ch (x ∷ table) = if ch == x then some from else place_from (from + 1) ch table

-- "0123456789".
abbrev pub decimal_digits : List ℕ
decimal_digits = 48 ∷ 49 ∷ 50 ∷ 51 ∷ 52 ∷ 53 ∷ 54 ∷ 55 ∷ 56 ∷ 57 ∷ []

-- "abcdef" and "ABCDEF".
abbrev pub lower_digits : List ℕ
lower_digits = 97 ∷ 98 ∷ 99 ∷ 100 ∷ 101 ∷ 102 ∷ []

abbrev pub upper_digits : List ℕ
upper_digits = 65 ∷ 66 ∷ 67 ∷ 68 ∷ 69 ∷ 70 ∷ []

abbrev pub or_else : Option ℕ → Option ℕ → Option ℕ
or_else none other = other
or_else (some v) other = some v

-- The digit that a character writes, by its place in the tables of the digits.
unfoldable pub digit_value : ℕ → Option ℕ
digit_value ch =
    or_else (place_from 0 ch decimal_digits)
      (or_else (place_from 10 ch lower_digits) (place_from 10 ch upper_digits))

-- The value of the digits in base 16, the first the highest; `none` if some character is no digit.
unfoldable pub hex_value : ℕ → List ℕ → Option ℕ
hex_value high [] = some high
hex_value high (ch ∷ rest) = elim (digit_value ch) [
  | none ↦ none
  | some digit ↦ hex_value (high * 16 + digit) rest
]

pub hex_digit-digit_value : (ch : ℕ) → hex_digit ch ≡ digit_value ch
unfolding hex_digit digit_value
hex_digit-digit_value ch = ground arith

-- A value that fits 32 bits.
abbrev pub fitting : Option ℕ → Option ℕ
fitting none = none
fitting (some v) = if ltb (2 ^ 32 - 1) v then none else some v

hex_digit-lt : (ch digit : ℕ) → hex_digit ch ≡ some digit → digit < 16
unfolding hex_digit
hex_digit-lt ch digit h = ground arith

-- Too large a value stays too large.
hex_value-large : (rest : List ℕ) (high : ℕ) → 2 ^ 32 ≤ high → fitting (hex_value high rest) ≡ none
unfolding hex_value
hex_value-large [] high big = ground arith
hex_value-large (ch ∷ rest) high big = elim (Option-cases (digit_value ch)) [
  | inl other ↦ rw (other, hex_value)
  | inr (digit, good) ↦
      rw (good, hex_value) (hex_value-large rest (high * 16 + digit) (omega arith))
]

hex_loop-fitting :
    (rest : List ℕ) (high : ℕ) → high < 2 ^ 32 → hex_loop high rest ≡ fitting (hex_value high rest)
unfolding hex_loop hex_value
hex_loop-fitting [] high small = ground arith
hex_loop-fitting (ch ∷ rest) high small = elim (Option-cases (hex_digit ch)) [
  | inl other ↦
      let none_there = sym (hex_digit-digit_value ch) ∙ other in
      rw (other, none_there, hex_loop, hex_value)
  | inr (digit, good) ↦
      let joined : bit_or (high * 2 ^ 4) digit ≡ high * 16 + digit =
        bit_or_below 4 digit high (hex_digit-lt ch digit good) in
      let read = sym (hex_digit-digit_value ch) ∙ good in
      rw (good, read, hex_loop, hex_value, joined)
        (elim (Bool-cases (ltb (2 ^ 32 - 1) (high * 16 + digit))) [
          | inl large ↦
              rw large (sym (hex_value-large rest (high * 16 + digit) (ground (arith, large))))
          | inr fits ↦ rw fits (hex_loop-fitting rest (high * 16 + digit) (ground (arith, fits)))
        ])
]

-- A text of "0x", in either case of the letter, and at least one more character is parsed to the
-- value of those characters in base 16, each digit being its place in 0123456789abcdef in either
-- case, if all are hexadecimal digits and the value fits 32 bits, and refused otherwise, whatever
-- the number of leading zeros.
pub parse_hex_u32-fitting :
    (x digit : ℕ) (rest : List ℕ)
    → (x == b'x' || x == b'X') ≡ true
    → parse_hex_u32 (b'0' ∷ x ∷ digit ∷ rest) ≡ fitting (hex_value 0 (digit ∷ rest))
unfolding parse_hex_u32
parse_hex_u32-fitting x digit rest letter =
    let taken : (not (x == b'x') && not (x == b'X')) ≡ false = ground arith in
    rw taken (hex_loop-fitting (digit ∷ rest) 0 (omega arith))
