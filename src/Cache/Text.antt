-- ===== src/Cache/Text.antt =====
-- What the parser of the cache file makes of the text that its writer makes: lines, fields and
-- numbers.
use eqemu_monomyth_client.Prelude.{
  ℕ, ◌+◌, ◌-◌, ◌*◌, ◌/◌, ◌%◌, ◌^◌, ◌≤◌, ◌<◌, ◌≡◌, ◌≢◌, ◌∙◌, refl, sym, ap, false, ltb, ◌==◌, List,
  [], ◌∷◌, ◌++◌, some, All, arith,
}
use eqemu_monomyth_client.Cache.Hex.{hex_digit, parse_hex_u32}
use eqemu_monomyth_client.Cache.Value.{
  hex_value, hex_digit-digit_value, fitting, parse_hex_u32-fitting,
}
use eqemu_monomyth_client.Cache.Lines.{
  lines_of, strip_return, cut, atoi_digits, positive_atoi, native_class_of,
}
use eqemu_monomyth_client.Cache.Store.{hex_char, hex_text, dec_text}

-- No byte of the text is this one.
abbrev pub Without : ℕ → List ℕ → Type 0
Without c s = All (λ b. b ≢ c) s

pub Without-append : (c : ℕ) (xs ys : List ℕ) → Without c xs → Without c ys → Without c (xs ++ ys)
Without-append c [] ys h k = k
Without-append c (x ∷ xs) ys h k = (h.0, Without-append c xs ys h.1 k)

module _ {ℓ} {A : Type ℓ} where
  pub append-nil : (xs : List A) → xs ++ [] ≡ xs
  append-nil [] = refl
  append-nil (x ∷ xs) = ap (◌∷◌ x) (append-nil xs)

  pub append_assoc : (xs ys zs : List A) → (xs ++ ys) ++ zs ≡ xs ++ (ys ++ zs)
  append_assoc [] ys zs = refl
  append_assoc (x ∷ xs) ys zs = ap (◌∷◌ x) (append_assoc xs ys zs)

-- A line without a newline is cut off at the newline behind it.
pub lines_of-line :
    (current line rest : List ℕ)
    → Without 10 line
    → lines_of current (line ++ 10 ∷ rest) ≡ (current ++ line) ∷ lines_of [] rest
unfolding lines_of
lines_of-line current [] rest h = ap (λ l. l ∷ lines_of [] rest) (sym (append-nil current))
lines_of-line current (ch ∷ line) rest h =
    let other : (ch == 10) ≡ false = ground (arith, h.0) in
    simp (other) (
      lines_of-line (current ++ ch ∷ []) line rest h.1
      ∙ ap (λ l. l ∷ lines_of [] rest) (append_assoc current (ch ∷ []) line))

pub strip_return-append : (line : List ℕ) → strip_return (line ++ 13 ∷ []) ≡ line
unfolding strip_return
strip_return-append [] = refl
strip_return-append (ch ∷ []) = refl
strip_return-append (ch ∷ next ∷ rest) = ap (◌∷◌ ch) (strip_return-append (next ∷ rest))

pub cut-append :
    (before behind : List ℕ)
    → Without b'|' before
    → cut (before ++ b'|' ∷ behind) ≡ some (before, behind)
unfolding cut
cut-append [] behind h = refl
cut-append (ch ∷ before) behind h =
    let other : (ch == b'|') ≡ false = ground (arith, h.0) in
    simp (other, cut-append before behind h.1)

hex_digit-hex_char : (digit : ℕ) → digit < 16 → hex_digit (hex_char digit) ≡ some digit
unfolding hex_digit
hex_digit-hex_char digit h = ground (arith, h)

-- The digit that is read adds the lowest digit of a number.
hex_value-digit :
    (v : ℕ) (rest : List ℕ) → hex_value (v / 16) (hex_char (v % 16) ∷ rest) ≡ hex_value v rest
unfolding hex_value
hex_value-digit v rest =
    let read =
      sym (hex_digit-digit_value (hex_char (v % 16))) ∙ hex_digit-hex_char (v % 16) (omega arith) in
    let whole : v / 16 * 16 + v % 16 ≡ v = omega arith in rw (read, hex_value, whole)

hex_value-place :
    (v high low : ℕ) (rest : List ℕ)
    → high ≡ low / 16
    → hex_value high (hex_char (low % 16) ∷ rest) ≡ hex_value low rest
hex_value-place v high low rest e =
    ap (λ h. hex_value h (hex_char (low % 16) ∷ rest)) e ∙ hex_value-digit low rest

pub hex_value-hex_text : (v : ℕ) → v < 2 ^ 32 → hex_value 0 (hex_text 8 v) ≡ some v
unfolding hex_text hex_value
hex_value-hex_text v h =
    hex_value-place v 0 (v / 16 ^ 7) (hex_text 7 v) (omega (arith, h))
    ∙ hex_value-place v (v / 16 ^ 7) (v / 16 ^ 6) (hex_text 6 v) (omega arith)
    ∙ hex_value-place v (v / 16 ^ 6) (v / 16 ^ 5) (hex_text 5 v) (omega arith)
    ∙ hex_value-place v (v / 16 ^ 5) (v / 16 ^ 4) (hex_text 4 v) (omega arith)
    ∙ hex_value-place v (v / 16 ^ 4) (v / 16 ^ 3) (hex_text 3 v) (omega arith)
    ∙ hex_value-place v (v / 16 ^ 3) (v / 16 ^ 2) (hex_text 2 v) (omega arith)
    ∙ hex_value-place v (v / 16 ^ 2) (v / 16 ^ 1) (hex_text 1 v) (omega arith)
    ∙ hex_value-place v (v / 16 ^ 1) (v / 16 ^ 0) (hex_text 0 v) (omega arith)
    ∙ (let e : v / 16 ^ 0 ≡ v = omega arith in ap some e)

pub parse_hex_u32-hex_text :
    (v : ℕ) → v < 2 ^ 32 → parse_hex_u32 (b'0' ∷ b'x' ∷ hex_text 8 v) ≡ some v
unfolding hex_text
parse_hex_u32-hex_text v h =
    let small : ltb (2 ^ 32 - 1) v ≡ false = ground (arith, h) in
    parse_hex_u32-fitting b'x' (hex_char (v / 16 ^ 7 % 16)) (hex_text 7 v) refl
    ∙ ap fitting (hex_value-hex_text v h)
    ∙ (rw small refl)

-- The class id that is written is read back.
pub native_class_of-dec_text : (n : ℕ) → 1 ≤ n → n ≤ 255 → native_class_of (dec_text n) ≡ some n
unfolding native_class_of positive_atoi atoi_digits
native_class_of-dec_text n low high = ground (arith, low, high)
