-- ===== src/AuthStats/Words.antt =====
-- Words read back from the bytes that their sender wrote.
use mathlib.Core.Path.{subst}
use native.Mathlib.Nat.{add-zero}
use eqemu_monomyth_client.Prelude.{
  ℕ, suc, ◌+◌, ◌-◌, ◌*◌, ◌/◌, ◌%◌, ◌^◌, ◌≤◌, ◌<◌, ◌≡◌, ◌∙◌, refl, ap, false, ltb, ◌||◌, List, [],
  ◌∷◌, ◌++◌, length, bit_or, some, get_elem?, arith,
}
use eqemu_monomyth_client.Prelude.Bits.{bit_or_above}
use eqemu_monomyth_client.Wire.Layout.{word_bytes}
use eqemu_monomyth_client.AuthStats.Read.{
  Pages, copy_bytes, safe_copy, read_u32_le, or_bytes, read_u64_le,
}

-- These bytes can be read from the offset on.
abbrev pub Lays : Pages → ℕ → List ℕ → Type 0
Lays m c [] = Unit {0}
Lays m c (b ∷ bs) = (m c ≡ some b) × Lays m (c + 1) bs

pub Lays-append_left : (m : Pages) (c : ℕ) (xs ys : List ℕ) → Lays m c (xs ++ ys) → Lays m c xs
Lays-append_left m c [] ys h = tt
Lays-append_left m c (x ∷ xs) ys h = (h.0, Lays-append_left m (c + 1) xs ys h.1)

pub Lays-append_right :
    (m : Pages) (c : ℕ) (xs ys : List ℕ) → Lays m c (xs ++ ys) → Lays m (c + length xs) ys
Lays-append_right m c [] ys h = rw add-zero h
Lays-append_right m c (x ∷ xs) ys h =
    let e : c + 1 + length xs ≡ c + suc (length xs) = omega arith in
    subst (λ k. Lays m k ys) e (Lays-append_right m (c + 1) xs ys h.1)

-- The eight bytes of a 64-bit word, lowest first.
abbrev pub long_bytes : ℕ → List ℕ
long_bytes v =
    v % 256
    ∷ v / 2 ^ 8 % 256
    ∷ v / 2 ^ 16 % 256
    ∷ v / 2 ^ 24 % 256
    ∷ v / 2 ^ 32 % 256
    ∷ v / 2 ^ 40 % 256
    ∷ v / 2 ^ 48 % 256
    ∷ v / 2 ^ 56 % 256
    ∷ []

pub copy_bytes-Lays :
    (m : Pages) (c : ℕ) (bs : List ℕ) → Lays m c bs → copy_bytes m c (length bs) ≡ some bs
unfolding copy_bytes
copy_bytes-Lays m c [] h = refl
copy_bytes-Lays m c (b ∷ bs) h = rw (h.0, copy_bytes-Lays m (c + 1) bs h.1)

-- One more byte of a word, above those that were put together.
module _ (v : ℕ) where
  or_byte0 : bit_or 0 (v % 256 * 1) ≡ v % 2 ^ 8
  or_byte0 = omega (arith, bit_or_above 0 0 (v % 256))

  or_byte1 : bit_or (v % 2 ^ 8) (v / 2 ^ 8 % 256 * 2 ^ 8) ≡ v % 2 ^ 16
  or_byte1 = omega (arith, bit_or_above 8 (v % 2 ^ 8) (v / 2 ^ 8 % 256))

  or_byte2 : bit_or (v % 2 ^ 16) (v / 2 ^ 16 % 256 * 2 ^ 16) ≡ v % 2 ^ 24
  or_byte2 = omega (arith, bit_or_above 16 (v % 2 ^ 16) (v / 2 ^ 16 % 256))

  or_byte3 : bit_or (v % 2 ^ 24) (v / 2 ^ 24 % 256 * 2 ^ 24) ≡ v % 2 ^ 32
  or_byte3 = omega (arith, bit_or_above 24 (v % 2 ^ 24) (v / 2 ^ 24 % 256))

  or_byte4 : bit_or (v % 2 ^ 32) (v / 2 ^ 32 % 256 * 2 ^ 32) ≡ v % 2 ^ 40
  or_byte4 = omega (arith, bit_or_above 32 (v % 2 ^ 32) (v / 2 ^ 32 % 256))

  or_byte5 : bit_or (v % 2 ^ 40) (v / 2 ^ 40 % 256 * 2 ^ 40) ≡ v % 2 ^ 48
  or_byte5 = omega (arith, bit_or_above 40 (v % 2 ^ 40) (v / 2 ^ 40 % 256))

  or_byte6 : bit_or (v % 2 ^ 48) (v / 2 ^ 48 % 256 * 2 ^ 48) ≡ v % 2 ^ 56
  or_byte6 = omega (arith, bit_or_above 48 (v % 2 ^ 48) (v / 2 ^ 48 % 256))

  or_byte7 : bit_or (v % 2 ^ 56) (v / 2 ^ 56 % 256 * 2 ^ 56) ≡ v % 2 ^ 64
  or_byte7 = omega (arith, bit_or_above 56 (v % 2 ^ 56) (v / 2 ^ 56 % 256))

or_word_value :
    (v : ℕ)
    → v < 2 ^ 32
    → bit_or
        (bit_or (bit_or (v % 256) (v / 2 ^ 8 % 256 * 2 ^ 8)) (v / 2 ^ 16 % 256 * 2 ^ 16))
        (v / 2 ^ 24 % 256 * 2 ^ 24)
      ≡ v
or_word_value v lt = rw (or_byte1 v, or_byte2 v, or_byte3 v) (omega arith)

or_long_value : (v : ℕ) → v < 2 ^ 64 → or_bytes 0 (long_bytes v) 0 ≡ v
unfolding or_bytes
or_long_value v lt =
    rw
      (
        or_byte0 v,
        or_byte1 v,
        or_byte2 v,
        or_byte3 v,
        or_byte4 v,
        or_byte5 v,
        or_byte6 v,
        or_byte7 v,
      )
      (omega arith)

pub read_u32_le-word_bytes :
    (m : Pages) (n c v : ℕ)
    → v < 2 ^ 32
    → c + 4 ≤ n
    → Lays m c (word_bytes v)
    → read_u32_le m n c ≡ some v
unfolding read_u32_le safe_copy
read_u32_le-word_bytes m n c v lt fits lays =
    let inside : (ltb n c || ltb (n - c) 4) ≡ false = ground arith in
    rw (inside, copy_bytes-Lays m c (word_bytes v) lays) (ap some (or_word_value v lt))

pub read_u64_le-long_bytes :
    (m : Pages) (n c v : ℕ)
    → v < 2 ^ 64
    → c + 8 ≤ n
    → Lays m c (long_bytes v)
    → read_u64_le m n c ≡ some v
unfolding read_u64_le safe_copy or_bytes
read_u64_le-long_bytes m n c v lt fits lays =
    let inside : (ltb n c || ltb (n - c) 8) ≡ false = ground arith in
    rw (inside, copy_bytes-Lays m c (long_bytes v) lays) (ap some (or_long_value v lt))

Lays-shift :
    (m m' : Pages) (c : ℕ) (bs : List ℕ)
    → ((i : ℕ) → m (i + 1) ≡ m' i)
    → Lays m' c bs
    → Lays m (c + 1) bs
Lays-shift m m' c [] h lays = tt
Lays-shift m m' c (b ∷ bs) h lays = (h c ∙ lays.0, Lays-shift m m' (c + 1) bs h lays.1)

-- A list of bytes as pages of memory, with a fault behind its end, holds itself.
pub Lays-get_elem? : (bs : List ℕ) → Lays (get_elem? bs) 0 bs
Lays-get_elem? [] = tt
Lays-get_elem? (b ∷ bs) = (
  refl,
  Lays-shift (get_elem? (b ∷ bs)) (get_elem? bs) 0 bs
      (λ i. let e : i + 1 ≡ suc i = omega arith in ap (get_elem? (b ∷ bs)) e) (Lays-get_elem? bs),
)
