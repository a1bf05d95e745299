-- ===== src/Wire/Layout.antt =====
-- Payloads by their content: bytes laid out in memory, words and C strings as their senders
-- write them, and two memories that agree up to a length.
use mathlib.Core.Path.{ap₂, subst}
use native.Mathlib.Nat.{add-zero}
use eqemu_monomyth_client.Prelude.{
  ℕ, zero, suc, ◌+◌, ◌/◌, ◌%◌, ◌^◌, ◌≤◌, ◌<◌, ◌≡◌, ◌≢◌, ◌∙◌, refl, ap, List, [], ◌∷◌, get_or, ◌++◌,
  length, All, arith,
}
use eqemu_monomyth_client.Wire.Bytes.{Memory, word_at, text_end, bytes_at}

-- The memory holds these bytes from the offset on.
abbrev pub Lays : Memory → ℕ → List ℕ → Type 0
Lays m c [] = Unit {0}
Lays m c (b ∷ bs) = (m c ≡ b) × Lays m (c + 1) bs

pub Lays-append_left : (m : Memory) (c : ℕ) (xs ys : List ℕ) → Lays m c (xs ++ ys) → Lays m c xs
Lays-append_left m c [] ys h = tt
Lays-append_left m c (x ∷ xs) ys h = (h.0, Lays-append_left m (c + 1) xs ys h.1)

pub Lays-append_right :
    (m : Memory) (c : ℕ) (xs ys : List ℕ) → Lays m c (xs ++ ys) → Lays m (c + length xs) ys
Lays-append_right m c [] ys h = rw add-zero h
Lays-append_right m c (x ∷ xs) ys h =
    let e : c + 1 + length xs ≡ c + suc (length xs) = omega arith in
    subst (λ k. Lays m k ys) e (Lays-append_right m (c + 1) xs ys h.1)

-- The four bytes of a 32-bit word, lowest first.
abbrev pub word_bytes : ℕ → List ℕ
word_bytes v = v % 256 ∷ v / 2 ^ 8 % 256 ∷ v / 2 ^ 16 % 256 ∷ v / 2 ^ 24 % 256 ∷ []

-- A text, and the 0 that ends it.
abbrev pub text_bytes : List ℕ → List ℕ
text_bytes s = s ++ 0 ∷ []

-- No byte of a C string is 0.
abbrev pub IsText : List ℕ → Type 0
IsText s = All (λ b. b ≢ 0) s

pub word_at-word_bytes :
    (m : Memory) (c v : ℕ) → v < 2 ^ 32 → Lays m c (word_bytes v) → word_at m c ≡ v
word_at-word_bytes m c v lt h =
    let e2 : c + 1 + 1 ≡ c + 2 = omega arith in
    let e3 : c + 1 + 1 + 1 ≡ c + 3 = omega arith in
    omega (arith, h.0, h.1.0, ap m e2, h.1.1.0, ap m e3, h.1.1.1.0)

pub text_end-text_bytes :
    (m : Memory) (left c : ℕ) (s : List ℕ)
    → IsText s
    → length s < left
    → Lays m c (text_bytes s)
    → text_end m left c ≡ c + length s
unfolding text_end
text_end-text_bytes m zero c s h lt lays = absurd (omega arith)
text_end-text_bytes m (suc left) c [] h lt lays = ground arith
text_end-text_bytes m (suc left) c (b ∷ s) h lt lays =
    ground (arith, text_end-text_bytes m left (c + 1) s h.1 (omega arith) lays.1)

pub bytes_at-Lays : (m : Memory) (c : ℕ) (s : List ℕ) → Lays m c s → bytes_at m c (length s) ≡ s
unfolding bytes_at
bytes_at-Lays m c [] h = refl
bytes_at-Lays m c (b ∷ s) h = ap₂ ◌∷◌ h.0 (bytes_at-Lays m (c + 1) s h.1)

-- Two memories that agree on the first `n` bytes.
abbrev pub SameBelow : ℕ → Memory → Memory → Type 0
SameBelow n m m' = (i : ℕ) → i < n → m i ≡ m' i

pub text_end-SameBelow :
    (n : ℕ) (m m' : Memory) (left c : ℕ)
    → SameBelow n m m'
    → c + left ≤ n
    → text_end m left c ≡ text_end m' left c
unfolding text_end
text_end-SameBelow n m m' zero c same h = refl
text_end-SameBelow n m m' (suc left) c same h =
    rw (same c (omega arith), text_end-SameBelow n m m' left (c + 1) same (omega arith))

pub text_end-le : (m : Memory) (left c : ℕ) → text_end m left c ≤ c + left
unfolding text_end
text_end-le m zero c = omega arith
text_end-le m (suc left) c = ground (arith, text_end-le m left (c + 1))

pub text_end-ge : (m : Memory) (left c : ℕ) → c ≤ text_end m left c
unfolding text_end
text_end-ge m zero c = omega arith
text_end-ge m (suc left) c = ground (arith, text_end-ge m left (c + 1))

pub bytes_at-SameBelow :
    (n : ℕ) (m m' : Memory) (c k : ℕ)
    → SameBelow n m m'
    → c + k ≤ n
    → bytes_at m c k ≡ bytes_at m' c k
unfolding bytes_at
bytes_at-SameBelow n m m' c zero same h = refl
bytes_at-SameBelow n m m' c (suc k) same h =
    ap₂ ◌∷◌ (same c (omega arith)) (bytes_at-SameBelow n m m' (c + 1) k same (omega arith))

pub word_at-SameBelow :
    (n : ℕ) (m m' : Memory) (c : ℕ) → SameBelow n m m' → c + 4 ≤ n → word_at m c ≡ word_at m' c
word_at-SameBelow n m m' c same h = omega (
  arith,
  same c (omega arith),
  same (c + 1) (omega arith),
  same (c + 2) (omega arith),
  same (c + 3) (omega arith),
)

Lays-shift :
    (m m' : Memory) (c : ℕ) (bs : List ℕ)
    → ((i : ℕ) → m (i + 1) ≡ m' i)
    → Lays m' c bs
    → Lays m (c + 1) bs
Lays-shift m m' c [] h lays = tt
Lays-shift m m' c (b ∷ bs) h lays = (h c ∙ lays.0, Lays-shift m m' (c + 1) bs h lays.1)

-- A list of bytes as memory holds itself.
pub Lays-get_or : (bs : List ℕ) → Lays (λ i. get_or bs i 0) 0 bs
Lays-get_or [] = tt
Lays-get_or (b ∷ bs) = (
  refl,
  Lays-shift (λ i. get_or (b ∷ bs) i 0) (λ i. get_or bs i 0) 0 bs
      (λ i. let e : i + 1 ≡ suc i = omega arith in ap (λ j. get_or (b ∷ bs) j 0) e)
      (Lays-get_or bs),
)
