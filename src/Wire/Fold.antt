-- ===== src/Wire/Fold.antt =====
-- Names that are the same but for the case of their letters, and what `normalize_name` makes of
-- them.
use eqemu_monomyth_client.Prelude.{
  ℕ, ◌+◌, ◌≤◌, ◌<◌, ◌≡◌, ◌⊎◌, refl, inl, inr, Bool-cases, List, [], ◌∷◌, All, ◌==◌, arith,
}
use eqemu_monomyth_client.Wire.Names.{tolower, normalize_name}

-- A capital and its small letter, which stands 32 places behind it.
abbrev pub CapitalOf : ℕ → ℕ → Type 0
CapitalOf a b = (65 ≤ a) × (a ≤ 90) × (b ≡ a + 32)

-- One byte but for the case of a letter from A to Z.
abbrev pub SameLetter : ℕ → ℕ → Type 0
SameLetter a b = (a ≡ b) ⊎ (CapitalOf a b ⊎ CapitalOf b a)

-- The same name but for the case of its letters.
abbrev pub EqualFold : List ℕ → List ℕ → Type 0
EqualFold [] [] = Unit {0}
EqualFold [] (b ∷ bs) = ⊥
EqualFold (a ∷ as') [] = ⊥
EqualFold (a ∷ as') (b ∷ bs) = SameLetter a b × EqualFold as' bs

-- No capital letter.
abbrev pub NoUpper : List ℕ → Type 0
NoUpper = All (λ c. (c < 65) ⊎ (90 < c))

tolower-NoUpper : (c : ℕ) → (tolower c < 65) ⊎ (90 < tolower c)
tolower-NoUpper c = ground arith

pub normalize_name-NoUpper : (xs : List ℕ) → NoUpper (normalize_name xs)
unfolding normalize_name
normalize_name-NoUpper [] = tt
normalize_name-NoUpper (x ∷ xs) = elim (Bool-cases (x == 0)) [
  | inl ends ↦ rw ends tt
  | inr goes ↦ rw goes (tolower-NoUpper x, normalize_name-NoUpper xs)
]

-- Names without a capital letter are the same as they stand.
pub EqualFold-NoUpper : (xs ys : List ℕ) → NoUpper xs → NoUpper ys → EqualFold xs ys → xs ≡ ys
EqualFold-NoUpper [] [] hx hy e = refl
EqualFold-NoUpper [] (y ∷ ys) hx hy e = absurd e
EqualFold-NoUpper (x ∷ xs) [] hx hy e = absurd e
EqualFold-NoUpper (x ∷ xs) (y ∷ ys) hx hy e =
    let tail = EqualFold-NoUpper xs ys hx.1 hy.1 e.1 in
    let lx = hx.0 in
    let ly = hy.0 in let letter = e.0 in let head : x ≡ y = ground (arith, lx, ly, letter) in cc

tolower-SameLetter : (a b : ℕ) → SameLetter a b → tolower a ≡ tolower b
tolower-SameLetter a b h = ground (arith, h)

-- The normalised forms of one name in two cases are equal.
pub normalize_name-EqualFold :
    (xs ys : List ℕ) → EqualFold xs ys → normalize_name xs ≡ normalize_name ys
unfolding normalize_name
normalize_name-EqualFold [] [] e = refl
normalize_name-EqualFold [] (y ∷ ys) e = absurd e
normalize_name-EqualFold (x ∷ xs) [] e = absurd e
normalize_name-EqualFold (x ∷ xs) (y ∷ ys) e =
    let tail = normalize_name-EqualFold xs ys e.1 in
    let head = tolower-SameLetter x y e.0 in
    let letter = e.0 in
    let ends : (x == 0) ≡ (y == 0) = ground (arith, letter) in rw (ends, head, tail) refl
