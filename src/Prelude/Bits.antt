-- ===== src/Prelude/Bits.antt =====
-- `&` on native numbers, digit by digit: what a test of one bit, a mask and an empty
-- intersection say at every width.
use Prim.Native.Nat.{
  ℕ, zero, suc, ◌+◌, ◌-◌, ◌*◌, ◌/◌, ◌%◌, ◌^◌, ◌≤◌, ◌<◌, min, max, bit_and, bit_or, digits,
  bit_and-bitwise, bit_or-bitwise,
}
use mathlib.Core.Path.{◌≡◌, refl, sym, ap, ◌∙◌}
use mathlib.Core.Logic.{◌≢◌}
use mathlib.Core.Bool.{true, false}
use eqemu_monomyth_client.Prelude.Tests.{ltb, if◌then◌else◌}
use native.Mathlib.Nat.{one-le-pow, pow-suc, pow-succ', div-one, mul-one, div-div-eq-div-mul}
use native.Mathlib.Decide.{ℕ_discrete}
use native.Mathlib.Omega.{arith}

-- The binary digit of weight `2 ^ k`.
abbrev pub bit : ℕ → ℕ → ℕ
bit a zero = a % 2
bit a (suc k) = bit (a / 2) k

pub bit-le : (a k : ℕ) → bit a k ≤ 1
bit-le a zero = omega arith
bit-le a (suc k) = bit-le (a / 2) k

-- Both operations run `digits`, which differ in what is left of `b` when `a` is used up, and in
-- how two digits are joined.
module _ (left : ℕ → ℕ) (join : ℕ → ℕ → ℕ) where
  digits_end : (fuel y : ℕ) → digits left join fuel 0 y ≡ left y
  digits_end zero y = refl
  digits_end (suc fuel) y = refl

  digits_enough :
      (x y fuel more : ℕ)
      → x ≤ fuel
      → x ≤ more
      → digits left join fuel x y ≡ digits left join more x y
  digits_enough zero y fuel more lo hi = digits_end fuel y ∙ sym (digits_end more y)
  digits_enough (suc x) y zero more lo hi = absurd (omega arith)
  digits_enough (suc x) y (suc fuel) zero lo hi = absurd (omega arith)
  digits_enough (suc x) y (suc fuel) (suc more) lo hi =
      rw (digits_enough (suc x / 2) (y / 2) fuel more (omega arith) (omega arith))

  -- One equation for the lowest digit, with no fuel.
  digits_step :
      (x y : ℕ)
      → left y ≡ left (y / 2) * 2 + join 0 (y % 2)
      → digits left join x x y ≡ digits left join (x / 2) (x / 2) (y / 2) * 2 + join (x % 2) (y % 2)
  digits_step zero y rest = rest
  digits_step (suc x) y rest =
      ap (λ (t : ℕ). t * 2 + join (suc x % 2) (y % 2))
        (digits_enough (suc x / 2) (y / 2) x (suc x / 2) (omega arith) (omega arith))

pub bit_and_step : (a b : ℕ) → bit_and a b ≡ bit_and (a / 2) (b / 2) * 2 + min (a % 2) (b % 2)
bit_and_step a b =
    rw (bit_and-bitwise a b, bit_and-bitwise (a / 2) (b / 2))
      (digits_step (λ y. zero) min a b (omega arith))

-- `&` takes the smaller digit at each place.
pub bit-bit_and : (a b k : ℕ) → bit (bit_and a b) k ≡ min (bit a k) (bit b k)
bit-bit_and a b zero = omega (arith, bit_and_step a b)
bit-bit_and a b (suc k) =
    let half : bit_and a b / 2 ≡ bit_and (a / 2) (b / 2) = omega (arith, bit_and_step a b) in
    rw half (bit-bit_and (a / 2) (b / 2) k)

-- The intersection is below both operands.
bit_and_below : (half a b : ℕ) → a ≤ half → (bit_and a b ≤ a) × (bit_and a b ≤ b)
bit_and_below half zero b h = omega (arith, bit_and-bitwise 0 b)
bit_and_below zero (suc a) b h = absurd (omega arith)
bit_and_below (suc half) (suc a) b h =
    let smaller = bit_and_below half (suc a / 2) (b / 2) (omega arith) in
    omega (arith, smaller.0, smaller.1, bit_and_step (suc a) b)

pub bit_and-le : (a b : ℕ) → bit_and a b ≤ a
bit_and-le a b = (bit_and_below a a b (omega arith)).0

pub bit_and-zero : (a : ℕ) → bit_and a 0 ≡ 0
bit_and-zero a = omega (arith, (bit_and_below a a 0 (omega arith)).1)

-- A test against one bit, `a & (1 << k)`.
pub bit_and-two_pow : (a k : ℕ) → bit_and a (2 ^ k) ≡ bit a k * 2 ^ k
bit_and-two_pow a zero = omega (arith, bit_and_step a 1, bit_and-zero (a / 2))
bit_and-two_pow a (suc k) =
    let half : 2 ^ suc k / 2 ≡ 2 ^ k = omega (arith, pow-suc 2 k) in
    omega (
      arith,
      bit_and_step a (2 ^ suc k),
      ap (bit_and (a / 2)) half,
      bit_and-two_pow (a / 2) k,
      pow-suc 2 k,
      ap (λ (t : ℕ). bit (a / 2) k * t) (pow-suc 2 k),
    )

-- A mask whose low digits are empty reads the high digits only.
pub bit_and_high : (k a b : ℕ) → bit_and a (b * 2 ^ k) ≡ bit_and (a / 2 ^ k) b * 2 ^ k
bit_and_high zero a b = simp (div-one, mul-one)
bit_and_high (suc k) a b =
    let half : b * 2 ^ suc k / 2 ≡ b * 2 ^ k =
      omega (arith, ap (λ (t : ℕ). b * t) (pow-succ' 2 k)) in
    let even : b * 2 ^ suc k % 2 ≡ 0 = omega (arith, ap (λ (t : ℕ). b * t) (pow-succ' 2 k)) in
    let quarter : a / 2 / 2 ^ k ≡ a / 2 ^ suc k =
      div-div-eq-div-mul a 2 (2 ^ k) ∙ ap (λ (t : ℕ). a / t) (sym (pow-succ' 2 k)) in
    omega (
      arith,
      bit_and_step a (b * 2 ^ suc k),
      ap (bit_and (a / 2)) half,
      bit_and_high k (a / 2) b,
      ap (λ (t : ℕ). bit_and t b * 2 ^ k) quarter,
      ap (λ (t : ℕ). bit_and (a / 2 ^ suc k) b * t) (pow-succ' 2 k),
    )

pub bit-zero : (k : ℕ) → bit 0 k ≡ 0
bit-zero zero = refl
bit-zero (suc k) = bit-zero k

-- A number that is not 0 has a digit 1 within its width.
pub bit_of_ne-zero : (n a : ℕ) → a < 2 ^ n → a ≢ 0 → (k : ℕ) × (k < n) × (bit a k ≡ 1)
bit_of_ne-zero zero a h ne = absurd (ne (omega arith))
bit_of_ne-zero (suc n) a h ne = elim (ℕ_discrete (a % 2) 1) [
  | yes odd ↦ (0, omega arith, odd)
  | no even ↦
      let (k, lt, one) =
        bit_of_ne-zero n (a / 2) (omega (arith, pow-suc 2 n)) (λ e. ne (omega arith)) in
      (suc k, omega arith, one)
]

-- Two masks meet exactly where some digit is 1 in both.
pub bit_and_meets :
    (n a b : ℕ) → a < 2 ^ n → bit_and a b ≢ 0 → (k : ℕ) × (k < n) × (bit a k ≡ 1) × (bit b k ≡ 1)
bit_and_meets n a b h ne =
    let (k, lt, one) = bit_of_ne-zero n (bit_and a b) (omega (arith, bit_and-le a b)) ne in
    (
      k,
      lt,
      omega (arith, bit-bit_and a b k, bit-le a k, bit-le b k),
      omega (arith, bit-bit_and a b k, bit-le a k, bit-le b k),
    )

pub bit_and_ne-zero : (a b k : ℕ) → bit a k ≡ 1 → bit b k ≡ 1 → bit_and a b ≢ 0
bit_and_ne-zero a b k p q e =
    absurd (omega (arith, bit-bit_and a b k, ap (λ (t : ℕ). bit t k) e, bit-zero k))

-- A mask of `k` ones leaves a number of `k` digits as it is.
pub bit_and_full : (k a : ℕ) → a < 2 ^ k → bit_and a (2 ^ k - 1) ≡ a
bit_and_full zero a h = omega (arith, bit_and-zero a)
bit_and_full (suc k) a h =
    let half : (2 ^ suc k - 1) / 2 ≡ 2 ^ k - 1 = omega (arith, pow-suc 2 k, one-le-pow k 2) in
    omega (
      arith,
      bit_and_step a (2 ^ suc k - 1),
      ap (bit_and (a / 2)) half,
      bit_and_full k (a / 2) (omega (arith, pow-suc 2 k)),
      pow-suc 2 k,
      one-le-pow k 2,
    )

pub bit_or_step : (a b : ℕ) → bit_or a b ≡ bit_or (a / 2) (b / 2) * 2 + max (a % 2) (b % 2)
bit_or_step a b =
    rw (bit_or-bitwise a b, bit_or-bitwise (a / 2) (b / 2))
      (digits_step (λ y. y) max a b (omega arith))

-- A field above the digits of the other operand is added by `|`.
pub bit_or_above : (k r q : ℕ) → r < 2 ^ k → bit_or r (q * 2 ^ k) ≡ r + q * 2 ^ k
bit_or_above zero r q fits =
    let none_left : r ≡ 0 = omega arith in rw (none_left, bit_or-bitwise) (omega arith)
bit_or_above (suc k) r q fits =
    let shifted = ap (λ (t : ℕ). q * t) (pow-succ' 2 k) in
    let half : q * 2 ^ suc k / 2 ≡ q * 2 ^ k = omega (arith, shifted) in
    let even : q * 2 ^ suc k % 2 ≡ 0 = omega (arith, shifted) in
    omega (
      arith,
      bit_or_step r (q * 2 ^ suc k),
      ap (bit_or (r / 2)) half,
      bit_or_above k (r / 2) q (omega (arith, pow-succ' 2 k)),
      shifted,
    )

-- The digits of two fields side by side.
pub bit-fields :
    (w high low k : ℕ)
    → low < 2 ^ w
    → bit (high * 2 ^ w + low) k ≡ (if ltb k w then bit low k else bit high (k - w))
bit-fields zero high low k h =
    let empty : low ≡ 0 = omega arith in
    let whole : high * 1 + 0 ≡ high = omega arith in
    let all : k - 0 ≡ k = omega arith in
    let test : ltb k 0 ≡ false = ground arith in rw (empty, whole, test, all)
bit-fields (suc w) high low zero h =
    let test : ltb 0 (suc w) ≡ true = ground arith in
    rw test (omega (arith, ap (λ (t : ℕ). high * t) (pow-succ' 2 w)))
bit-fields (suc w) high low (suc k) h =
    let half : (high * 2 ^ suc w + low) / 2 ≡ high * 2 ^ w + low / 2 =
      omega (arith, ap (λ (t : ℕ). high * t) (pow-succ' 2 w)) in
    let test : ltb (suc k) (suc w) ≡ ltb k w = ground arith in
    let rest : suc k - suc w ≡ k - w = omega arith in
    rw (half, test, rest) (bit-fields w high (low / 2) k (omega (arith, pow-succ' 2 w)))

bit_or-nothing : (half q : ℕ) → q ≤ half → bit_or q 0 ≡ q
bit_or-nothing half zero h = omega (arith, bit_or-bitwise 0 0)
bit_or-nothing zero (suc q) h = absurd (omega arith)
bit_or-nothing (suc half) (suc q) h =
    omega (arith, bit_or-nothing half (suc q / 2) (omega arith), bit_or_step (suc q) 0)

-- A field below the digits of the other operand is added by `|`.
pub bit_or_below : (k r q : ℕ) → r < 2 ^ k → bit_or (q * 2 ^ k) r ≡ q * 2 ^ k + r
bit_or_below zero r q fits =
    let none_left : r ≡ 0 = omega arith in
    let once : q * 1 ≡ q = omega arith in
    rw (none_left, once) (omega (arith, bit_or-nothing q q (omega arith)))
bit_or_below (suc k) r q fits =
    let shifted = ap (λ (t : ℕ). q * t) (pow-succ' 2 k) in
    let half : q * 2 ^ suc k / 2 ≡ q * 2 ^ k = omega (arith, shifted) in
    omega (
      arith,
      bit_or_step (q * 2 ^ suc k) r,
      ap (λ (t : ℕ). bit_or t (r / 2)) half,
      bit_or_below k (r / 2) q (omega (arith, pow-succ' 2 k)),
      shifted,
    )
