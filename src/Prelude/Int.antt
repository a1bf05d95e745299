-- ===== src/Prelude/Int.antt =====
-- The values of a C++ `int`, without its bounds: `negsuc n` is -(n + 1).
use Prim.Native.Nat.{ℕ}
use mathlib.Core.Path.{◌≡◌}
use mathlib.Core.Logic.{◌↔◌}
use mathlib.Core.Bool.{Bool, true, false}
use native.Mathlib.Omega.{arith}
use eqemu_monomyth_client.Prelude.Tests.{ltb, ◌==◌ as nat_eq}

pub data ℤ : Type 0 where
  pos : ℕ → ℤ
  negsuc : ℕ → ℤ

abbrev pub is_negative : ℤ → Bool
is_negative (pos n) = false
is_negative (negsuc n) = true

-- `x > 0`.
abbrev pub is_positive : ℤ → Bool
is_positive (pos n) = ltb 0 n
is_positive (negsuc n) = false

-- `x < n`.
abbrev pub below : ℤ → ℕ → Bool
below (pos m) n = ltb m n
below (negsuc m) n = true

abbrev pub eq_int : ℤ → ℤ → Bool
eq_int (pos m) (pos n) = nat_eq m n
eq_int (pos m) (negsuc n) = false
eq_int (negsuc m) (pos n) = false
eq_int (negsuc m) (negsuc n) = nat_eq m n

pub eq_int_iff : (a b : ℤ) → (eq_int a b ≡ true) ↔ (a ≡ b)
eq_int_iff a b = ground arith
