-- ===== src/Client/Compare.antt =====
-- The order of the integers, and the comparison of the code.
use eqemu_monomyth_client.Prelude.{◌≤◌, ◌≡◌, true, false, arith}
use eqemu_monomyth_client.Prelude.Int.{ℤ, pos, negsuc}
use eqemu_monomyth_client.Client.Best.{less}

-- The order of the integers.
abbrev pub LessEq : ℤ → ℤ → Type 0
LessEq (pos m) (pos n) = m ≤ n
LessEq (pos m) (negsuc n) = ⊥
LessEq (negsuc m) (pos n) = Unit {0}
LessEq (negsuc m) (negsuc n) = n ≤ m

pub LessEq-refl : (a : ℤ) → LessEq a a
LessEq-refl (pos m) = omega arith
LessEq-refl (negsuc m) = omega arith

pub LessEq-trans : (a b c : ℤ) → LessEq a b → LessEq b c → LessEq a c
LessEq-trans (pos l) (pos m) (pos n) h k = omega (arith, h, k)
LessEq-trans (pos l) (pos m) (negsuc n) h k = absurd k
LessEq-trans (pos l) (negsuc m) c h k = absurd h
LessEq-trans (negsuc l) b (pos n) h k = tt
LessEq-trans (negsuc l) (pos m) (negsuc n) h k = absurd k
LessEq-trans (negsuc l) (negsuc m) (negsuc n) h k = omega (arith, h, k)

pub less-LessEq : (a b : ℤ) → less a b ≡ true → LessEq a b
less-LessEq (pos m) (pos n) h = ground (arith, h)
less-LessEq (pos m) (negsuc n) h = absurd (cc h)
less-LessEq (negsuc m) (pos n) h = tt
less-LessEq (negsuc m) (negsuc n) h = ground (arith, h)

pub not_less-LessEq : (a b : ℤ) → less a b ≡ false → LessEq b a
not_less-LessEq (pos m) (pos n) h = ground (arith, h)
not_less-LessEq (pos m) (negsuc n) h = tt
not_less-LessEq (negsuc m) (pos n) h = absurd (cc h)
not_less-LessEq (negsuc m) (negsuc n) h = ground (arith, h)
