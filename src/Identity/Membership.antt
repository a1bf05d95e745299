-- ===== src/Identity/Membership.antt =====
-- What the mask tests of multiclass_identity.cpp mean: a class is a binary digit, and the loop
-- over the classes is one intersection of masks.
use native.Mathlib.Nat.{one-le-pow}
use native.Mathlib.Decide.{ℕ_discrete}
use Prim.Native.Nat.{bit_and-bitwise}
use eqemu_monomyth_client.Prelude.{
  ℕ, zero, suc, ◌+◌, ◌-◌, ◌/◌, ◌^◌, ◌≤◌, ◌<◌, ◌≡◌, ◌≢◌, ◌↔◌, ◌⊎◌, inl, inr, refl, bit_and, bit_or,
  Bool, true, Bool-cases, holds_below, holds_below_at, agree, eq_of_agree, ◌&&◌, ◌||◌, ◌==◌, arith,
}
use eqemu_monomyth_client.Prelude.Bits.{
  bit, bit-le, bit_and-two_pow, bit_and_high, bit_and_full, bit_and_meets, bit_and_ne-zero,
}
use eqemu_monomyth_client.Identity.Mask.{
  has_class, has_client_item_class, client_item_playable_class_mask, is_playable_class_mask,
  shares_class_from, has_any_authoritative_client_item_class, has_any_authoritative_casting_class,
  is_casting_class_id, casting_class_mask, class_mask_uses_client_base_mana,
  is_client_base_mana_int_class_id, is_client_base_mana_wis_class_id,
  client_base_mana_int_class_mask, client_base_mana_wis_class_mask, bit_not32,
}

-- A class id that is in range, whose digit in the mask is 1.
abbrev pub Holds : ℕ → ℕ → Type 0
Holds mask class_id = (1 ≤ class_id) × (class_id ≤ 16) × (bit mask (class_id - 1) ≡ 1)

-- `has_class` reads one digit, and is false outside 1 to 16.
pub has_class_iff : (mask class_id : ℕ) → (has_class mask class_id ≡ true) ↔ Holds mask class_id
unfolding has_class
has_class_iff mask class_id = (
  λ h. ground (
    arith,
    bit_and-two_pow mask (class_id - 1),
    bit-le mask (class_id - 1),
    one-le-pow (class_id - 1) 2,
  ),
  λ h. ground (
    arith,
    bit_and-two_pow mask (class_id - 1),
    bit-le mask (class_id - 1),
    one-le-pow (class_id - 1) 2,
  ),
)

pub has_client_item_class-eq :
    (mask class_id : ℕ) → has_client_item_class mask class_id ≡ has_class mask class_id
unfolding has_client_item_class has_class
has_client_item_class-eq mask class_id = refl

-- The masks without a bit above the sixteenth are the numbers below 2 ^ 16.
pub is_playable_class_mask_iff :
    (m : ℕ) → m < 2 ^ 32 → (is_playable_class_mask m ≡ true) ↔ (m < 2 ^ 16)
unfolding is_playable_class_mask
is_playable_class_mask_iff m h = (
  λ k. ground (arith, bit_and_high 16 m 65535, bit_and_full 16 (m / 2 ^ 16)),
  λ k. ground (arith, bit_and_high 16 m 65535, bit_and_full 16 (m / 2 ^ 16)),
)

-- The intersection with a mask of playable classes is a class in both.
meets_iff :
    (m k : ℕ)
    → m < 2 ^ 16
    → (bit_and m k ≢ 0) ↔ ((id : ℕ) × (has_class m id ≡ true) × (has_class k id ≡ true))
meets_iff m k lt = (
  λ ne.
      let (j, j_lt, p, q) = bit_and_meets 16 m k lt ne in
      let back : suc j - 1 ≡ j = omega arith in
      (
        suc j,
        (has_class_iff m (suc j)).1 (omega arith, omega arith, rw back p),
        (has_class_iff k (suc j)).1 (omega arith, omega arith, rw back q),
      ),
  λ (id, p, q).
      bit_and_ne-zero m k (id - 1) ((has_class_iff m id).0 p).2 ((has_class_iff k id).0 q).2,
)

shares_class_from_sound :
    (left id a b : ℕ)
    → shares_class_from left id a b ≡ true
    → (c : ℕ) × (has_class a c ≡ true) × (has_class b c ≡ true)
unfolding shares_class_from
shares_class_from_sound zero id a b h = cc
shares_class_from_sound (suc left) id a b h =
    elim (Bool-cases (has_class a id && has_client_item_class b id)) [
      | inl hit ↦ (id, ground arith, ground (arith, has_client_item_class-eq b id))
      | inr miss ↦ shares_class_from_sound left (id + 1) a b (ground arith)
    ]

shares_class_from_complete :
    (left id a b c : ℕ)
    → id ≤ c
    → c < id + left
    → has_class a c ≡ true
    → has_class b c ≡ true
    → shares_class_from left id a b ≡ true
unfolding shares_class_from
shares_class_from_complete zero id a b c lo hi p q = absurd (omega arith)
shares_class_from_complete (suc left) id a b c lo hi p q = elim (ℕ_discrete id c) [
  | yes here ↦ rw here (ground (arith, has_client_item_class-eq b c))
  | no later ↦
      ground
        (arith, shares_class_from_complete left (id + 1) a b c (ground arith) (omega arith) p q)
]

-- The loop of HasAnyAuthoritativeClientItemClass is one intersection of the two masks: for
-- 32-bit masks it answers true exactly when the authoritative mask is known, both masks hold
-- playable classes only, and they have a class in common.
pub has_any_authoritative_client_item_class_iff :
    (known : Bool) (a b : ℕ)
    → a < 2 ^ 32
    → b < 2 ^ 32
    → (has_any_authoritative_client_item_class known a b ≡ true)
      ↔ ((known ≡ true) × (a < 2 ^ 16) × (b < 2 ^ 16) × (bit_and a b ≢ 0))
unfolding has_any_authoritative_client_item_class
has_any_authoritative_client_item_class_iff known a b ha hb = (
  λ h.
      let a_lt = (is_playable_class_mask_iff a ha).0 (ground arith) in
      (
        ground arith,
        a_lt,
        (is_playable_class_mask_iff b hb).0 (unfold is_playable_class_mask in ground arith),
        (meets_iff a b a_lt).1 (shares_class_from_sound 16 1 a b (ground arith)),
      ),
  λ (p, q, r, ne).
      let (c, ac, bc) = (meets_iff a b q).0 ne in
      let found =
        shares_class_from_complete 16 1 a b c ((has_class_iff a c).0 ac).0
          (omega (arith, ((has_class_iff a c).0 ac).1)) ac bc in
      let item_ok : bit_and b (bit_not32 client_item_playable_class_mask) == 0 ≡ true =
        unfold is_playable_class_mask in (is_playable_class_mask_iff b hb).1 r in
      ground (arith, (is_playable_class_mask_iff a ha).1 q, item_ok, found, bit_and-bitwise 0 b),
)

-- A character can cast exactly when its mask is known, holds playable classes only, and has a
-- class that casts.
pub has_any_authoritative_casting_class_iff :
    (known : Bool) (m : ℕ)
    → m < 2 ^ 32
    → (has_any_authoritative_casting_class known m ≡ true) ↔ (
        (known ≡ true)
        × (m < 2 ^ 16)
        × ((id : ℕ) × (has_class m id ≡ true) × (is_casting_class_id id ≡ true)))
unfolding has_any_authoritative_casting_class is_casting_class_id
has_any_authoritative_casting_class_iff known m h = (
  λ k. (
    ground arith,
    (is_playable_class_mask_iff m h).0 (ground arith),
    (meets_iff m casting_class_mask ((is_playable_class_mask_iff m h).0 (ground arith))).0
        (ground arith),
  ),
  λ (p, q, r). ground (
    arith,
    (is_playable_class_mask_iff m h).1 q,
    (meets_iff m casting_class_mask q).1 r,
    bit_and-bitwise 0 casting_class_mask,
  ),
)

abbrev base_mana_mask : ℕ
base_mana_mask = bit_or client_base_mana_int_class_mask client_base_mana_wis_class_mask

base_mana_table :
    holds_below 17 (λ id.
      agree
        (has_class base_mana_mask id)
        (is_client_base_mana_int_class_id id || is_client_base_mana_wis_class_id id))
    ≡ true
unfolding holds_below has_class is_client_base_mana_int_class_id is_client_base_mana_wis_class_id
base_mana_table = refl

int_small : (id : ℕ) → is_client_base_mana_int_class_id id ≡ true → id < 17
unfolding is_client_base_mana_int_class_id
int_small id h = omega (arith, (has_class_iff client_base_mana_int_class_mask id).0 h)

wis_small : (id : ℕ) → is_client_base_mana_wis_class_id id ≡ true → id < 17
unfolding is_client_base_mana_wis_class_id
wis_small id h = omega (arith, (has_class_iff client_base_mana_wis_class_mask id).0 h)

base_mana_row :
    (id : ℕ)
    → id < 17
    → has_class base_mana_mask id
      ≡ (is_client_base_mana_int_class_id id || is_client_base_mana_wis_class_id id)
base_mana_row id h = eq_of_agree _ _ (holds_below_at 17 _ base_mana_table id h)

base_mana_classes :
    (id : ℕ)
    → (has_class base_mana_mask id ≡ true) ↔ (
        (is_client_base_mana_int_class_id id ≡ true) ⊎ (is_client_base_mana_wis_class_id id ≡ true))
base_mana_classes id = (
  λ k. ground (arith, base_mana_row id, (has_class_iff base_mana_mask id).0 k),
  λ k. ground (arith, base_mana_row id, int_small id, wis_small id),
)

-- A mask uses the client's base mana exactly when it holds playable classes only, one of which
-- has base mana by intelligence or by wisdom.
pub class_mask_uses_client_base_mana_iff :
    (m : ℕ)
    → m < 2 ^ 32
    → (class_mask_uses_client_base_mana m ≡ true) ↔ (
        (m < 2 ^ 16)
        × ((id : ℕ) × (has_class m id ≡ true)
            × ((is_client_base_mana_int_class_id id ≡ true)
                ⊎ (is_client_base_mana_wis_class_id id ≡ true))))
unfolding class_mask_uses_client_base_mana
class_mask_uses_client_base_mana_iff m h = (
  λ k.
      let lt = (is_playable_class_mask_iff m h).0 (ground arith) in
      let (id, p, q) = (meets_iff m base_mana_mask lt).0 (ground arith) in
      (lt, (id, p, (base_mana_classes id).0 q)),
  λ (lt, r).
      let (id, p, q) = r in
      let ne = (meets_iff m base_mana_mask lt).1 (id, p, (base_mana_classes id).1 q) in
      ground (arith, (is_playable_class_mask_iff m h).1 lt, ne),
)
