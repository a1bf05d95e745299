-- ===== src/Identity/Mask.antt =====
-- Class ids 1 to 16 and masks with one bit for each. An `unsigned int` or `std::uint32_t` is a
-- natural number; `~` is taken within 32 bits.
use eqemu_monomyth_client.Prelude.{
  ℕ, zero, suc, ◌+◌, ◌-◌, ◌^◌, bit_and, bit_or, Bool, true, false, ◌&&◌, ◌||◌, not, leb, ◌==◌, ◌!=◌,
  if◌then◌else◌,
}

abbrev pub first_playable_class_id : ℕ
first_playable_class_id = 1

abbrev pub last_playable_class_id : ℕ
last_playable_class_id = 16

abbrev pub playable_class_mask : ℕ
playable_class_mask = 0x0000ffff

abbrev pub client_item_playable_class_mask : ℕ
client_item_playable_class_mask = 0x0000ffff

abbrev pub playable_class_count : ℕ
playable_class_count = 16

abbrev pub dual_wield_class_mask : ℕ
dual_wield_class_mask = 0x000041c9

abbrev pub casting_class_mask : ℕ
casting_class_mask = 0x00007ebe

abbrev pub client_base_mana_int_class_mask : ℕ
client_base_mana_int_class_mask = 0x00003c90

abbrev pub client_base_mana_wis_class_mask : ℕ
client_base_mana_wis_class_mask = 0x0000423e

abbrev pub heroic_int_mana_class_mask : ℕ
heroic_int_mana_class_mask = 0x00003c10

abbrev pub heroic_wis_mana_class_mask : ℕ
heroic_wis_mana_class_mask = 0x0000422e

-- `~m` on a `std::uint32_t`.
abbrev pub bit_not32 : ℕ → ℕ
bit_not32 m = 2 ^ 32 - 1 - m

unfoldable pub is_playable_class_id : ℕ → Bool
is_playable_class_id class_id =
    leb first_playable_class_id class_id && leb class_id last_playable_class_id

unfoldable pub class_bit : ℕ → ℕ
unfolding is_playable_class_id
class_bit class_id = if not (is_playable_class_id class_id) then 0 else 2 ^ (class_id - 1)

unfoldable pub client_item_class_bit : ℕ → ℕ
unfolding is_playable_class_id
client_item_class_bit class_id =
    if not (is_playable_class_id class_id) then 0 else 2 ^ (class_id - 1)

unfoldable pub is_playable_class_mask : ℕ → Bool
is_playable_class_mask class_mask = bit_and class_mask (bit_not32 playable_class_mask) == 0

unfoldable pub has_class : ℕ → ℕ → Bool
unfolding class_bit
has_class class_mask class_id = let b = class_bit class_id in b != 0 && bit_and class_mask b != 0

unfoldable pub has_client_item_class : ℕ → ℕ → Bool
unfolding client_item_class_bit
has_client_item_class class_mask class_id =
    let b = client_item_class_bit class_id in b != 0 && bit_and class_mask b != 0

unfoldable pub is_casting_class_id : ℕ → Bool
unfolding has_class
is_casting_class_id = has_class casting_class_mask

unfoldable pub is_client_base_mana_int_class_id : ℕ → Bool
unfolding has_class
is_client_base_mana_int_class_id = has_class client_base_mana_int_class_mask

unfoldable pub is_client_base_mana_wis_class_id : ℕ → Bool
unfolding has_class
is_client_base_mana_wis_class_id = has_class client_base_mana_wis_class_mask

unfoldable pub is_heroic_int_mana_class_id : ℕ → Bool
unfolding has_class
is_heroic_int_mana_class_id = has_class heroic_int_mana_class_mask

unfoldable pub is_heroic_wis_mana_class_id : ℕ → Bool
unfolding has_class
is_heroic_wis_mana_class_id = has_class heroic_wis_mana_class_mask

unfoldable pub class_mask_uses_client_base_mana : ℕ → Bool
class_mask_uses_client_base_mana class_mask =
    is_playable_class_mask class_mask
    && bit_and class_mask (bit_or client_base_mana_int_class_mask client_base_mana_wis_class_mask)
      != 0

unfoldable pub class_mask_uses_client_heroic_int_mana : ℕ → Bool
class_mask_uses_client_heroic_int_mana class_mask =
    is_playable_class_mask class_mask && bit_and class_mask heroic_int_mana_class_mask != 0

unfoldable pub class_mask_uses_client_heroic_wis_mana : ℕ → Bool
class_mask_uses_client_heroic_wis_mana class_mask =
    is_playable_class_mask class_mask && bit_and class_mask heroic_wis_mana_class_mask != 0

unfoldable pub has_authoritative_class : Bool → ℕ → ℕ → Bool
has_authoritative_class has_class_mask class_mask class_id =
    has_class_mask
    && class_mask != 0
    && is_playable_class_mask class_mask
    && has_class class_mask class_id

-- The loop `class_id, class_id + 1, …` with `left` rounds to go.
unfoldable pub shares_class_from : ℕ → ℕ → ℕ → ℕ → Bool
shares_class_from zero class_id authoritative item = false
shares_class_from (suc left) class_id authoritative item =
    if has_class authoritative class_id && has_client_item_class item class_id
    then true
    else shares_class_from left (class_id + 1) authoritative item

unfoldable pub has_any_authoritative_client_item_class : Bool → ℕ → ℕ → Bool
has_any_authoritative_client_item_class has_class_mask authoritative_class_mask
      client_item_class_mask =
    if not has_class_mask
      || authoritative_class_mask == 0
      || not (is_playable_class_mask authoritative_class_mask)
      || bit_and client_item_class_mask (bit_not32 client_item_playable_class_mask) != 0
    then false
    else shares_class_from playable_class_count first_playable_class_id authoritative_class_mask
        client_item_class_mask

unfoldable pub has_any_authoritative_casting_class : Bool → ℕ → Bool
has_any_authoritative_casting_class has_class_mask authoritative_class_mask =
    has_class_mask
    && authoritative_class_mask != 0
    && is_playable_class_mask authoritative_class_mask
    && bit_and authoritative_class_mask casting_class_mask != 0

unfoldable pub has_any_authoritative_dual_wield_class : Bool → ℕ → Bool
has_any_authoritative_dual_wield_class has_class_mask authoritative_class_mask =
    has_class_mask
    && authoritative_class_mask != 0
    && is_playable_class_mask authoritative_class_mask
    && bit_and authoritative_class_mask dual_wield_class_mask != 0

unfoldable pub has_authoritative_offhand_weapon_class_and_dual_wield : Bool → ℕ → ℕ → Bool → Bool
has_authoritative_offhand_weapon_class_and_dual_wield has_class_mask authoritative_class_mask
      client_item_class_mask has_dual_wield_entitlement =
    has_dual_wield_entitlement
    && has_any_authoritative_client_item_class has_class_mask authoritative_class_mask
        client_item_class_mask
