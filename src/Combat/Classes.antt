-- ===== src/Combat/Classes.antt =====
-- The class order of combat abilities, by the closed form of the ordered class list.
use mathlib.Core.Path.{ap₂}
use eqemu_monomyth_client.Prelude.{
  ℕ, zero, suc, ◌+◌, ◌≤◌, ◌<◌, ◌≡◌, ◌∙◌, refl, ap, inl, inr, Bool, true, false, Bool-cases, not,
  leb, ltb, ◌==◌, ◌&&◌, ◌||◌, List, [], ◌∷◌, any, any-append, ==_iff, select, count_from, arith,
  if◌then◌else◌,
}
use eqemu_monomyth_client.Identity.Mask.{is_playable_class_id, has_class}
use eqemu_monomyth_client.Identity.Membership.{has_class_iff}
use eqemu_monomyth_client.Identity.Order.{build_ordered_class_id_list}
use eqemu_monomyth_client.Identity.Closed.{
  class_order, other_class, usable_mask, listed, build_ordered_class_id_list-listed,
}
use eqemu_monomyth_client.AuthStats.Observe.{Snapshot}
use eqemu_monomyth_client.Combat.Ability.{build_authoritative_combat_ability_class_order}

any-select :
    (test : ℕ → Bool) (n a c : ℕ)
    → any (λ x. x == c) (select test (count_from n a)) ≡ (leb a c && ltb c (a + n) && test c)
any-select test zero a c = ground arith
any-select test (suc n) a c = elim (Bool-cases (test a)) [
  | inl hit ↦ rw hit (ground (arith, any-select test n (a + 1) c))
  | inr miss ↦ rw miss (ground (arith, any-select test n (a + 1) c))
]

-- The preferred class counts only if the mask has it.
abbrev preferred : ℕ → ℕ → ℕ
preferred mask p = if has_class mask p then p else 0

playable_of_has : (mask c : ℕ) → has_class mask c ≡ true → (1 ≤ c) × (c < 17)
playable_of_has mask c h =
    omega (arith, ((has_class_iff mask c).0 h).0, ((has_class_iff mask c).0 h).1)

any_front :
    (p c : ℕ)
    → any (λ x. x == c) (if is_playable_class_id p then p ∷ [] else [])
      ≡ (is_playable_class_id p && p == c)
any_front p c = ground arith

any_order :
    (mask p c : ℕ) → any (λ x. x == c) (class_order (preferred mask p) mask) ≡ has_class mask c
any_order mask p c =
    any-append (λ x. x == c)
      (if is_playable_class_id (preferred mask p) then preferred mask p ∷ [] else [])
      (select (other_class (preferred mask p) mask) (count_from 16 1))
    ∙ ap₂ ◌||◌ (any_front (preferred mask p) c)
        (any-select (other_class (preferred mask p) mask) 16 1 c)
    ∙ unfold is_playable_class_id in ground (arith, playable_of_has mask c, playable_of_has mask p)

-- The list begins with the class.
abbrev pub is_first : ℕ → List ℕ → Bool
is_first p [] = false
is_first p (c ∷ cs) = c == p

order_first :
    (mask p : ℕ) → not (has_class mask p) || is_first p (class_order (preferred mask p) mask) ≡ true
order_first mask p = elim (Bool-cases (has_class mask p)) [
  | inl has ↦
      let play : is_playable_class_id p ≡ true =
        unfold is_playable_class_id in ground (arith, playable_of_has mask p has) in
      rw (has, play) ((==_iff p p).1 refl)
  | inr lacks ↦ rw lacks
]

-- For a known mask of playable classes that is not empty, the class order of combat abilities
-- lists exactly the classes of the mask, and begins with the preferred class if the mask has it.
-- A preferred class that the mask does not have is not listed.
pub combat_class_order-has_class :
    (s : Snapshot) (p c : ℕ)
    → usable_mask s.has_classes_bitmask s.classes_bitmask ≡ true
    → let order = listed (build_authoritative_combat_ability_class_order s p) in
      (any (λ x. x == c) order ≡ has_class s.classes_bitmask c)
      × (not (has_class s.classes_bitmask p) || is_first p order ≡ true)
combat_class_order-has_class s p c usable =
    (rw order_is (any_order s.classes_bitmask p c), rw order_is (order_first mask p))
  where
    mask : ℕ
    mask = s.classes_bitmask

    built :
        build_authoritative_combat_ability_class_order s p
        ≡ build_ordered_class_id_list (preferred mask p) s.has_classes_bitmask mask
    built = unfold build_authoritative_combat_ability_class_order in ground arith

    order_is :
        listed (build_authoritative_combat_ability_class_order s p)
        ≡ class_order (preferred mask p) mask
    order_is =
        ap listed built
        ∙ (build_ordered_class_id_list-listed (preferred mask p) s.has_classes_bitmask mask).0
        ∙ rw usable
