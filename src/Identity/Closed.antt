-- ===== src/Identity/Closed.antt =====
-- The ordered class list in closed form.
use native.Mathlib.Decide.{ℕ_discrete}
use mathlib.Core.Path.{ap₂, subst}
use mathlib.Core.List.{append_assoc, append-nil}
use eqemu_monomyth_client.Prelude.{
  ℕ, zero, suc, ◌+◌, ◌-◌, ◌≤◌, ◌<◌, ◌^◌, ◌≡◌, ◌≢◌, ◌∙◌, inl, inr, refl, ap, sym, Bool, true, false,
  Bool-cases, ◌&&◌, ◌||◌, not, ltb, ◌==◌, ◌!=◌, List, [], ◌∷◌, ◌++◌, length, replicate, set, arith,
  if◌then◌else◌, count_from, select, any, any-append, set-append, length-append, length-replicate,
  take, take-length-append,
}
use eqemu_monomyth_client.Prelude.Bits.{bit_of_ne-zero}
use eqemu_monomyth_client.Identity.Mask.{is_playable_class_id, is_playable_class_mask, has_class}
use eqemu_monomyth_client.Identity.Membership.{has_class_iff, is_playable_class_mask_iff}
use eqemu_monomyth_client.Identity.Order.{
  OrderedClassIds, empty_ids, holds_id, append_class_if_missing, append_classes_from,
  build_ordered_class_id_list, can_format_class_display,
}

-- The array holds `l` in its first `count` places, and zeros after them.
pub record Represents (ids : OrderedClassIds) (l : List ℕ) (room : ℕ) : Type 0 where
  pub sized : ids.count ≡ length l
  pub stored : ids.class_ids ≡ l ++ replicate room 0
  pub spare : length l + room ≡ 16

holds_id-any : (l r : List ℕ) (c : ℕ) → holds_id (length l) (l ++ r) c ≡ any (λ x. x == c) l
unfolding holds_id
holds_id-any [] r c = refl
holds_id-any (x ∷ l) r c = ground (arith, holds_id-any l r c)

holds_id-Represents :
    (ids : OrderedClassIds) (l : List ℕ) (room c : ℕ)
    → Represents ids l room
    → holds_id ids.count ids.class_ids c ≡ any (λ x. x == c) l
holds_id-Represents ids l room c r =
    ap₂ (λ n xs. holds_id n xs c) r.sized r.stored ∙ holds_id-any l (replicate room 0) c

array_length :
    (ids : OrderedClassIds) (l : List ℕ) (room : ℕ)
    → Represents ids l room
    → length ids.class_ids ≡ 16
array_length ids l room r = omega (
  arith,
  ap length r.stored,
  length-append l (replicate room 0),
  length-replicate room (let z : ℕ = 0 in z),
  r.spare,
)

-- One append, on the list that the array stands for.
append-Represents :
    (ids : OrderedClassIds) (l : List ℕ) (room c : ℕ)
    → is_playable_class_id c ≡ true
    → any (λ x. x == c) l ≡ false
    → Represents ids l (suc room)
    → Represents (append_class_if_missing ids c) (l ++ c ∷ []) room
append-Represents ids l room c play miss r =
    subst (λ (o : OrderedClassIds). Represents o (l ++ c ∷ []) room) (sym appended)
      (record {
        sized = omega (arith, r.sized, length-append l (c ∷ []));
        stored = ap₂ (λ n xs. set xs n c) r.sized r.stored ∙ set-append l 0 c (replicate room 0);
        spare = omega (arith, r.spare, length-append l (c ∷ []));
      })
  where
    appended :
        append_class_if_missing ids c
        ≡ record ids { class_ids = set ids.class_ids ids.count c; count = ids.count + 1 }
    appended =
        unfold append_class_if_missing in
        ground (
          arith,
          holds_id-Represents ids l (suc room) c r,
          array_length ids l (suc room) r,
          r.sized,
          r.spare,
        )

append_present :
    (ids : OrderedClassIds) (l : List ℕ) (room c : ℕ)
    → any (λ x. x == c) l ≡ true
    → Represents ids l room
    → append_class_if_missing ids c ≡ ids
unfolding append_class_if_missing
append_present ids l room c hit r = ground (arith, holds_id-Represents ids l room c r)

-- 1 once the primary class cannot be met any more.
abbrev passed : ℕ → ℕ → ℕ
passed p id = if ltb p id || not (is_playable_class_id p) then 1 else 0

-- The classes that the loop adds after the primary one.
abbrev pub other_class : ℕ → ℕ → ℕ → Bool
other_class p mask c = has_class mask c && c != p

module _ (p mask : ℕ) where
  -- From `id` on, the list holds the primary class and no other.
  abbrev Seen : ℕ → List ℕ → Type 0
  Seen id l = (c : ℕ) → id ≤ c → is_playable_class_id c ≡ true → any (λ x. x == c) l ≡ (p == c)

  abbrev LoopAdds : ℕ → ℕ → List ℕ → OrderedClassIds → Type 0
  LoopAdds left id l ids =
      (room : ℕ) × Represents (append_classes_from left id mask ids)
        (l ++ select (other_class p mask) (count_from left id)) room

  Seen-append : (id : ℕ) (l : List ℕ) → Seen id l → Seen (id + 1) (l ++ id ∷ [])
  Seen-append id l seen c lo play =
      ground (arith, seen c (omega arith) play, any-append (λ x. x == c) l (id ∷ []))

  append_classes_from-LoopAdds :
      (left id room : ℕ) (l : List ℕ) (ids : OrderedClassIds)
      → 1 ≤ id
      → id + left ≡ 17
      → Seen id l
      → length l + passed p id ≤ id
      → Represents ids l room
      → LoopAdds left id l ids
  unfolding append_classes_from
  append_classes_from-LoopAdds zero id room l ids lo hi seen slack r = (room, rw append-nil r)
  append_classes_from-LoopAdds (suc left) id room l ids lo hi seen slack r =
      let play : is_playable_class_id id ≡ true = unfold is_playable_class_id in ground arith in
      let later : Seen (id + 1) l = λ c h. seen c (omega arith) in
      elim (Bool-cases (has_class mask id)) [
        | inr miss ↦ rw miss (
            append_classes_from-LoopAdds left (id + 1) room l ids (omega arith) (omega arith) later
              (unfold is_playable_class_id in ground arith) r)
        | inl hit ↦ elim (ℕ_discrete id p) [
          | yes same ↦
              let again : (id != p) ≡ false = ground arith in
              let held : any (λ x. x == id) l ≡ true = seen id (omega arith) play ∙ ground arith in
              rw (hit, again, append_present ids l room id held r)
                (append_classes_from-LoopAdds left (id + 1) room l ids (omega arith) (omega arith)
                  later (unfold is_playable_class_id in ground arith) r)
          | no other ↦
              let fresh : (id != p) ≡ true = ground arith in
              let absent : any (λ x. x == id) l ≡ false =
                seen id (omega arith) play ∙ ground arith in
              let free : room ≡ suc (room - 1) =
                unfold is_playable_class_id in ground (arith, r.spare) in
              let added =
                append-Represents ids l (room - 1) id play absent
                  (subst (Represents ids l) free r) in
              let (k, rep) =
                append_classes_from-LoopAdds left (id + 1) (room - 1) (l ++ id ∷ [])
                  (append_class_if_missing ids id) (omega arith) (omega arith)
                  (Seen-append id l seen)
                  (unfold is_playable_class_id in ground (arith, length-append l (id ∷ [])))
                  added in
              rw (hit, fresh) (k, rw append_assoc at rep)
        ]
      ]

-- The order that the code builds: the primary class if it is playable, then the mask's other
-- classes from 1 to 16.
abbrev pub class_order : ℕ → ℕ → List ℕ
class_order primary mask =
    (if is_playable_class_id primary then primary ∷ [] else [])
    ++ select (other_class primary mask) (count_from 16 1)

abbrev pub listed : OrderedClassIds → List ℕ
listed ids = take ids.count ids.class_ids

listed-Represents :
    (ids : OrderedClassIds) (l : List ℕ) (room : ℕ)
    → Represents ids l room
    → (listed ids ≡ l) × (ids.count ≡ length l)
listed-Represents ids l room r =
    (ap₂ take r.sized r.stored ∙ take-length-append l (replicate room 0), r.sized)

first-Represents :
    (primary : ℕ)
    → (room : ℕ) × Represents
        (append_class_if_missing empty_ids primary)
        (if is_playable_class_id primary then primary ∷ [] else [])
        room
first-Represents primary = elim (Bool-cases (is_playable_class_id primary)) [
  | inl play ↦ (
    15,
    rw play (
        append-Represents empty_ids [] 15 primary play refl
          (record { sized = refl; stored = refl; spare = refl })),
  )
  | inr out ↦ (
    16,
    unfold append_class_if_missing in rw out (record { sized = refl; stored = refl; spare = refl }),
  )
]

build-Represents :
    (primary mask : ℕ)
    → (room : ℕ) × Represents
        (append_classes_from 16 1 mask (append_class_if_missing empty_ids primary))
        (class_order primary mask)
        room
build-Represents primary mask =
    let (room, first) = first-Represents primary in
    append_classes_from-LoopAdds primary mask 16 1 room _ _ (omega arith) (omega arith)
      (λ c lo play. ground arith) (unfold is_playable_class_id in ground arith) first

-- The mask is known, holds a class, and holds playable classes only.
abbrev pub usable_mask : Bool → ℕ → Bool
usable_mask known mask = known && mask != 0 && is_playable_class_mask mask

build_usable :
    (primary : ℕ) (known : Bool) (mask : ℕ)
    → usable_mask known mask ≡ true
    → build_ordered_class_id_list primary known mask
      ≡ append_classes_from 16 1 mask (append_class_if_missing empty_ids primary)
unfolding build_ordered_class_id_list
build_usable primary known mask h = ground arith

build_unusable :
    (primary : ℕ) (known : Bool) (mask : ℕ)
    → usable_mask known mask ≡ false
    → build_ordered_class_id_list primary known mask ≡ empty_ids
unfolding build_ordered_class_id_list
build_unusable primary known mask h = ground arith

-- For a known mask of playable classes that is not empty, BuildOrderedClassIdList lists the
-- primary class if it is playable, then each other class of the mask once, in rising order; the
-- count is the length of that list, so no class is ever dropped for want of room. Otherwise the
-- list is empty.
pub build_ordered_class_id_list-listed :
    (primary : ℕ) (known : Bool) (mask : ℕ)
    → let ids = build_ordered_class_id_list primary known mask in
      let order = if usable_mask known mask then class_order primary mask else [] in
      (listed ids ≡ order) × (ids.count ≡ length order)
build_ordered_class_id_list-listed primary known mask = elim (Bool-cases (usable_mask known mask)) [
  | inl usable ↦
      rw (usable, build_usable primary known mask usable)
        (listed-Represents _ _ (build-Represents primary mask).0 (build-Represents primary mask).1)
  | inr unusable ↦ rw (unusable, build_unusable primary known mask unusable) (refl, refl)
]

ne_test : (n : ℕ) → 0 < n → (n != 0) ≡ true
ne_test n h = ground arith

select_nonempty :
    (test : ℕ → Bool) (n a c : ℕ)
    → a ≤ c
    → c < a + n
    → test c ≡ true
    → 0 < length (select test (count_from n a))
select_nonempty test zero a c lo hi h = absurd (omega arith)
select_nonempty test (suc n) a c lo hi h = elim (ℕ_discrete a c) [
  | yes same ↦ rw (same, h) (omega arith)
  | no other ↦ elim (Bool-cases (test a)) [
    | inl hit ↦ rw hit (omega arith)
    | inr miss ↦ rw miss (select_nonempty test n (a + 1) c (ground arith) (omega arith) h)
  ]
]

-- The order of a playable mask that is not 0 is never empty.
class_order_nonempty :
    (primary mask : ℕ) → mask < 2 ^ 16 → mask ≢ 0 → 0 < length (class_order primary mask)
class_order_nonempty primary mask lt ne = elim (Bool-cases (is_playable_class_id primary)) [
  | inl play ↦ rw play (omega arith)
  | inr out ↦
      let (k, k_lt, one) = bit_of_ne-zero 16 mask lt ne in
      let back : suc k - 1 ≡ k = omega arith in
      let held = (has_class_iff mask (suc k)).1 (omega arith, omega arith, rw back one) in
      rw out (
        select_nonempty (other_class primary mask) 16 1 (suc k) (omega arith) (omega arith)
          (unfold is_playable_class_id in ground arith))
]

-- A class text can be shown exactly when the mask is known, not empty, and playable.
pub can_format_class_display-usable_mask :
    (primary : ℕ) (known : Bool) (mask : ℕ)
    → mask < 2 ^ 32
    → can_format_class_display primary known mask ≡ usable_mask known mask
unfolding can_format_class_display
can_format_class_display-usable_mask primary known mask lt =
    elim (Bool-cases (usable_mask known mask)) [
      | inl usable ↦
          rw (usable, (build_ordered_class_id_list-listed primary known mask).1, usable)
            (ne_test _ (
              class_order_nonempty primary mask
                ((is_playable_class_mask_iff mask lt).0 (ground arith)) (ground arith)))
      | inr unusable ↦ rw (unusable, build_unusable primary known mask unusable)
    ]
