-- ===== src/Combat/Distinct.antt =====
-- The array of combat abilities: each learned discipline once.
use mathlib.Core.List.{append_assoc, append-nil}
use eqemu_monomyth_client.Prelude.{
  ℕ, zero, suc, ◌+◌, ◌-◌, ◌≤◌, ◌<◌, ◌≡◌, ◌∙◌, refl, sym, ap, inl, inr, true, false, Bool-cases, not,
  leb, ◌&&◌, ◌||◌, List, [], ◌∷◌, ◌++◌, length, length-append, length-replicate, set, set-append,
  replicate, arith, if◌then◌else◌,
}
use eqemu_monomyth_client.Prelude.Int.{ℤ, pos, is_positive, eq_int, eq_int_iff}
use eqemu_monomyth_client.Combat.Ability.{
  CombatAbilities, is_seen, copy_disciplines, build_combat_ability_array_from_learned_disciplines,
}

-- The positive ids that were not seen before, each once, in order.
abbrev pub distinct : List ℤ → List ℤ → List ℤ
distinct seen [] = []
distinct seen (id ∷ ids) =
    let skipped = distinct seen ids in
    let kept = id ∷ distinct (id ∷ seen) ids in
    if not (is_positive id) || is_seen id seen then skipped else kept

length-distinct : (seen ids : List ℤ) → length (distinct seen ids) ≤ length ids
length-distinct seen [] = omega arith
length-distinct seen (id ∷ ids) =
    ground (arith, length-distinct seen ids, length-distinct (id ∷ seen) ids)

abbrev pub zeros : ℕ → List ℤ
zeros n = replicate n (pos 0)

array-filled :
    (seen done ids : List ℤ) (room : ℕ)
    → (id : ℤ) → length ids < room
    → set (done ++ zeros room) (length done) id ≡ (done ++ id ∷ []) ++ zeros (room - 1)
array-filled seen done ids zero id h = absurd (omega arith)
array-filled seen done ids (suc room) id h =
    let less : suc room - 1 ≡ room = omega arith in
    rw less (set-append done (pos 0) id (zeros room))

abbrev pub filled : List ℤ → ℕ → CombatAbilities
filled found room = record {
  combat_abilities = found ++ zeros room;
  nonzero_entries = length found;
}

copy_disciplines-distinct :
    (seen done ids : List ℤ) (room : ℕ)
    → length ids ≤ room
    → copy_disciplines seen (length done) ids (done ++ zeros room)
      ≡ filled (done ++ distinct seen ids) (room - length (distinct seen ids))
unfolding copy_disciplines
copy_disciplines-distinct seen done [] room h =
    let whole : room - 0 ≡ room = omega arith in rw (append-nil done, whole)
copy_disciplines-distinct seen done (id ∷ ids) room h =
    elim (Bool-cases (not (is_positive id) || is_seen id seen)) [
      | inl skip ↦ rw skip (copy_disciplines-distinct seen done ids room (omega arith))
      | inr keep ↦
          let size : length (done ++ zeros room) ≡ length done + room =
            length-append done (zeros room)
            ∙ ap (λ n. length done + n) (length-replicate room (pos 0)) in
          let fits : leb (length (done ++ zeros room)) (length done) ≡ false =
            ground (arith, size) in
          let next : length done + 1 ≡ length (done ++ id ∷ []) =
            sym (length-append done (id ∷ [])) in
          let less : room - 1 - length (distinct (id ∷ seen) ids)
              ≡ room - suc (length (distinct (id ∷ seen) ids)) =
            omega arith in
          let step =
            copy_disciplines-distinct (id ∷ seen) (done ++ id ∷ []) ids (room - 1) (omega arith) in
          let shifted = append_assoc done (id ∷ []) (distinct (id ∷ seen) ids) in
          rw (
            keep,
            fits,
            array-filled seen done ids room id (omega arith),
            next,
            step,
            less,
            shifted,
          )
    ]

is_seen_same :
    (id x : ℤ) (seen : List ℤ)
    → eq_int id x ≡ true
    → (is_positive id ≡ is_positive x) × (is_seen id seen ≡ is_seen x seen)
is_seen_same id x seen h =
    let e = (eq_int_iff id x).0 h in (ap is_positive e, ap (λ y. is_seen y seen) e)

is_seen-distinct :
    (x : ℤ) (seen ids : List ℤ)
    → is_seen x (distinct seen ids) ≡ (is_positive x && not (is_seen x seen) && is_seen x ids)
is_seen-distinct x seen [] = ground arith
is_seen-distinct x seen (id ∷ ids) =
    let skipped = is_seen-distinct x seen ids in
    let kept = is_seen-distinct x (id ∷ seen) ids in
    let same = is_seen_same id x seen in ground arith

-- No id stands twice.
abbrev pub NoRepeats : List ℤ → Type 0
NoRepeats [] = Unit {0}
NoRepeats (id ∷ ids) = (is_seen id ids ≡ false) × NoRepeats ids

distinct-NoRepeats : (seen ids : List ℤ) → NoRepeats (distinct seen ids)
distinct-NoRepeats seen [] = tt
distinct-NoRepeats seen (id ∷ ids) = elim (Bool-cases (not (is_positive id) || is_seen id seen)) [
  | inl skip ↦ rw skip (distinct-NoRepeats seen ids)
  | inr keep ↦
      let itself = (eq_int_iff id id).1 refl in
      let once = is_seen-distinct id (id ∷ seen) ids in
      rw keep (ground arith, distinct-NoRepeats (id ∷ seen) ids)
]

-- From at most 300 learned disciplines, the array holds the positive ids among them in the order
-- in which each first occurs, none of them twice and none missing, then zeros; the count is the
-- number of those ids.
pub build_combat_ability_array-distinct :
    (learned : List ℤ) (x : ℤ)
    → length learned ≤ 300
    → let found = distinct [] learned in
      (build_combat_ability_array_from_learned_disciplines learned
        ≡ filled found (300 - length found))
      × NoRepeats found
      × (is_seen x found ≡ (is_positive x && is_seen x learned))
unfolding build_combat_ability_array_from_learned_disciplines
build_combat_ability_array-distinct learned x h = (
  copy_disciplines-distinct [] [] learned 300 h,
  distinct-NoRepeats [] learned,
  ground (arith, is_seen-distinct x [] learned),
)
