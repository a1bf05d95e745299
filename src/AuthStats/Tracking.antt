-- ===== src/AuthStats/Tracking.antt =====
-- What ParsePayload records of each stat, against the list of the payload's entries.
use mathlib.Core.List.{append-nil, append_assoc}
use eqemu_monomyth_client.Prelude.{
  ℕ, ◌≡◌, ◌∙◌, refl, sym, inl, inr, Bool, true, false, Bool-cases, ltb, leb, ◌==◌, ◌&&◌, ◌||◌, not,
  List, [], ◌∷◌, ◌++◌, length, length-append, arith, if◌then◌else◌,
}
use eqemu_monomyth_client.AuthStats.Parse.{
  ParseResult, take_entry, u32_max, stat_classes_bitmask_key, stat_activated_skill_mask_low_key,
  stat_activated_skill_mask_high_key, stat_extra_pet0_hp1000_key, stat_extra_pet1_hp1000_key,
  stat_focused_pet_id_key,
}

-- One entry of the payload.
pub record Stat : Type 0 where
  pub key : ℕ
  pub value : ℕ

-- The values of the entries that pass a test, in order.
abbrev pub values : (Stat → Bool) → List Stat → List ℕ
values test [] = []
values test (s ∷ ss) = if test s then s.value ∷ values test ss else values test ss

abbrev pub last_or : ℕ → List ℕ → ℕ
last_or d [] = d
last_or d (v ∷ vs) = last_or v vs

-- A stat is present when it has a value, it keeps the last one, and it is a duplicate when it
-- has more than one.
pub record Tracked (has : Bool) (value : ℕ) (duplicate : Bool) (vs : List ℕ) : Type 0 where
  pub present : has ≡ ltb 0 (length vs)
  pub latest : value ≡ last_or 0 vs
  pub repeated : duplicate ≡ ltb 1 (length vs)

last_or-append : (d v : ℕ) (vs : List ℕ) → last_or d (vs ++ v ∷ []) ≡ v
last_or-append d v [] = refl
last_or-append d v (w ∷ vs) = last_or-append w v vs

values-append :
    (test : Stat → Bool) (ss : List Stat) (s : Stat)
    → values test (ss ++ s ∷ []) ≡ values test ss ++ (if test s then s.value ∷ [] else [])
values-append test [] s = refl
values-append test (t ∷ ss) s = elim (Bool-cases (test t)) [
  | inl hit ↦ rw (hit, values-append test ss s)
  | inr miss ↦ rw (miss, values-append test ss s)
]

-- One entry more, which is a value of the stat or is not.
advance :
    (test : Bool) (w : ℕ) (has has' : Bool) (value value' : ℕ) (duplicate duplicate' : Bool)
    (vs : List ℕ)
    → Tracked has value duplicate vs
    → (test ≡ true → (has' ≡ true) × (value' ≡ w) × (duplicate' ≡ has))
    → (test ≡ false → (has' ≡ has) × (value' ≡ value) × (duplicate' ≡ duplicate))
    → Tracked has' value' duplicate' (vs ++ (if test then w ∷ [] else []))
advance true w has has' value value' duplicate duplicate' vs t hit miss =
    let (h, v, d) = hit refl in
    record {
      present = h ∙ ground (arith, length-append vs (w ∷ []));
      latest = v ∙ sym (last_or-append 0 w vs);
      repeated = d ∙ t.present ∙ ground (arith, length-append vs (w ∷ []));
    }
advance false w has has' value value' duplicate duplicate' vs t hit miss =
    let (h, v, d) = miss refl in
    rw append-nil
      (record { present = h ∙ t.present; latest = v ∙ t.latest; repeated = d ∙ t.repeated })

abbrev pub is_classes : Stat → Bool
is_classes s = s.key == stat_classes_bitmask_key && leb s.value u32_max

abbrev pub is_oversized_classes : Stat → Bool
is_oversized_classes s = s.key == stat_classes_bitmask_key && ltb u32_max s.value

abbrev pub is_skills_low : Stat → Bool
is_skills_low s = s.key == stat_activated_skill_mask_low_key

abbrev pub is_skills_high : Stat → Bool
is_skills_high s = s.key == stat_activated_skill_mask_high_key

abbrev pub is_pet0 : Stat → Bool
is_pet0 s = s.key == stat_extra_pet0_hp1000_key

abbrev pub is_pet1 : Stat → Bool
is_pet1 s = s.key == stat_extra_pet1_hp1000_key

abbrev pub is_focused : Stat → Bool
is_focused s = s.key == stat_focused_pet_id_key && leb s.value u32_max

abbrev pub is_known_key : Stat → Bool
is_known_key s =
    s.key == stat_classes_bitmask_key
    || is_skills_low s
    || is_skills_high s
    || is_pet0 s
    || is_pet1 s
    || s.key == stat_focused_pet_id_key

-- A focused pet id out of range counts as known and as unknown.
abbrev pub is_unknown : Stat → Bool
is_unknown s = not (is_known_key s) || s.key == stat_focused_pet_id_key && ltb u32_max s.value

-- A result holds what a list of entries says: each stat its last value in range, with the flags
-- for presence and repetition; the last classes value that is out of range; and the numbers of
-- entries with a known key and of those that are not understood.
pub record Records (r : ParseResult) (ss : List Stat) : Type 0 where
  pub classes :
      Tracked r.has_classes_bitmask r.classes_bitmask r.duplicate_classes_bitmask
        (values is_classes ss)
  pub skills_low :
      Tracked r.has_activated_skill_mask_low r.activated_skill_mask_low
        r.duplicate_activated_skill_mask_low
        (values is_skills_low ss)
  pub skills_high :
      Tracked r.has_activated_skill_mask_high r.activated_skill_mask_high
        r.duplicate_activated_skill_mask_high
        (values is_skills_high ss)
  pub pet0 :
      Tracked r.has_extra_pet_hp_1000.slot0 r.extra_pet_hp_1000.slot0
        r.duplicate_extra_pet_hp_1000.slot0
        (values is_pet0 ss)
  pub pet1 :
      Tracked r.has_extra_pet_hp_1000.slot1 r.extra_pet_hp_1000.slot1
        r.duplicate_extra_pet_hp_1000.slot1
        (values is_pet1 ss)
  pub focused :
      Tracked r.has_focused_pet_id r.focused_pet_id r.duplicate_focused_pet_id
        (values is_focused ss)
  pub oversized : r.invalid_classes_bitmask ≡ ltb 0 (length (values is_oversized_classes ss))
  pub oversized_value : r.invalid_classes_bitmask_value ≡ last_or 0 (values is_oversized_classes ss)
  pub not_understood : r.unknown_entry_count ≡ length (values is_unknown ss)
  pub known : r.recognized_entry_count ≡ length (values is_known_key ss)

module _ (r : ParseResult) (ss : List Stat) (s : Stat) (h : Records r ss) where
  abbrev r' : ParseResult
  r' = take_entry r s.key s.value

  classes_step :
      Tracked r'.has_classes_bitmask r'.classes_bitmask r'.duplicate_classes_bitmask
        (values is_classes ss ++ (if is_classes s then s.value ∷ [] else []))
  unfolding take_entry
  classes_step =
      advance (is_classes s) s.value _ _ _ _ _ _ _ h.classes (λ e. ground arith) (λ e. ground arith)

  skills_low_step :
      Tracked r'.has_activated_skill_mask_low r'.activated_skill_mask_low
        r'.duplicate_activated_skill_mask_low
        (values is_skills_low ss ++ (if is_skills_low s then s.value ∷ [] else []))
  unfolding take_entry
  skills_low_step =
      advance (is_skills_low s) s.value _ _ _ _ _ _ _ h.skills_low (λ e. ground arith)
        (λ e. ground arith)

  skills_high_step :
      Tracked r'.has_activated_skill_mask_high r'.activated_skill_mask_high
        r'.duplicate_activated_skill_mask_high
        (values is_skills_high ss ++ (if is_skills_high s then s.value ∷ [] else []))
  unfolding take_entry
  skills_high_step =
      advance (is_skills_high s) s.value _ _ _ _ _ _ _ h.skills_high (λ e. ground arith)
        (λ e. ground arith)

  pet0_step :
      Tracked r'.has_extra_pet_hp_1000.slot0 r'.extra_pet_hp_1000.slot0
        r'.duplicate_extra_pet_hp_1000.slot0
        (values is_pet0 ss ++ (if is_pet0 s then s.value ∷ [] else []))
  unfolding take_entry
  pet0_step =
      advance (is_pet0 s) s.value _ _ _ _ _ _ _ h.pet0 (λ e. ground arith) (λ e. ground arith)

  pet1_step :
      Tracked r'.has_extra_pet_hp_1000.slot1 r'.extra_pet_hp_1000.slot1
        r'.duplicate_extra_pet_hp_1000.slot1
        (values is_pet1 ss ++ (if is_pet1 s then s.value ∷ [] else []))
  unfolding take_entry
  pet1_step =
      advance (is_pet1 s) s.value _ _ _ _ _ _ _ h.pet1 (λ e. ground arith) (λ e. ground arith)

  focused_step :
      Tracked r'.has_focused_pet_id r'.focused_pet_id r'.duplicate_focused_pet_id
        (values is_focused ss ++ (if is_focused s then s.value ∷ [] else []))
  unfolding take_entry
  focused_step =
      advance (is_focused s) s.value _ _ _ _ _ _ _ h.focused (λ e. ground arith) (λ e. ground arith)

  oversized_step :
      let vs =
        values is_oversized_classes ss ++ (if is_oversized_classes s then s.value ∷ [] else []) in
      (r'.invalid_classes_bitmask ≡ ltb 0 (length vs))
      × (r'.invalid_classes_bitmask_value ≡ last_or 0 vs)
  unfolding take_entry
  oversized_step =
      let vs = values is_oversized_classes ss in
      elim (Bool-cases (is_oversized_classes s)) [
        | inl hit ↦ rw hit (
          ground (arith, length-append vs (s.value ∷ [])),
          ground (arith, last_or-append 0 s.value vs),
        )
        | inr miss ↦
            rw (miss, append-nil) (ground (arith, h.oversized), ground (arith, h.oversized_value))
      ]

  known_step :
      let vs = values is_known_key ss ++ (if is_known_key s then s.value ∷ [] else []) in
      r'.recognized_entry_count ≡ length vs
  unfolding take_entry
  known_step =
      let vs = values is_known_key ss in
      ground (arith, h.known, length-append vs (s.value ∷ []), append-nil vs)

  unknown_step :
      let vs = values is_unknown ss ++ (if is_unknown s then s.value ∷ [] else []) in
      r'.unknown_entry_count ≡ length vs
  unfolding take_entry
  unknown_step =
      let vs = values is_unknown ss in
      ground (arith, h.not_understood, length-append vs (s.value ∷ []), append-nil vs)

  -- The `switch` keeps the record of the entries up to date.
  pub take_entry-Records : Records r' (ss ++ s ∷ [])
  take_entry-Records = record {
    classes = rw values-append classes_step;
    skills_low = rw values-append skills_low_step;
    skills_high = rw values-append skills_high_step;
    pet0 = rw values-append pet0_step;
    pet1 = rw values-append pet1_step;
    focused = rw values-append focused_step;
    oversized = rw values-append oversized_step.0;
    oversized_value = rw values-append oversized_step.1;
    known = rw values-append known_step;
    not_understood = rw values-append unknown_step;
  }

-- The entries, one after the other.
unfoldable pub take_entries : ParseResult → List Stat → ParseResult
take_entries r [] = r
take_entries r (s ∷ ss) = take_entries (take_entry r s.key s.value) ss

pub take_entries-Records :
    (r : ParseResult) (past ss : List Stat)
    → Records r past
    → Records (take_entries r ss) (past ++ ss)
unfolding take_entries
take_entries-Records r past [] h = rw append-nil h
take_entries-Records r past (s ∷ ss) h = rw (← append_assoc past (s ∷ []) ss) (
    take_entries-Records (take_entry r s.key s.value) (past ++ s ∷ []) ss
      (take_entry-Records r past s h))
