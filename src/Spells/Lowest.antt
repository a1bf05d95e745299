-- ===== src/Spells/Lowest.antt =====
-- The level that is selected is the lowest one.
use Prim.Native.String.{String}
use mathlib.Core.Path.{subst}
use native.Mathlib.Nat.{add-zero}
use native.Mathlib.Decide.{ℕ_discrete}
use eqemu_monomyth_client.Prelude.{
  ℕ, zero, suc, ◌+◌, ◌≤◌, ◌<◌, ◌≡◌, ◌⊎◌, refl, sym, ap, inl, inr, Bool, true, false, Bool-cases,
  not, ltb, ◌&&◌, ◌||◌, some, arith, if◌then◌else◌,
}
use eqemu_monomyth_client.Identity.Mask.{has_class}
use eqemu_monomyth_client.Identity.Membership.{has_class_iff}
use eqemu_monomyth_client.Identity.Closed.{usable_mask}
use eqemu_monomyth_client.Spells.Level.{
  SelectionResult, fallback, is_valid_required_level, consider_class, consider_from,
  select_assigned, select_lowest_valid_required_level,
}

module _ (query : ℕ → ℕ) (mask : ℕ) where
  -- A class of the mask for which the spell has a valid level.
  abbrev pub is_candidate : ℕ → Bool
  is_candidate class_id = has_class mask class_id && is_valid_required_level (query class_id)

  -- No candidate below `bound`.
  abbrev pub NoneBelow : ℕ → Type 0
  NoneBelow bound = (c : ℕ) → c < bound → is_candidate c ≡ false

  -- The selected class is a candidate, of the lowest level and, among those, of the lowest id.
  pub record IsLowest (bound : ℕ) (r : SelectionResult) : Type 0 where
    pub used : r.used_assigned_class ≡ true
    pub candidate : is_candidate r.selected_class ≡ true
    pub inside : r.selected_class < bound
    pub level_of : r.level ≡ query r.selected_class
    pub lowest :
        (c : ℕ)
        → c < bound
        → is_candidate c ≡ true
        → (r.level < query c) ⊎ ((r.level ≡ query c) × (r.selected_class ≤ c))

  abbrev State : ℕ → SelectionResult → Type 0
  State bound r = ((r.used_assigned_class ≡ false) × NoneBelow bound) ⊎ IsLowest bound r

  consider_class_skip :
      (c : ℕ) (r : SelectionResult) → is_candidate c ≡ false → consider_class query mask c r ≡ r
  unfolding consider_class
  consider_class_skip c r h = ground arith

  consider_class_take :
      (c : ℕ) (r : SelectionResult)
      → is_candidate c ≡ true
      → (not r.used_assigned_class || ltb (query c) r.level) ≡ true
      → consider_class query mask c r ≡ record {
        level = query c;
        selected_class = c;
        used_assigned_class = true;
        fallback_reason = "";
      }
  unfolding consider_class
  consider_class_take c r h k = ground arith

  consider_class_keep :
      (c : ℕ) (r : SelectionResult)
      → (not r.used_assigned_class || ltb (query c) r.level) ≡ false
      → consider_class query mask c r ≡ r
  unfolding consider_class
  consider_class_keep c r k = ground arith

  NoneBelow-suc : (b : ℕ) → NoneBelow b → is_candidate b ≡ false → NoneBelow (b + 1)
  NoneBelow-suc b h k c lt = elim (ℕ_discrete c b) [ yes e ↦ rw e k | no ne ↦ h c (omega arith) ]

  State-skip : (b : ℕ) (r : SelectionResult) → is_candidate b ≡ false → State b r → State (b + 1) r
  State-skip b r k (inl (u, h)) = inl (u, NoneBelow-suc b h k)
  State-skip b r k (inr h) = inr (record {
    used = h.used;
    candidate = h.candidate;
    inside = omega (arith, h.inside);
    level_of = h.level_of;
    lowest = λ c lt good. elim (ℕ_discrete c b) [
      | yes e ↦ absurd (ground arith)
      | no ne ↦ h.lowest c (omega arith) good
    ];
  })

  abbrev taken : ℕ → SelectionResult
  taken b = record {
    level = query b;
    selected_class = b;
    used_assigned_class = true;
    fallback_reason = "";
  }

  -- The first candidate, or one with a lower level than all before.
  IsLowest-taken :
      (b : ℕ)
      → is_candidate b ≡ true
      → ((c : ℕ) → c < b → is_candidate c ≡ true → query b < query c)
      → IsLowest (b + 1) (taken b)
  IsLowest-taken b k lower = record {
    used = refl;
    candidate = k;
    inside = omega arith;
    level_of = refl;
    lowest = λ c lt good. elim (ℕ_discrete c b) [
      | yes e ↦ inr (ap query (sym e), omega (arith, e))
      | no ne ↦ inl (lower c (omega arith) good)
    ];
  }

  State-take :
      (b : ℕ) (r : SelectionResult)
      → is_candidate b ≡ true
      → State b r
      → State (b + 1) (consider_class query mask b r)
  State-take b r k (inl (u, h)) =
      rw (consider_class_take b r k (ground (arith, u)))
        (inr (IsLowest-taken b k (λ c lt good. absurd (ground (arith, h c lt)))))
  State-take b r k (inr h) = elim (Bool-cases (ltb (query b) r.level)) [
    | inl better ↦
        rw (consider_class_take b r k (ground arith))
          (inr (IsLowest-taken b k (λ c lt good. ground (arith, h.lowest c lt good))))
    | inr worse ↦ rw (consider_class_keep b r (ground (arith, h.used, worse))) (
        inr (record {
          used = h.used;
          candidate = h.candidate;
          inside = omega (arith, h.inside);
          level_of = h.level_of;
          lowest = λ c lt good. elim (ℕ_discrete c b) [
            | yes e ↦
                let same : query c ≡ query b = ap query e in ground (arith, h.inside, same, worse)
            | no ne ↦ h.lowest c (omega arith) good
          ];
        }))
  ]

  consider_from-State :
      (left b : ℕ) (r : SelectionResult)
      → State b r
      → State (b + left) (consider_from query mask left b r)
  unfolding consider_from
  consider_from-State zero b r s = rw add-zero s
  consider_from-State (suc left) b r s =
      let e : b + 1 + left ≡ b + suc left = omega arith in
      let next : State (b + 1) (consider_class query mask b r) =
        elim (Bool-cases (is_candidate b)) [
          | inl good ↦ State-take b r good s
          | inr bad ↦ rw (consider_class_skip b r bad) (State-skip b r bad s)
        ] in
      subst (λ n. State n (consider_from query mask left (b + 1) (consider_class query mask b r))) e
        (consider_from-State left (b + 1) (consider_class query mask b r) next)

  -- No class outside 1 to 16 is a candidate.
  candidate_small : (c : ℕ) → is_candidate c ≡ true → (1 ≤ c) × (c < 17)
  candidate_small c h = let k = (has_class_iff mask c).0 (ground arith) in omega (arith, k.0, k.1)

  fresh_State : (level : ℕ) (why : String) → State 1 (fallback level why)
  unfolding fallback
  fresh_State level why = inl (
    refl,
    λ c lt. elim (Bool-cases (is_candidate c)) [
      | inl good ↦ absurd (omega (arith, candidate_small c good))
      | inr bad ↦ bad
    ],
  )

-- A selection of the lowest level: some class of the mask has a valid level, and the result is
-- the lowest of these levels, with the lowest class id that has it; or none has, and the result
-- is the original level.
abbrev pub Selects : (ℕ → ℕ) → ℕ → ℕ → SelectionResult → Type 0
Selects query mask original r =
    (((c : ℕ) → is_candidate query mask c ≡ false)
      × (r ≡ fallback original "no_valid_assigned_class"))
    ⊎ IsLowest query mask 17 r

select_assigned-Selects :
    (query : ℕ → ℕ) (mask original : ℕ)
    → Selects query mask original (select_assigned query mask original)
unfolding select_assigned
select_assigned-Selects query mask original =
    finish (consider_from query mask 16 1 (fallback original "no_valid_assigned_class")) (
      consider_from-State query mask 16 1 _
        (fresh_State query mask original "no_valid_assigned_class"))
  where
    finish :
        (r : SelectionResult)
        → ((r.used_assigned_class ≡ false) × NoneBelow query mask 17) ⊎ IsLowest query mask 17 r
        → Selects query mask original
            (if not r.used_assigned_class then fallback original "no_valid_assigned_class" else r)
    finish r (inl (u, none_below)) = simp u (
        inl (
          λ c. elim (Bool-cases (is_candidate query mask c)) [
            | inl good ↦ none_below c (candidate_small query mask c good).1
            | inr bad ↦ bad
          ],
          refl,
        ))
    finish r (inr lowest) = simp (lowest.used) (inr lowest)

select_usable :
    (query : ℕ → ℕ) (known : Bool) (mask original : ℕ)
    → usable_mask known mask ≡ true
    → select_lowest_valid_required_level (some query) known mask original
      ≡ select_assigned query mask original
unfolding select_lowest_valid_required_level
select_usable query known mask original usable = ground arith

-- For a known mask of playable classes that is not empty and a callback that is there,
-- SelectLowestValidRequiredLevel selects, among the classes of the mask for which the callback
-- gives a level other than 0 and 255, the lowest level and the lowest class id that has it; when
-- there is none it gives the original level and says so.
pub select_lowest_valid_required_level-Selects :
    (query : ℕ → ℕ) (known : Bool) (mask original : ℕ)
    → usable_mask known mask ≡ true
    → Selects query mask original
        (select_lowest_valid_required_level (some query) known mask original)
select_lowest_valid_required_level-Selects query known mask original usable =
    rw (select_usable query known mask original usable)
      (select_assigned-Selects query mask original)
