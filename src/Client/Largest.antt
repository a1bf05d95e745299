-- ===== src/Client/Largest.antt =====
-- What the value of a skill over the character's classes is: the largest of the answers.
use mathlib.Core.Path.{fun_ext, subst}
use mathlib.Core.Option.{some-injective}
use native.Mathlib.Decide.{ℕ_discrete}
use eqemu_monomyth_client.Prelude.{
  ℕ, zero, suc, ◌+◌, ◌^◌, ◌<◌, ◌≡◌, ◌⊎◌, ◌∙◌, refl, sym, ap, inl, inr, Bool, true, Bool-cases, not,
  ◌==◌, ◌||◌, Option, none, some, Option-cases, arith, if◌then◌else◌,
}
use eqemu_monomyth_client.Prelude.Int.{ℤ, is_positive}
use eqemu_monomyth_client.AuthStats.Read.{Pages}
use eqemu_monomyth_client.AuthStats.Observe.{Snapshot}
use eqemu_monomyth_client.Identity.Mask.{has_class, is_playable_class_mask, has_authoritative_class}
use eqemu_monomyth_client.Identity.Membership.{Holds, has_class_iff}
use eqemu_monomyth_client.Client.Override.{
  TemporaryLocalClassOverrideState, blank_state, try_apply_temporary_local_class_override,
  restore_temporary_local_class_override,
}
use eqemu_monomyth_client.Client.Originals.{AreBytes}
use eqemu_monomyth_client.Client.Restored.{restore-apply, apply_refused}
use eqemu_monomyth_client.Client.Best.{
  less, larger, is_local_char_data_context, ask_as_class, evaluate_from,
  evaluate_best_authoritative_skills_window_skill_value,
}
use eqemu_monomyth_client.Client.Compare.{
  LessEq, LessEq-refl, LessEq-trans, less-LessEq, not_less-LessEq,
}
use eqemu_monomyth_client.Client.Asked.{Asked, Asked-iff, Asked-masks}

-- The client's function, if there is one, leaves the memory as it finds it.
abbrev pub WritesNothing : Option (Pages → Pages × Option ℤ) → Type 0
WritesNothing none = Unit {0}
WritesNothing (some original) = (m : Pages) → (original m).0 ≡ m

module _ (protect : ℕ → ℕ → Bool) (module_base : ℕ) (original : Pages → Pages × Option ℤ) (mask : ℕ)
    (memory : Pages) where
  abbrev applied : ℕ → (Pages × TemporaryLocalClassOverrideState) × Bool
  applied class_id =
      try_apply_temporary_local_class_override protect module_base class_id blank_state memory

  -- The class is one of the mask, it can be put in, and the client's function answers `v` with it.
  abbrev pub Answers : ℕ → ℤ → Type 0
  Answers class_id v =
      Holds mask class_id
      × ((applied class_id).1 ≡ true)
      × ((original (applied class_id).0.0).1 ≡ some v)

  -- The largest of the client's own answer and those for the classes below `bound`.
  pub record IsLargest (bound : ℕ) (native_result result : ℤ) : Type 0 where
    pub from : (result ≡ native_result) ⊎ ((c : ℕ) × (c < bound) × Answers c result)
    pub at_least_native : LessEq native_result result
    pub at_least : (c : ℕ) (v : ℤ) → c < bound → Answers c v → LessEq v result

  -- No answer for a class: the bound goes on.
  IsLargest-skip :
      (b : ℕ) (native best : ℤ)
      → ((v : ℤ) → Answers b v → ⊥)
      → IsLargest b native best
      → IsLargest (b + 1) native best
  IsLargest-skip b native best none_here h = record {
    from = elim h.from [
      | inl own ↦ inl own
      | inr (c, lt, answer) ↦ inr (c, omega (arith, lt), answer)
    ];
    at_least_native = h.at_least_native;
    at_least = λ c v lt answer. elim (ℕ_discrete c b) [
      | yes here ↦ absurd (none_here v (subst (λ x. Answers x v) here answer))
      | no other ↦ h.at_least c v (omega (arith, lt, other)) answer
    ];
  }

  -- A class has one answer.
  one_answer : (b : ℕ) (v w : ℤ) → Answers b v → Answers b w → LessEq w v
  one_answer b v w answer other =
      let same : v ≡ w = some-injective v w (sym answer.2 ∙ other.2) in
      subst (λ x. LessEq x v) same (LessEq-refl v)

  -- An answer that is above the best so far, or is not.
  IsLargest-larger :
      (b : ℕ) (native best v : ℤ)
      → Answers b v
      → IsLargest b native best
      → IsLargest (b + 1) native (larger best (some v))
  IsLargest-larger b native best v answer h = elim (Bool-cases (less best v)) [
    | inl above ↦ simp (above) (record {
      from = inr (b, omega arith, answer);
      at_least_native = LessEq-trans native best v h.at_least_native (less-LessEq best v above);
      at_least = λ c w lt other. elim (ℕ_discrete c b) [
        | yes here ↦ one_answer b v w answer (subst (λ x. Answers x w) here other)
        | no apart ↦
            LessEq-trans w best v (h.at_least c w (omega (arith, lt, apart)) other)
              (less-LessEq best v above)
      ];
    })
    | inr below ↦ simp (below) (record {
      from = elim h.from [
        | inl own ↦ inl own
        | inr (c, lt, answered) ↦ inr (c, omega (arith, lt), answered)
      ];
      at_least_native = h.at_least_native;
      at_least = λ c w lt other. elim (ℕ_discrete c b) [
        | yes here ↦
            LessEq-trans w v best (one_answer b v w answer (subst (λ x. Answers x w) here other))
              (not_less-LessEq best v below)
        | no apart ↦ h.at_least c w (omega (arith, lt, apart)) other
      ];
    })
  ]

  module _ (small : AreBytes memory) (silent : (m : Pages) → (original m).0 ≡ m) where
    -- A round leaves the memory, and gives the answer for the class.
    ask_as_class-eq :
        (b : ℕ)
        → ask_as_class protect module_base original b memory
          ≡ (memory, if (applied b).1 then (original (applied b).0.0).1 else none)
    unfolding ask_as_class
    ask_as_class-eq b = elim (Bool-cases (applied b).1) [
      | inr failed ↦
          simp (failed)
            (ap (λ m. (m, none)) (apply_refused protect module_base b blank_state memory failed))
      | inl done ↦
          let back : (restore_temporary_local_class_override protect (applied b).0.1
                (original (applied b).0.0).0).0
              ≡ memory =
            ap (λ m. (restore_temporary_local_class_override protect (applied b).0.1 m).0)
              (silent (applied b).0.0)
            ∙ fun_ext (λ i. restore-apply protect module_base b i blank_state memory small done) in
          simp (done) (ap (λ m. (m, (original (applied b).0.0).1)) back)
    ]

    round-IsLargest :
        (b : ℕ) (native best : ℤ)
        → Holds mask b
        → IsLargest b native best
        → IsLargest
            (b + 1)
            native
            (larger best (if (applied b).1 then (original (applied b).0.0).1 else none))
    round-IsLargest b native best held h = elim (Bool-cases (applied b).1) [
      | inr failed ↦ simp (failed) (IsLargest-skip b native best (λ v a. let done = a.1 in cc) h)
      | inl done ↦ elim (Option-cases (original (applied b).0.0).1) [
        | inl fault ↦
            simp (done, fault) (IsLargest-skip b native best (λ v a. let answered = a.2 in cc) h)
        | inr (v, answered) ↦
            simp (done, answered) (IsLargest-larger b native best v (held, done, answered) h)
      ]
    ]

    evaluate_from-IsLargest :
        (left b bound : ℕ) (snapshot : Snapshot) (native best : ℤ)
        → left + b ≡ bound
        → ((c : ℕ)
            → has_authoritative_class snapshot.has_classes_bitmask snapshot.classes_bitmask c
              ≡ has_class mask c)
        → IsLargest b native best
        → let r = evaluate_from protect module_base original left b snapshot best memory in
          (r.0 ≡ memory) × IsLargest bound native r.1
    unfolding evaluate_from
    evaluate_from-IsLargest zero b bound snapshot native best reach same h =
        let here : b ≡ bound = omega (arith, reach) in
        (refl, subst (λ x. IsLargest x native best) here h)
    evaluate_from-IsLargest (suc left) b bound snapshot native best reach same h =
        elim (Bool-cases (has_class mask b)) [
          | inr other ↦
              let absent = same b ∙ other in
              simp (absent) (
                evaluate_from-IsLargest left (b + 1) bound snapshot native best
                  (omega (arith, reach)) same
                  (IsLargest-skip b native best
                    (λ v a. let held = (has_class_iff mask b).1 a.0 in cc) h))
          | inl held ↦
              let present = same b ∙ held in
              simp (present, ask_as_class-eq b)
                (evaluate_from-IsLargest left (b + 1) bound snapshot native _ (omega (arith, reach))
                  same (round-IsLargest b native best ((has_class_iff mask b).0 held) h))
        ]

-- The client's function is null, and the answer is the client's own; or the classes are asked, and
-- it is the largest one; or they are not, and it is the client's own.
abbrev pub Outcome :
    (ℕ → ℕ → Bool) → ℕ → Option (Pages → Pages × Option ℤ) → ℕ → ℤ → Snapshot → Pages → ℤ → Type 0
Outcome protect module_base none this_context native_result snapshot memory result =
    result ≡ native_result
Outcome protect module_base (some original) this_context native_result snapshot memory result =
    (Asked module_base this_context native_result snapshot memory
      × IsLargest protect module_base original snapshot.classes_bitmask memory 17 native_result
          result)
    ⊎ ((Asked module_base this_context native_result snapshot memory → ⊥)
        × (result ≡ native_result))

-- The value of a skill, for a client's function that writes nothing. The client's memory is as it
-- was. The value is the client's own answer where the function is null, the client's own answer is
-- above 0, the mask is unknown, 0 or not below 2 ^ 16, or the context is null or not the local
-- character's data. Everywhere else it is the largest of the client's own answer and the answers of
-- its function with each class of the mask put in, where it can be put in and the function answers.
-- For memory whose bytes are below 256 and a mask of 32 bits.
pub evaluate_best-largest :
    (protect : ℕ → ℕ → Bool) (module_base : ℕ) (producer : Option (Pages → Pages × Option ℤ))
    (this_context : ℕ) (native_result : ℤ) (snapshot : Snapshot) (memory : Pages)
    → AreBytes memory
    → snapshot.classes_bitmask < 2 ^ 32
    → WritesNothing producer
    → let r =
        evaluate_best_authoritative_skills_window_skill_value protect module_base producer
          this_context native_result snapshot memory in
      (r.0 ≡ memory)
      × Outcome protect module_base producer this_context native_result snapshot memory r.1
unfolding evaluate_best_authoritative_skills_window_skill_value
evaluate_best-largest protect module_base none this_context native_result snapshot memory small fits
      silent =
    (refl, refl)
evaluate_best-largest protect module_base (some original) this_context native_result snapshot memory
      small fits silent =
    let conditions = Asked-iff module_base this_context native_result snapshot memory fits in
    elim (Bool-cases (
      is_positive native_result
      || not snapshot.has_classes_bitmask
      || snapshot.classes_bitmask == 0
      || not (is_playable_class_mask snapshot.classes_bitmask)
      || not (is_local_char_data_context module_base memory this_context))) [
        | inl kept ↦ simp (kept) (refl, inr ((λ a. let open_ = conditions.1 a in cc), refl))
        | inr open_ ↦
            let asked = conditions.0 open_ in
            let loop =
              evaluate_from-IsLargest protect module_base original snapshot.classes_bitmask memory
                small silent 16 1 17 snapshot native_result native_result refl
                (Asked-masks module_base this_context native_result snapshot memory fits asked)
                (record {
                  from = inl refl;
                  at_least_native = LessEq-refl native_result;
                  at_least =
                      λ c v lt answer. absurd (let low = answer.0.0 in omega (arith, lt, low));
                }) in
            simp (open_) (loop.0, inl (asked, loop.1))
      ]
