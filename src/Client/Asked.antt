-- ===== src/Client/Asked.antt =====
-- When the client's function is asked about the classes.
use mathlib.Core.Option.{some-injective}
use eqemu_monomyth_client.Prelude.{
  ℕ, ◌^◌, ◌<◌, ◌≡◌, ◌≢◌, ◌↔◌, refl, ap, inl, inr, true, false, not, ◌==◌, ◌||◌, some, Option-cases,
  arith,
}
use eqemu_monomyth_client.Prelude.Int.{ℤ, pos, negsuc, is_positive}
use eqemu_monomyth_client.AuthStats.Read.{Pages}
use eqemu_monomyth_client.AuthStats.Observe.{Snapshot}
use eqemu_monomyth_client.Identity.Mask.{has_class, is_playable_class_mask, has_authoritative_class}
use eqemu_monomyth_client.Identity.Membership.{is_playable_class_mask_iff}
use eqemu_monomyth_client.Client.Read.{try_read_local_char_data_pointer}
use eqemu_monomyth_client.Client.Best.{is_local_char_data_context}
use eqemu_monomyth_client.Client.Compare.{LessEq}

-- The classes are asked: the client's own answer is not above 0, the mask is known, not empty and
-- below 2 ^ 16, and the context is the local character's data.
abbrev pub Asked : ℕ → ℕ → ℤ → Snapshot → Pages → Type 0
Asked module_base this_context native_result snapshot memory =
    LessEq native_result (pos 0)
    × (snapshot.has_classes_bitmask ≡ true)
    × (snapshot.classes_bitmask ≢ 0)
    × (snapshot.classes_bitmask < 2 ^ 16)
    × (this_context ≢ 0)
    × (try_read_local_char_data_pointer module_base memory ≡ some this_context)

not_positive_iff : (a : ℤ) → (is_positive a ≡ false) ↔ LessEq a (pos 0)
not_positive_iff (pos n) = (λ h. ground (arith, h), λ h. ground (arith, h))
not_positive_iff (negsuc n) = (λ h. tt, λ h. refl)

context_iff :
    (module_base this_context : ℕ) (memory : Pages)
    → (is_local_char_data_context module_base memory this_context ≡ true) ↔ (
        (this_context ≢ 0)
        × (try_read_local_char_data_pointer module_base memory ≡ some this_context))
unfolding is_local_char_data_context
context_iff module_base this_context memory =
    elim (Option-cases (try_read_local_char_data_pointer module_base memory)) [
      | inl missing ↦
          rw (missing, is_local_char_data_context)
            (λ h. ground (arith, h), λ h. absurd (let e = h.1 in cc))
      | inr (p, found) ↦
          rw (found, is_local_char_data_context)
            (
              λ h. (
                (λ e. ground (arith, h, e)),
                let same : p ≡ this_context = ground (arith, h) in ap some same,
              ),
              λ h.
                  let same = some-injective p this_context h.1 in
                  let apart = h.0 in ground (arith, same, apart),
            )
    ]

-- The code's conditions are those of `Asked`.
pub Asked-iff :
    (module_base this_context : ℕ) (native_result : ℤ) (snapshot : Snapshot) (memory : Pages)
    → snapshot.classes_bitmask < 2 ^ 32
    → ((is_positive native_result
          || not snapshot.has_classes_bitmask
          || snapshot.classes_bitmask == 0
          || not (is_playable_class_mask snapshot.classes_bitmask)
          || not (is_local_char_data_context module_base memory this_context))
        ≡ false)
      ↔ Asked module_base this_context native_result snapshot memory
unfolding is_local_char_data_context
Asked-iff module_base this_context native_result snapshot memory fits =
    let positive = not_positive_iff native_result in
    let playable = is_playable_class_mask_iff snapshot.classes_bitmask fits in
    let context = context_iff module_base this_context memory in
    (
      λ h. (
        positive.0 (ground (arith, h)),
        ground (arith, h),
        (λ e. ground (arith, h, e)),
        playable.0 (ground (arith, h)),
        (context.0 (ground (arith, h))).0,
        (context.0 (ground (arith, h))).1,
      ),
      λ a.
          let low = positive.1 a.0 in
          let known = a.1 in
          let some_class = a.2 in
          let small = playable.1 a.3 in
          let here = context.1 (a.4, a.5) in ground (arith, low, known, some_class, small, here),
    )

pub Asked-masks :
    (module_base this_context : ℕ) (native_result : ℤ) (snapshot : Snapshot) (memory : Pages)
    → snapshot.classes_bitmask < 2 ^ 32
    → Asked module_base this_context native_result snapshot memory
    → (c : ℕ)
    → has_authoritative_class snapshot.has_classes_bitmask snapshot.classes_bitmask c
      ≡ has_class snapshot.classes_bitmask c
unfolding has_authoritative_class
Asked-masks module_base this_context native_result snapshot memory fits a c =
    let known = a.1 in
    let some_class = a.2 in
    let small = (is_playable_class_mask_iff snapshot.classes_bitmask fits).1 a.3 in
    ground (arith, known, some_class, small)
