-- ===== src/Retry/Live.antt =====
-- A retry comes to its end, and the caster windows are opened where they are to be.
use eqemu_monomyth_client.Prelude.{
  ℕ, ◌+◌, ◌%◌, ◌^◌, ◌≤◌, ◌<◌, ◌≡◌, ◌∙◌, ◌⊎◌, refl, sym, ap, inl, inr, Bool, true, false, Bool-cases,
  not, ltb, leb, ◌==◌, ◌!=◌, ◌||◌, ◌&&◌, List, [], ◌∷◌, Option-cases, length, arith,
}
use mathlib.Core.Path.{subst}
use eqemu_monomyth_client.Identity.Mask.{
  is_playable_class_id, is_casting_class_id, has_authoritative_class,
  has_any_authoritative_casting_class,
}
use eqemu_monomyth_client.Retry.State.{
  Retry, cleared, settle, should_arm_deferred_multiclass_caster_ui_access_retry,
}
use eqemu_monomyth_client.Retry.Ensure.{
  Answers, Ui, read_or, resolved_command, is_resolved, open_caster_windows, ensure_for_class,
  try_ensure_multiclass_caster_ui_access_for_assigned_mask,
}
use eqemu_monomyth_client.Retry.Pending.{
  Globals, CasterAnswers, is_pointer, attempt_caster, try_retry_pending_multiclass_caster_ui_access,
}
use eqemu_monomyth_client.Retry.Notify.{Event, caster_trigger, handle, run}
use eqemu_monomyth_client.Retry.Bounded.{IsBounded}

-- The triggers of the caster windows' retry, with their ticks and the client's answers.
abbrev pub triggers : List (ℕ × CasterAnswers) → List Event
triggers [] = []
triggers (turn ∷ turns) = caster_trigger turn.0 turn.1 ∷ triggers turns

-- Each trigger comes when the cooldown is over and the local player is there.
abbrev pub Spaced : ℕ → List (ℕ × CasterAnswers) → Type 0
Spaced next [] = Unit {0}
Spaced next (turn ∷ turns) =
    (next ≤ turn.0)
    × (turn.0 + 1000 < 2 ^ 64)
    × (is_pointer turn.1.local_player ≡ true)
    × Spaced (turn.0 + 1000) turns

-- What a due attempt leaves of the retry: nothing, or one attempt more and the cooldown.
attempted :
    (r : Retry) (tick : ℕ) (success still_eligible : Bool)
    → r.attempt_count < 30
    → tick + 1000 < 2 ^ 64
    → (settle r tick success still_eligible ≡ cleared)
      ⊎ (settle r tick success still_eligible
          ≡ record r { attempt_count = r.attempt_count + 1; next_tick_ms = tick + 1000 })
        × (r.attempt_count + 1 < 30)
unfolding settle
attempted r tick success still_eligible few small =
    let count : (r.attempt_count + 1) % 2 ^ 32 ≡ r.attempt_count + 1 = omega (arith, few) in
    let wait : (tick + 1000) % 2 ^ 64 ≡ tick + 1000 = omega (arith, small) in
    elim (Bool-cases (success || not still_eligible)) [
      | inl over ↦ inl (rw over refl)
      | inr goes_on ↦ elim (Bool-cases (leb 30 (r.attempt_count + 1))) [
        | inl spent ↦ inl (rw (goes_on, count, spent) refl)
        | inr left ↦ inr (rw (goes_on, count, left, wait) refl, ground (arith, left))
      ]
    ]

cleared-handle :
    (g : Globals) (tick : ℕ) (answers : CasterAnswers)
    → g.caster ≡ cleared
    → handle (caster_trigger tick answers) g ≡ g
unfolding handle try_retry_pending_multiclass_caster_ui_access
cleared-handle g tick answers idle =
    let off : g.caster.pending ≡ false = ap (λ r. r.pending) idle in simp off

cleared-run :
    (turns : List (ℕ × CasterAnswers)) (g : Globals)
    → g.caster ≡ cleared
    → (run (triggers turns) g).caster ≡ cleared
unfolding run
cleared-run [] g idle = idle
cleared-run (turn ∷ turns) g idle =
    let same = cleared-handle g turn.0 turn.1 idle in
    cleared-run turns (handle (caster_trigger turn.0 turn.1) g) (ap (λ h. h.caster) same ∙ idle)

-- A due trigger with the player there makes an attempt.
due-handle :
    (g : Globals) (tick : ℕ) (answers : CasterAnswers)
    → g.caster.pending ≡ true
    → (g.caster.mask == 0) ≡ false
    → g.caster.attempt_count < 30
    → g.caster.next_tick_ms ≤ tick
    → is_pointer answers.local_player ≡ true
    → handle (caster_trigger tick answers) g ≡ attempt_caster tick answers g
unfolding handle try_retry_pending_multiclass_caster_ui_access
due-handle g tick answers pending some_mask few due there =
    let left : leb 30 g.caster.attempt_count ≡ false = ground (arith, few) in
    let early : (g.caster.next_tick_ms != 0 && ltb tick g.caster.next_tick_ms) ≡ false =
      ground (arith, due) in
    simp (pending, some_mask, early, left, there)

module _ (tick : ℕ) (answers : CasterAnswers) (g : Globals) where
  attempt_caster-settle :
      (few : g.caster.attempt_count < 30)
      → tick + 1000 < 2 ^ 64
      → ((attempt_caster tick answers g).caster ≡ cleared)
        ⊎ ((attempt_caster tick answers g).caster ≡ record g.caster {
          attempt_count = g.caster.attempt_count + 1;
          next_tick_ms = tick + 1000;
        })
          × (g.caster.attempt_count + 1 < 30)
  unfolding attempt_caster
  attempt_caster-settle few small = attempted g.caster tick _ _ few small

-- The retry of the caster windows ends: where a trigger comes after each cooldown with the local
-- player there, the retry is cleared after as many triggers as it had attempts left, whatever else
-- the client answers.
pub caster_retry_ends :
    (turns : List (ℕ × CasterAnswers)) (g : Globals)
    → IsBounded g.caster
    → Spaced g.caster.next_tick_ms turns
    → 30 ≤ g.caster.attempt_count + length turns
    → (run (triggers turns) g).caster ≡ cleared
unfolding run
caster_retry_ends turns g (inl idle) spaced enough = cleared-run turns g idle
caster_retry_ends [] g (inr (pending, some_mask, few)) spaced enough =
    absurd (omega (arith, few, enough))
caster_retry_ends (turn ∷ turns) g (inr (pending, some_mask, few)) (due, small, there, later)
      enough =
    let made = due-handle g turn.0 turn.1 pending some_mask few due there in
    let next = handle (caster_trigger turn.0 turn.1) g in
    elim (attempt_caster-settle turn.0 turn.1 g few small) [
      | inl over ↦ cleared-run turns next (ap (λ h. h.caster) made ∙ over)
      | inr (goes_on, left) ↦
          let now = ap (λ h. h.caster) made ∙ goes_on in
          let count = ap (λ r. r.attempt_count) now in
          let tick = ap (λ r. r.next_tick_ms) now in
          caster_retry_ends turns next
            (inr (
              ap (λ r. r.pending) now ∙ pending,
              ap (λ r. r.mask == 0) now ∙ some_mask,
              omega (arith, count, left),
            ))
            (subst (λ t. Spaced t turns) (sym tick) later) (omega (arith, count, enough))
    ]

-- Some window or the command was found.
abbrev pub any_ui_attempt : Answers → Bool
any_ui_attempt answers =
    is_resolved (resolved_command answers)
    || read_or answers.cast_spell_window_after (read_or answers.cast_spell_window 0) != 0
    || read_or answers.spellbook_window_after (read_or answers.spellbook_window 0) != 0

open_caster_windows-done :
    (answers : Answers) (mask class_id : ℕ) (ui : Ui)
    → (open_caster_windows answers mask class_id ui).1 ≡ any_ui_attempt answers
unfolding open_caster_windows
open_caster_windows-done answers mask class_id ui = elim (Bool-cases (any_ui_attempt answers)) [
  | inl found ↦ simp (found)
  | inr absent ↦ simp (absent)
]

ensure_for_class-done :
    (answers : Answers) (mask class_id : ℕ) (ui : Ui)
    → (ensure_for_class answers mask class_id ui).1 ≡ (
        not (
          not (is_playable_class_id class_id)
          || is_casting_class_id class_id
          || not (has_authoritative_class true mask class_id))
        && any_ui_attempt answers)
unfolding ensure_for_class
ensure_for_class-done answers mask class_id ui = elim (Bool-cases (is_playable_class_id class_id)) [
  | inr other ↦ simp (other)
  | inl playable ↦ elim (Bool-cases (is_casting_class_id class_id)) [
    | inl caster ↦ simp (playable, caster)
    | inr melee ↦ elim (Bool-cases (has_authoritative_class true mask class_id)) [
      | inr missing ↦ simp (playable, melee, missing)
      | inl held ↦ simp (playable, melee, held) (open_caster_windows-done answers mask class_id ui)
    ]
  ]
]

-- The caster windows are ensured exactly for the classes for which a retry is armed, where some
-- window or the command is found: a retry that is armed can succeed, and one that is not armed
-- would not.
pub try_ensure-should_arm :
    (answers : Answers) (mask : ℕ) (ui : Ui)
    → (try_ensure_multiclass_caster_ui_access_for_assigned_mask answers mask ui).1 ≡ (
        should_arm_deferred_multiclass_caster_ui_access_retry answers.primary_class mask
        && any_ui_attempt answers)
unfolding try_ensure_multiclass_caster_ui_access_for_assigned_mask
    should_arm_deferred_multiclass_caster_ui_access_retry
try_ensure-should_arm answers mask ui =
    elim (Bool-cases (has_any_authoritative_casting_class true mask)) [
      | inr no_caster ↦ simp (no_caster)
      | inl caster ↦ elim (Option-cases answers.primary_class) [
        | inl unread ↦ simp (caster, unread)
        | inr (class_id, read) ↦
            simp (caster, read) (ensure_for_class-done answers mask class_id ui)
      ]
    ]
