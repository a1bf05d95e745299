-- ===== src/Retry/Bounded.antt =====
-- The retries' invariant, over any sequence of events.
use eqemu_monomyth_client.Prelude.{
  ℕ, ◌+◌, ◌%◌, ◌^◌, ◌<◌, ◌≡◌, ◌⊎◌, refl, ap, inl, inr, Bool, true, false, Bool-cases, not, ltb, leb,
  ◌==◌, ◌!=◌, ◌||◌, ◌&&◌, List, [], ◌∷◌, Option, arith, if◌then◌else◌,
}
use eqemu_monomyth_client.AuthStats.Observe.{Snapshot}
use eqemu_monomyth_client.Retry.State.{
  Retry, cleared, armed, settle, should_arm_deferred_multiclass_caster_ui_access_retry,
  is_multiclass_caster_ui_access_zone_opcode,
}
use eqemu_monomyth_client.Retry.Pending.{
  Globals, CasterAnswers, CombatAnswers, is_pointer, prerequisites, attempt_caster,
  try_retry_pending_multiclass_caster_ui_access, try_retry_pending_combat_ability_resync,
  try_rearm_multiclass_caster_ui_access_for_zone_transition,
}
use eqemu_monomyth_client.Retry.Notify.{
  NotifyAnswers, Event, auth_stats_updated, zone_transition, caster_trigger, combat_trigger,
  notify_retries, notify_server_auth_stats_updated, handle, run,
}

-- A retry is cleared, or it is armed with a mask and has attempts left.
abbrev pub IsBounded : Retry → Type 0
IsBounded r =
    (r ≡ cleared) ⊎ ((r.pending ≡ true) × ((r.mask == 0) ≡ false) × (r.attempt_count < 30))

abbrev pub BothBounded : Globals → Type 0
BothBounded g = IsBounded g.caster × IsBounded g.combat

settle-IsBounded :
    (r : Retry) (tick : ℕ) (success still_eligible : Bool)
    → r.pending ≡ true
    → (r.mask == 0) ≡ false
    → r.attempt_count < 30
    → IsBounded (settle r tick success still_eligible)
unfolding settle
settle-IsBounded r tick success still_eligible pending some_mask few =
    elim (Bool-cases (success || not still_eligible)) [
      | inl over ↦ rw over (inl refl)
      | inr goes_on ↦ elim (Bool-cases (leb 30 ((r.attempt_count + 1) % 2 ^ 32))) [
        | inl spent ↦ rw (goes_on, spent) (inl refl)
        | inr left ↦ rw (goes_on, left) (inr (pending, some_mask, ground (arith, left)))
      ]
    ]

armed-IsBounded : (mask tick : ℕ) → (mask == 0) ≡ false → IsBounded (armed mask tick)
armed-IsBounded mask tick h = inr (refl, h, omega arith)

caster-IsBounded :
    (tick : ℕ) (answers : CasterAnswers) (g : Globals)
    → BothBounded g
    → BothBounded (try_retry_pending_multiclass_caster_ui_access tick answers g)
unfolding try_retry_pending_multiclass_caster_ui_access attempt_caster
caster-IsBounded tick answers g (inl idle, combat) =
    let off : g.caster.pending ≡ false = ap (λ r. r.pending) idle in simp off (inl idle, combat)
caster-IsBounded tick answers g (inr (pending, some_mask, few), combat) =
    let r = g.caster in
    let left : leb 30 r.attempt_count ≡ false = ground (arith, few) in
    elim (Bool-cases (r.next_tick_ms != 0 && ltb tick r.next_tick_ms)) [
      | inl early ↦ simp (pending, some_mask, early) (inr (refl, refl, few), combat)
      | inr due ↦ elim (Bool-cases (is_pointer answers.local_player)) [
        | inr absent ↦ simp (pending, some_mask, due, left, absent) (inr (refl, refl, few), combat)
        | inl present ↦
            simp (pending, some_mask, due, left, present)
              (settle-IsBounded r tick _ _ pending some_mask few, combat)
      ]
    ]

combat-IsBounded :
    (tick : ℕ) (answers : CombatAnswers) (g : Globals)
    → BothBounded g
    → BothBounded (try_retry_pending_combat_ability_resync tick answers g)
unfolding try_retry_pending_combat_ability_resync
combat-IsBounded tick answers g (caster, inl idle) =
    let off : g.combat.pending ≡ false = ap (λ r. r.pending) idle in simp off (caster, inl idle)
combat-IsBounded tick answers g (caster, inr (pending, some_mask, few)) =
    let r = g.combat in
    let left : leb 30 r.attempt_count ≡ false = ground (arith, few) in
    elim (Bool-cases (r.next_tick_ms != 0 && ltb tick r.next_tick_ms)) [
      | inl early ↦ simp (pending, some_mask, early) (caster, inr (refl, refl, few))
      | inr due ↦ elim (Bool-cases (prerequisites answers)) [
        | inr absent ↦ simp (pending, some_mask, due, left, absent) (caster, inr (refl, refl, few))
        | inl present ↦
            simp (pending, some_mask, due, left, present)
              (caster, settle-IsBounded r tick _ _ pending some_mask few)
      ]
    ]

zone-IsBounded :
    (tick opcode : ℕ) (snapshot : Snapshot) (primary_class : Option ℕ) (g : Globals)
    → BothBounded g
    → BothBounded (
        try_rearm_multiclass_caster_ui_access_for_zone_transition tick opcode snapshot primary_class
          g)
unfolding try_rearm_multiclass_caster_ui_access_for_zone_transition
zone-IsBounded tick opcode snapshot primary_class g (caster, combat) =
    let mask = snapshot.classes_bitmask in
    elim (Bool-cases (is_multiclass_caster_ui_access_zone_opcode opcode)) [
      | inr other ↦ rw other (caster, combat)
      | inl zone ↦
          elim (Bool-cases (
            not snapshot.has_classes_bitmask
            || mask == 0
            || not (should_arm_deferred_multiclass_caster_ui_access_retry primary_class mask))) [
              | inl kept ↦ rw (zone, kept) (caster, combat)
              | inr rearmed ↦
                  rw (zone, rearmed) (armed-IsBounded mask _ (ground (arith, rearmed)), combat)
            ]
    ]

-- A retry that is cleared or armed anew.
restarted-IsBounded :
    (mask tick : ℕ) (over arm : Bool)
    → (mask == 0) ≡ false
    → IsBounded (if over then cleared else if arm then armed mask tick else cleared)
restarted-IsBounded mask tick true arm h = inl refl
restarted-IsBounded mask tick false true h = armed-IsBounded mask tick h
restarted-IsBounded mask tick false false h = inl refl

notify-IsBounded :
    (tick : ℕ) (snapshot : Snapshot) (answers : NotifyAnswers) (g : Globals)
    → BothBounded g
    → BothBounded (notify_server_auth_stats_updated tick snapshot answers g)
unfolding notify_server_auth_stats_updated notify_retries
notify-IsBounded tick snapshot answers g bounded =
    let mask = snapshot.classes_bitmask in
    elim (Bool-cases (not snapshot.has_classes_bitmask || mask == 0)) [
      | inl none_known ↦ rw none_known bounded
      | inr known ↦
          let some_mask : (mask == 0) ≡ false = ground (arith, known) in
          rw known
            (restarted-IsBounded mask _ _ _ some_mask, restarted-IsBounded mask _ _ _ some_mask)
    ]

handle-BothBounded : (event : Event) (g : Globals) → BothBounded g → BothBounded (handle event g)
unfolding handle
handle-BothBounded (auth_stats_updated tick snapshot answers) g h =
    notify-IsBounded tick snapshot answers g h
handle-BothBounded (zone_transition tick opcode snapshot primary_class) g h =
    zone-IsBounded tick opcode snapshot primary_class g h
handle-BothBounded (caster_trigger tick answers) g h = caster-IsBounded tick answers g h
handle-BothBounded (combat_trigger tick answers) g h = combat-IsBounded tick answers g h

-- Whatever notifications, packets and triggers come, in any order and with any answers of the
-- client, each retry is cleared or is armed with a mask and less than thirty attempts made, if
-- this holds at the start.
pub run-BothBounded :
    (events : List Event) (g : Globals) → BothBounded g → BothBounded (run events g)
unfolding run
run-BothBounded [] g h = h
run-BothBounded (event ∷ events) g h =
    run-BothBounded events (handle event g) (handle-BothBounded event g h)
