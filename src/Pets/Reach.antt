-- ===== src/Pets/Reach.antt =====
-- The roster after any packets: one entry for each spawn id, in the order first seen.
use eqemu_monomyth_client.Prelude.{
  ℕ, ◌+◌, ◌^◌, ◌≤◌, ◌<◌, ◌≡◌, refl, inl, inr, false, Bool-cases, not, ltb, ◌==◌, ◌||◌, List, [],
  ◌∷◌, Option, none, some, Option-cases, length, is_nil, arith,
}
use eqemu_monomyth_client.Wire.Bytes.{Memory}
use eqemu_monomyth_client.Pets.Parse.{ParsedSpawnEntry, parse_single_spawn_payload, try_read_u32}
use eqemu_monomyth_client.Pets.Roster.{
  Roster, LogLine, cleared, next_count, find_entry_by_spawn_id, log_spawn_observe,
  log_delete_observe, put_spawn, observe_spawn_payload, delete_spawn, observe_delete_spawn_payload,
  clear, should_log,
}
use eqemu_monomyth_client.Pets.Order.{
  RosterOk, InOrder-append, find_entry-none, find_entry-some, write_entry-InOrder,
}

-- One call of the observer's interface.
pub data Event : Type 0 where
  spawn : Option Memory → ℕ → Event
  delete : Option Memory → ℕ → Event
  clears : Event

unfoldable pub step : Roster → Event → Roster
step r (spawn payload payload_length) = observe_spawn_payload r payload payload_length
step r (delete payload payload_length) = observe_delete_spawn_payload r payload payload_length
step r clears = clear r

unfoldable pub run : Roster → List Event → Roster
run r [] = r
run r (e ∷ es) = run (step r e) es

-- The next order does not wrap before this many packets.
put_spawn-RosterOk :
    (r : Roster) (entry : ParsedSpawnEntry)
    → r.next_first_seen_order + 1 < 2 ^ 64
    → RosterOk r
    → RosterOk (put_spawn r entry)
      × (put_spawn r entry).next_first_seen_order ≤ r.next_first_seen_order + 1
unfolding put_spawn
put_spawn-RosterOk r entry room ok =
    elim (Option-cases (find_entry_by_spawn_id entry.spawn_id r.entries)) [
      | inl fresh ↦
          let wrap : next_count r.next_first_seen_order ≡ r.next_first_seen_order + 1 =
            omega arith in
          rw (fresh, wrap, put_spawn)
            (
              InOrder-append 1 r.next_first_seen_order r.entries _ ok refl
                  (find_entry-none entry.spawn_id r.entries fresh),
              omega arith,
            )
      | inr (existing, found) ↦
          rw (found, put_spawn)
            (
              write_entry-InOrder entry.spawn_id 1 r.next_first_seen_order _ existing r.entries
                  found (find_entry-some entry.spawn_id r.entries existing found) refl ok,
              omega arith,
            )
    ]

delete_spawn-RosterOk :
    (r : Roster) (id : ℕ)
    → RosterOk r
    → RosterOk (delete_spawn r id)
      × (delete_spawn r id).next_first_seen_order ≡ r.next_first_seen_order
unfolding log_delete_observe delete_spawn
delete_spawn-RosterOk r id ok = elim (Option-cases (find_entry_by_spawn_id id r.entries)) [
  | inl missing ↦
      rw (missing, delete_spawn)
        (elim (Bool-cases (should_log (next_count r.delete_observe_log_count))) [
          | inl b ↦ rw b (ok, refl)
          | inr b ↦ rw b (ok, refl)
        ])
  | inr (existing, found) ↦
      let kept =
        write_entry-InOrder id 1 r.next_first_seen_order (record existing { active = false })
          existing r.entries found (find_entry-some id r.entries existing found) refl ok in
      rw (found, delete_spawn)
        (elim (Bool-cases (should_log (next_count r.delete_observe_log_count))) [
          | inl b ↦ rw b (kept, refl)
          | inr b ↦ rw b (kept, refl)
        ])
]

log_spawn_observe-RosterOk :
    (r : Roster) (entry : ParsedSpawnEntry)
    → ((log_spawn_observe r entry).entries ≡ r.entries)
      × ((log_spawn_observe r entry).next_first_seen_order ≡ r.next_first_seen_order)
unfolding log_spawn_observe
log_spawn_observe-RosterOk r entry =
    elim (Bool-cases (should_log (next_count r.spawn_observe_log_count))) [
      | inl b ↦ rw b (refl, refl)
      | inr b ↦ rw b (refl, refl)
    ]

-- A step keeps the roster well formed and hands out at most one order.
abbrev StepOk : Roster → Roster → Type 0
StepOk r r' = RosterOk r' × r'.next_first_seen_order ≤ r.next_first_seen_order + 1

observe_spawn_payload-StepOk :
    (r : Roster) (m : Option Memory) (n : ℕ)
    → r.next_first_seen_order + 1 < 2 ^ 64
    → RosterOk r
    → StepOk r (observe_spawn_payload r m n)
unfolding observe_spawn_payload
observe_spawn_payload-StepOk r m n room ok = elim (Option-cases (parse_single_spawn_payload m n)) [
  | inl bad ↦ rw (bad, observe_spawn_payload) (ok, omega arith)
  | inr (entry, good) ↦
      let put = put_spawn-RosterOk r entry room ok in
      let logged = log_spawn_observe-RosterOk (put_spawn r entry) entry in
      rw (good, observe_spawn_payload)
        (elim (Bool-cases (not entry.valid || entry.owner_id == 0 || is_nil entry.name)) [
          | inl skip ↦ rw skip (ok, omega arith)
          | inr taken ↦ rw (taken, logged.0, logged.1) put
        ])
]

observe_delete_spawn_payload-StepOk :
    (r : Roster) (m : Option Memory) (n : ℕ)
    → RosterOk r
    → StepOk r (observe_delete_spawn_payload r m n)
unfolding observe_delete_spawn_payload
observe_delete_spawn_payload-StepOk r none n ok = (ok, omega arith)
observe_delete_spawn_payload-StepOk r (some m) n ok = elim (Bool-cases (ltb n 4)) [
  | inl short ↦ rw short (ok, omega arith)
  | inr long ↦ elim (Option-cases (try_read_u32 m n 0)) [
    | inl bad ↦ rw (long, bad) (ok, omega arith)
    | inr (id, good) ↦
        let deleted = delete_spawn-RosterOk r id ok in
        rw (long, good) (deleted.0, omega (arith, deleted.1))
  ]
]

pub step-StepOk :
    (r : Roster) (e : Event)
    → r.next_first_seen_order + 1 < 2 ^ 64
    → RosterOk r
    → StepOk r (step r e)
unfolding step clear
step-StepOk r (spawn m n) room ok = observe_spawn_payload-StepOk r m n room ok
step-StepOk r (delete m n) room ok = observe_delete_spawn_payload-StepOk r m n ok
step-StepOk r clears room ok = (omega arith, omega arith)

run-keeps :
    (es : List Event) (r : Roster)
    → r.next_first_seen_order + length es < 2 ^ 64
    → RosterOk r
    → RosterOk (run r es)
unfolding run
run-keeps [] r room ok = ok
run-keeps (e ∷ es) r room ok =
    let next = step-StepOk r e (omega (arith, room)) ok in
    run-keeps es (step r e) (omega (arith, next.1, room)) next.0

-- After fewer than 2 ^ 64 - 1 packets and clears from a cleared roster, no spawn id has two
-- entries, and the entries stand in ascending order of their first sighting, each below the next
-- order to be given.
pub run-RosterOk :
    (es : List Event) (log : List LogLine)
    → length es + 1 < 2 ^ 64
    → RosterOk (run (cleared log) es)
run-RosterOk es log room = run-keeps es (cleared log) (omega arith) (omega arith)
