-- ===== src/Pets/Delete.antt =====
-- A delete packet takes its pet out of every later snapshot.
use eqemu_monomyth_client.Prelude.{
  ℕ, ◌+◌, ◌^◌, ◌≤◌, ◌<◌, ◌≡◌, ◌∙◌, refl, sym, ap, inl, inr, Bool, true, false, Bool-cases, ◌==◌,
  ◌&&◌, List, [], ◌∷◌, none, some, Option-cases, any, length, arith,
}
use eqemu_monomyth_client.Wire.Bytes.{Memory, word_at}
use eqemu_monomyth_client.Pets.Parse.{try_read_u32, can_read_bytes}
use eqemu_monomyth_client.Pets.Roster.{
  ObservedPetEntry, Roster, LogLine, cleared, next_count, find_entry_by_spawn_id, write_entry,
  delete_spawn, log_delete_observe, should_log, observe_delete_spawn_payload,
}
use eqemu_monomyth_client.Pets.Window.{find_focused, candidates, is_skipped}
use eqemu_monomyth_client.Pets.Order.{InOrder, has_spawn}
use eqemu_monomyth_client.Pets.Reach.{Event, run, run-RosterOk}

-- Some active entry has the spawn id.
abbrev pub is_live : ℕ → List ObservedPetEntry → Bool
is_live spawn_id = any (λ e. e.active && e.spawn_id == spawn_id)

is_live-has_spawn :
    (id : ℕ) (es : List ObservedPetEntry) → has_spawn id es ≡ false → is_live id es ≡ false
is_live-has_spawn id [] h = refl
is_live-has_spawn id (e ∷ es) h = ground (arith, is_live-has_spawn id es)

write_inactive :
    (id low high : ℕ) (new : ObservedPetEntry) (es : List ObservedPetEntry)
    → new.active ≡ false
    → InOrder low high es
    → is_live id (write_entry id new es) ≡ false
unfolding write_entry
write_inactive id low high new [] off h = refl
write_inactive id low high new (e ∷ es) off h =
    let others = is_live-has_spawn id es in
    let later = write_inactive id (e.first_seen_order + 1) high new es off h.2 in
    elim (Bool-cases (e.spawn_id == id)) [
      | inl here ↦
          let same : e.spawn_id ≡ id = ground (arith, here) in
          let none_left : has_spawn id es ≡ false = ap (λ i. has_spawn i es) (sym same) ∙ h.1 in
          rw (here, off) (others none_left)
      | inr other ↦ rw other (ground (arith, other, later))
    ]

missing_inactive :
    (id : ℕ) (es : List ObservedPetEntry)
    → find_entry_by_spawn_id id es ≡ none
    → is_live id es ≡ false
unfolding find_entry_by_spawn_id
missing_inactive id [] h = refl
missing_inactive id (e ∷ es) h = ground (arith, missing_inactive id es)

log_delete_observe-entries :
    (r : Roster) (id : ℕ) (removed : Bool) → (log_delete_observe r id removed).entries ≡ r.entries
unfolding log_delete_observe
log_delete_observe-entries r id removed =
    elim (Bool-cases (should_log (next_count r.delete_observe_log_count))) [
      | inl b ↦ rw b refl
      | inr b ↦ rw b refl
    ]

delete_spawn-is_live :
    (r : Roster) (id high : ℕ)
    → InOrder 1 high r.entries
    → is_live id (delete_spawn r id).entries ≡ false
unfolding delete_spawn
delete_spawn-is_live r id high ok = elim (Option-cases (find_entry_by_spawn_id id r.entries)) [
  | inl missing ↦
      rw (missing, delete_spawn, log_delete_observe-entries r id false)
        (missing_inactive id r.entries missing)
  | inr (existing, found) ↦
      rw (found, delete_spawn)
        (ap (is_live id) (log_delete_observe-entries _ id true)
          ∙ write_inactive id 1 high (record existing { active = false }) r.entries refl ok)
]

find_focused-is_live :
    (id : ℕ) (es : List ObservedPetEntry) → is_live id es ≡ false → find_focused id es ≡ none
unfolding find_focused
find_focused-is_live id [] h = refl
find_focused-is_live id (e ∷ es) h = ground (arith, find_focused-is_live id es)

candidates-is_live :
    (owner focused id : ℕ) (es : List ObservedPetEntry)
    → is_live id es ≡ false
    → has_spawn id (candidates owner focused es) ≡ false
unfolding candidates is_skipped
candidates-is_live owner focused id [] h = refl
candidates-is_live owner focused id (e ∷ es) h =
    ground (arith, candidates-is_live owner focused id es)

observe_delete_spawn_payload-long :
    (r : Roster) (m : Memory) (n : ℕ)
    → 4 ≤ n
    → observe_delete_spawn_payload r (some m) n ≡ delete_spawn r (word_at m 0)
unfolding observe_delete_spawn_payload try_read_u32 can_read_bytes
observe_delete_spawn_payload-long r m n long = ground arith

-- After a delete packet of at least four bytes, on a roster built by any packets, the spawn id
-- in its first four bytes is that of no focused entry and of no candidate for a slot, whatever
-- the focused pet and the owner.
pub delete-unreported :
    (events : List Event) (log : List LogLine) (m : Memory) (n owner focused : ℕ)
    → length events + 1 < 2 ^ 64
    → 4 ≤ n
    → let after = observe_delete_spawn_payload (run (cleared log) events) (some m) n in
      (find_focused (word_at m 0) after.entries ≡ none)
      × (has_spawn (word_at m 0) (candidates owner focused after.entries) ≡ false)
delete-unreported events log m n owner focused room long =
    let r = run (cleared log) events in
    let gone =
      delete_spawn-is_live r (word_at m 0) r.next_first_seen_order (run-RosterOk events log room) in
    rw (observe_delete_spawn_payload-long r m n long) (
      find_focused-is_live (word_at m 0) _ gone,
      candidates-is_live owner focused (word_at m 0) _ gone,
    )
