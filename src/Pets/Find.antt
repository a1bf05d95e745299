-- ===== src/Pets/Find.antt =====
-- What a spawn packet makes of the roster.
use eqemu_monomyth_client.Prelude.{
  ℕ, ◌≡◌, ◌∙◌, refl, ap, inl, inr, true, false, Bool-cases, not, ◌==◌, ◌||◌, List, [], ◌∷◌, ◌++◌,
  none, some, Option-cases, is_nil, arith, if◌then◌else◌,
}
use eqemu_monomyth_client.Wire.Bytes.{Memory}
use eqemu_monomyth_client.Pets.Parse.{ParsedSpawnEntry, parse_single_spawn_payload}
use eqemu_monomyth_client.Pets.Roster.{
  ObservedPetEntry, Roster, next_count, find_entry_by_spawn_id, write_entry, put_spawn,
  log_spawn_observe, should_log, observe_spawn_payload,
}

-- The order of the entry: its own if it was seen before, else the next one.
abbrev pub order_for : Roster → ℕ → ℕ
order_for r id = elim (find_entry_by_spawn_id id r.entries) [
  | none ↦ r.next_first_seen_order
  | some existing ↦ existing.first_seen_order
]

abbrev pub entry_for : Roster → ParsedSpawnEntry → ObservedPetEntry
entry_for r p = record {
  spawn_id = p.spawn_id;
  owner_id = p.owner_id;
  first_seen_order = order_for r p.spawn_id;
  active = true;
  name = p.name;
}

find-write_entry :
    (id id' : ℕ) (new found : ObservedPetEntry) (es : List ObservedPetEntry)
    → find_entry_by_spawn_id id es ≡ some found
    → new.spawn_id ≡ id
    → find_entry_by_spawn_id id' (write_entry id new es)
      ≡ (if id == id' then some new else find_entry_by_spawn_id id' es)
unfolding find_entry_by_spawn_id write_entry
find-write_entry id id' new found [] h at = cc
find-write_entry id id' new found (e ∷ es) h at =
    ground (arith, find-write_entry id id' new found es)

find-append :
    (id' : ℕ) (new : ObservedPetEntry) (es : List ObservedPetEntry)
    → find_entry_by_spawn_id new.spawn_id es ≡ none
    → find_entry_by_spawn_id id' (es ++ new ∷ [])
      ≡ (if new.spawn_id == id' then some new else find_entry_by_spawn_id id' es)
unfolding find_entry_by_spawn_id
find-append id' new [] h = refl
find-append id' new (e ∷ es) h = ground (arith, find-append id' new es)

found_id :
    (id : ℕ) (es : List ObservedPetEntry) (found : ObservedPetEntry)
    → find_entry_by_spawn_id id es ≡ some found
    → found.spawn_id ≡ id
unfolding find_entry_by_spawn_id
found_id id [] found h = cc
found_id id (e ∷ es) found h = ground (arith, found_id id es found)

log_spawn_observe-entries :
    (r : Roster) (p : ParsedSpawnEntry) → (log_spawn_observe r p).entries ≡ r.entries
unfolding log_spawn_observe
log_spawn_observe-entries r p =
    elim (Bool-cases (should_log (next_count r.spawn_observe_log_count))) [
      | inl b ↦ rw b refl
      | inr b ↦ rw b refl
    ]

put_spawn-find :
    (r : Roster) (p : ParsedSpawnEntry) (id : ℕ)
    → find_entry_by_spawn_id id (put_spawn r p).entries
      ≡ (if p.spawn_id == id then some (entry_for r p) else find_entry_by_spawn_id id r.entries)
unfolding put_spawn
put_spawn-find r p id = elim (Option-cases (find_entry_by_spawn_id p.spawn_id r.entries)) [
  | inl fresh ↦ rw (fresh, put_spawn, order_for) (find-append id _ r.entries fresh)
  | inr (existing, found) ↦
      let at = found_id p.spawn_id r.entries existing found in
      rw (found, put_spawn, order_for, at)
        (find-write_entry p.spawn_id id _ existing r.entries found refl)
]

-- A spawn packet that is parsed to an entry with an owner makes the entry of its spawn id active
-- with the packet's owner and name; an entry seen before keeps its order, a new one takes the
-- next. The entries under all other spawn ids stay as they were.
pub observe_spawn_payload-find :
    (r : Roster) (m : Memory) (n id : ℕ) (p : ParsedSpawnEntry)
    → parse_single_spawn_payload (some m) n ≡ some p
    → (not p.valid || p.owner_id == 0 || is_nil p.name) ≡ false
    → find_entry_by_spawn_id id (observe_spawn_payload r (some m) n).entries
      ≡ (if p.spawn_id == id then some (entry_for r p) else find_entry_by_spawn_id id r.entries)
unfolding observe_spawn_payload
observe_spawn_payload-find r m n id p parsed kept =
    rw (parsed, observe_spawn_payload, kept)
      (ap (find_entry_by_spawn_id id) (log_spawn_observe-entries (put_spawn r p) p)
        ∙ put_spawn-find r p id)
