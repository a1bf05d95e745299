-- ===== src/Pets/Order.antt =====
-- Entry lists with one entry for each spawn id, in the order first seen.
use mathlib.Core.Path.{subst}
use eqemu_monomyth_client.Prelude.{
  ℕ, ◌+◌, ◌≤◌, ◌≡◌, ◌∙◌, refl, inl, inr, Bool, false, Bool-cases, ◌==◌, ◌||◌, List, [], ◌∷◌, ◌++◌,
  none, some, any, arith,
}
use eqemu_monomyth_client.Pets.Roster.{
  ObservedPetEntry, Roster, find_entry_by_spawn_id, write_entry,
}

abbrev pub has_spawn : ℕ → List ObservedPetEntry → Bool
has_spawn spawn_id = any (λ e. e.spawn_id == spawn_id)

-- From `low` on, the orders ascend and stay below `high`, and no spawn id stands twice.
abbrev pub InOrder : ℕ → ℕ → List ObservedPetEntry → Type 0
InOrder low high [] = low ≤ high
InOrder low high (e ∷ es) =
    (low ≤ e.first_seen_order)
    × (has_spawn e.spawn_id es ≡ false)
    × InOrder (e.first_seen_order + 1) high es

abbrev pub RosterOk : Roster → Type 0
RosterOk r = InOrder 1 r.next_first_seen_order r.entries

pub InOrder-append :
    (low high : ℕ) (es : List ObservedPetEntry) (new : ObservedPetEntry)
    → InOrder low high es
    → new.first_seen_order ≡ high
    → has_spawn new.spawn_id es ≡ false
    → InOrder low (high + 1) (es ++ new ∷ [])
InOrder-append low high [] new h at fresh = (omega arith, refl, omega arith)
InOrder-append low high (e ∷ es) new h at fresh = (
  h.0,
  ground (arith, has_spawn_append e.spawn_id es new),
  InOrder-append (e.first_seen_order + 1) high es new h.2 at (ground arith),
)
  where
    has_spawn_append :
        (id : ℕ) (es : List ObservedPetEntry) (new : ObservedPetEntry)
        → has_spawn id (es ++ new ∷ []) ≡ (has_spawn id es || new.spawn_id == id)
    has_spawn_append id [] new = ground arith
    has_spawn_append id (f ∷ fs) new = ground (arith, has_spawn_append id fs new)

pub find_entry-none :
    (id : ℕ) (es : List ObservedPetEntry)
    → find_entry_by_spawn_id id es ≡ none
    → has_spawn id es ≡ false
unfolding find_entry_by_spawn_id
find_entry-none id [] h = refl
find_entry-none id (e ∷ es) h = ground (arith, find_entry-none id es)

-- A write through the pointer to the found entry that keeps its id and its order keeps the
-- ids of the list, position by position.
has_spawn-write_entry :
    (id id' : ℕ) (new : ObservedPetEntry) (es : List ObservedPetEntry)
    → new.spawn_id ≡ id
    → has_spawn id' (write_entry id new es) ≡ has_spawn id' es
unfolding write_entry
has_spawn-write_entry id id' new [] h = refl
has_spawn-write_entry id id' new (e ∷ es) h = ground (arith, has_spawn-write_entry id id' new es h)

-- The found entry has the id.
pub find_entry-some :
    (id : ℕ) (es : List ObservedPetEntry) (found : ObservedPetEntry)
    → find_entry_by_spawn_id id es ≡ some found
    → found.spawn_id ≡ id
unfolding find_entry_by_spawn_id
find_entry-some id [] found h = cc
find_entry-some id (e ∷ es) found h = ground (arith, find_entry-some id es found)

pub write_entry-InOrder :
    (id low high : ℕ) (new found : ObservedPetEntry) (es : List ObservedPetEntry)
    → find_entry_by_spawn_id id es ≡ some found
    → new.spawn_id ≡ id
    → new.first_seen_order ≡ found.first_seen_order
    → InOrder low high es
    → InOrder low high (write_entry id new es)
unfolding find_entry_by_spawn_id write_entry
write_entry-InOrder id low high new found [] hf hi ho h = h
write_entry-InOrder id low high new found (e ∷ es) hf hi ho h =
    elim (Bool-cases (e.spawn_id == id)) [
      | inl here ↦
          let id_is : e.spawn_id ≡ new.spawn_id = ground (arith, here, hi) in
          let order_is : e.first_seen_order ≡ new.first_seen_order = ground (arith, hf, here, ho) in
          rw here (
            omega (arith, h.0, order_is),
            subst (λ i. has_spawn i es ≡ false) id_is h.1,
            subst (λ o. InOrder (o + 1) high es) order_is h.2,
          )
      | inr later ↦
          let deeper : find_entry_by_spawn_id id es ≡ some found = ground (arith, hf, later) in
          rw later (
            h.0,
            has_spawn-write_entry id e.spawn_id new es hi ∙ h.1,
            write_entry-InOrder id (e.first_seen_order + 1) high new found es deeper hi ho h.2,
          )
    ]
