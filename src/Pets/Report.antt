-- ===== src/Pets/Report.antt =====
-- What the snapshot reports of a roster that packets have built.
use eqemu_monomyth_client.Prelude.{
  ℕ, ◌+◌, ◌^◌, ◌≤◌, ◌<◌, ◌≡◌, ◌∙◌, refl, ap, inl, inr, true, false, Bool-cases, not, ◌==◌, ◌!=◌,
  ◌&&◌, List, [], ◌∷◌, some, select, length, is_nil, arith,
}
use eqemu_monomyth_client.AuthStats.Observe as Stats
use eqemu_monomyth_client.Pets.Roster.{ObservedPetEntry, LogLine, cleared, build_display_name}
use eqemu_monomyth_client.Pets.Window.{
  Snapshot, empty_snapshot, find_focused, is_skipped, candidates, seen_before, insert_sorted,
  sort_candidates, fill_slots, get_snapshot,
}
use eqemu_monomyth_client.Pets.Order.{InOrder}
use eqemu_monomyth_client.Pets.Reach.{Event, run, run-RosterOk}

abbrev Ascending : ℕ → List ObservedPetEntry → Type 0
Ascending low [] = Unit {0}
Ascending low (e ∷ es) = (low ≤ e.first_seen_order) × Ascending (e.first_seen_order + 1) es

Ascending-weaken :
    (low low' : ℕ) (es : List ObservedPetEntry) → low' ≤ low → Ascending low es → Ascending low' es
Ascending-weaken low low' [] h a = tt
Ascending-weaken low low' (e ∷ es) h a = (omega (arith, a.0), a.1)

candidates-Ascending :
    (owner focused low high : ℕ) (es : List ObservedPetEntry)
    → InOrder low high es
    → Ascending low (candidates owner focused es)
unfolding candidates
candidates-Ascending owner focused low high [] h = tt
candidates-Ascending owner focused low high (e ∷ es) h =
    let later = candidates-Ascending owner focused (e.first_seen_order + 1) high es h.2 in
    elim (Bool-cases (is_skipped owner focused e)) [
      | inl skip ↦
          rw skip (Ascending-weaken (e.first_seen_order + 1) low _ (omega (arith, h.0)) later)
      | inr keep ↦ rw keep (h.0, later)
    ]

sort_candidates-Ascending :
    (low : ℕ) (es : List ObservedPetEntry) → Ascending low es → sort_candidates es ≡ es
unfolding sort_candidates insert_sorted seen_before
sort_candidates-Ascending low [] h = refl
sort_candidates-Ascending low (a ∷ []) h = refl
sort_candidates-Ascending low (a ∷ b ∷ es) h =
    let tail = sort_candidates-Ascending (a.first_seen_order + 1) (b ∷ es) h.1 in
    let after : seen_before b a ≡ false = ground (arith, h.1.0) in
    ap (insert_sorted a) tail ∙ unfold seen_before in ground (arith, after)

-- The active entries of the owner, other than the focused pet, that have a name.
abbrev pub companions : ℕ → ℕ → List ObservedPetEntry → List ObservedPetEntry
companions owner focused =
    select (λ e. e.active && e.owner_id == owner && e.spawn_id != focused && not (is_nil e.name))

candidates-companions :
    (owner focused : ℕ) (es : List ObservedPetEntry)
    → candidates owner focused es ≡ companions owner focused es
unfolding candidates is_skipped
candidates-companions owner focused [] = refl
candidates-companions owner focused (e ∷ es) =
    ground (arith, candidates-companions owner focused es)

-- The slots for these pets, the third and later ones left out.
abbrev pub slots_of : ℕ → List ObservedPetEntry → Snapshot
slots_of focused [] = empty_snapshot focused
slots_of focused (a ∷ []) = record {
  focused_pet_id = focused;
  has_other_pet_name = true ∷ false ∷ [];
  has_other_pet_spawn_id = true ∷ false ∷ [];
  other_pet_name = build_display_name a.name ∷ [] ∷ [];
  other_pet_spawn_id = a.spawn_id ∷ 0 ∷ [];
}
slots_of focused (a ∷ b ∷ rest) = record {
  focused_pet_id = focused;
  has_other_pet_name = true ∷ true ∷ [];
  has_other_pet_spawn_id = true ∷ true ∷ [];
  other_pet_name = build_display_name a.name ∷ build_display_name b.name ∷ [];
  other_pet_spawn_id = a.spawn_id ∷ b.spawn_id ∷ [];
}

fill_slots-slots_of :
    (focused : ℕ) (es : List ObservedPetEntry)
    → fill_slots 0 es (empty_snapshot focused) ≡ slots_of focused es
unfolding fill_slots
fill_slots-slots_of focused [] = refl
fill_slots-slots_of focused (a ∷ []) = refl
fill_slots-slots_of focused (a ∷ b ∷ []) = refl
fill_slots-slots_of focused (a ∷ b ∷ c ∷ rest) = refl

-- On a roster built by any packets, for a focused pet with an active entry and an owner, the
-- snapshot shows the first two of the owner's other active named pets, in the order in which
-- they were first seen, under their display names.
pub get_snapshot-companions :
    (events : List Event) (log : List LogLine) (auth : Stats.Snapshot) (entry : ObservedPetEntry)
    → length events + 1 < 2 ^ 64
    → auth.has_focused_pet_id ≡ true
    → (auth.focused_pet_id == 0) ≡ false
    → find_focused auth.focused_pet_id (run (cleared log) events).entries ≡ some entry
    → (entry.owner_id == 0) ≡ false
    → get_snapshot auth (run (cleared log) events)
      ≡ slots_of auth.focused_pet_id
          (companions entry.owner_id auth.focused_pet_id (run (cleared log) events).entries)
unfolding get_snapshot
get_snapshot-companions events log auth entry room known set_id found owned =
    let r = run (cleared log) events in
    let sorted =
      sort_candidates-Ascending 1 (candidates entry.owner_id auth.focused_pet_id r.entries) (
        candidates-Ascending entry.owner_id auth.focused_pet_id 1 r.next_first_seen_order r.entries
          (run-RosterOk events log room)) in
    rw (known, set_id, found, owned, sorted)
      (fill_slots-slots_of auth.focused_pet_id
          (candidates entry.owner_id auth.focused_pet_id r.entries)
        ∙ ap (slots_of auth.focused_pet_id)
            (candidates-companions entry.owner_id auth.focused_pet_id r.entries))
