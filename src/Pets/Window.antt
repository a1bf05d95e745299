-- ===== src/Pets/Window.antt =====
-- GetSnapshot: the focused pet's companions in the two slots of the pet window.
use eqemu_monomyth_client.Prelude.{
  ℕ, ◌+◌, Bool, true, false, not, ltb, ◌==◌, ◌!=◌, ◌||◌, ◌&&◌, List, [], ◌∷◌, Option, none, some,
  length, set, is_nil, if◌then◌else◌,
}
use eqemu_monomyth_client.AuthStats.Observe as Stats
use eqemu_monomyth_client.Pets.Roster.{ObservedPetEntry, Roster, build_display_name}

-- The two slots of the pet window; the arrays are lists of two.
pub record Snapshot : Type 0 where
  pub focused_pet_id : ℕ
  pub has_other_pet_name : List Bool
  pub has_other_pet_spawn_id : List Bool
  pub other_pet_name : List (List ℕ)
  pub other_pet_spawn_id : List ℕ

abbrev pub empty_snapshot : ℕ → Snapshot
empty_snapshot focused = record {
  focused_pet_id = focused;
  has_other_pet_name = false ∷ false ∷ [];
  has_other_pet_spawn_id = false ∷ false ∷ [];
  other_pet_name = [] ∷ [] ∷ [];
  other_pet_spawn_id = 0 ∷ 0 ∷ [];
}

-- The first active entry of the focused id.
unfoldable pub find_focused : ℕ → List ObservedPetEntry → Option ObservedPetEntry
find_focused focused [] = none
find_focused focused (entry ∷ entries) =
    let later = find_focused focused entries in
    if entry.active && entry.spawn_id == focused then some entry else later

unfoldable pub is_skipped : ℕ → ℕ → ObservedPetEntry → Bool
is_skipped owner focused entry =
    not entry.active || entry.owner_id != owner || entry.spawn_id == focused || is_nil entry.name

unfoldable pub candidates : ℕ → ℕ → List ObservedPetEntry → List ObservedPetEntry
candidates owner focused [] = []
candidates owner focused (entry ∷ entries) =
    let later = candidates owner focused entries in
    if is_skipped owner focused entry then later else entry ∷ later

-- The comparison that `std::sort` is given.
unfoldable pub seen_before : ObservedPetEntry → ObservedPetEntry → Bool
seen_before a b =
    if a.first_seen_order != b.first_seen_order
    then ltb a.first_seen_order b.first_seen_order
    else ltb a.spawn_id b.spawn_id

-- The sort, by insertion.
unfoldable pub insert_sorted : ObservedPetEntry → List ObservedPetEntry → List ObservedPetEntry
insert_sorted a [] = a ∷ []
insert_sorted a (b ∷ bs) =
    let later = insert_sorted a bs in if seen_before b a then b ∷ later else a ∷ b ∷ bs

unfoldable pub sort_candidates : List ObservedPetEntry → List ObservedPetEntry
sort_candidates [] = []
sort_candidates (a ∷ rest) = insert_sorted a (sort_candidates rest)

-- The loop over the slots, from slot `i` on.
unfoldable pub fill_slots : ℕ → List ObservedPetEntry → Snapshot → Snapshot
fill_slots i [] snapshot = snapshot
fill_slots i (candidate ∷ rest) snapshot =
    let filled = fill_slots (i + 1) rest (record snapshot {
      has_other_pet_name = set snapshot.has_other_pet_name i true;
      has_other_pet_spawn_id = set snapshot.has_other_pet_spawn_id i true;
      other_pet_name = set snapshot.other_pet_name i (build_display_name candidate.name);
      other_pet_spawn_id = set snapshot.other_pet_spawn_id i candidate.spawn_id;
    }) in
    if ltb i (length snapshot.has_other_pet_name) then filled else snapshot

unfoldable pub get_snapshot : Stats.Snapshot → Roster → Snapshot
get_snapshot auth r =
    let focused = auth.focused_pet_id in
    let snapshot = empty_snapshot focused in
    if not auth.has_focused_pet_id || focused == 0
    then snapshot
    else elim (find_focused focused r.entries) [
      | none ↦ snapshot
      | some entry ↦
          if entry.owner_id == 0
          then snapshot
          else fill_slots 0 (sort_candidates (candidates entry.owner_id focused r.entries)) snapshot
    ]
