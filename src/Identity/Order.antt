-- ===== src/Identity/Order.antt =====
-- BuildOrderedClassIdList: a fixed array of 16 ids with a count, filled without duplicates, the
-- primary class first and the mask's other classes in rising order.
use eqemu_monomyth_client.Prelude.{
  ℕ, zero, suc, ◌+◌, Bool, false, ◌||◌, not, leb, ◌==◌, ◌!=◌, List, [], ◌∷◌, length, replicate, set,
  if◌then◌else◌,
}
use eqemu_monomyth_client.Identity.Mask.{
  is_playable_class_id, is_playable_class_mask, has_class, playable_class_count,
  first_playable_class_id,
}

pub record OrderedClassIds : Type 0 where
  pub class_ids : List ℕ
  pub count : ℕ

-- `OrderedClassIds ordered_ids = {};`
abbrev pub empty_ids : OrderedClassIds
empty_ids = record { class_ids = replicate playable_class_count 0; count = 0 }

-- The loop over `class_ids[0 .. count)`.
unfoldable pub holds_id : ℕ → List ℕ → ℕ → Bool
holds_id zero xs class_id = false
holds_id (suc n) [] class_id = false
holds_id (suc n) (x ∷ xs) class_id = x == class_id || holds_id n xs class_id

unfoldable pub append_class_if_missing : OrderedClassIds → ℕ → OrderedClassIds
unfolding holds_id
append_class_if_missing ids class_id =
    if not (is_playable_class_id class_id)
    then ids
    else if holds_id ids.count ids.class_ids class_id
    then ids
    else if leb (length ids.class_ids) ids.count
    then ids
    else record ids { class_ids = set ids.class_ids ids.count class_id; count = ids.count + 1 }

-- The loop `class_id, class_id + 1, …` with `left` rounds to go.
unfoldable pub append_classes_from : ℕ → ℕ → ℕ → OrderedClassIds → OrderedClassIds
append_classes_from zero class_id class_mask ids = ids
append_classes_from (suc left) class_id class_mask ids =
    append_classes_from left (class_id + 1) class_mask
      (if has_class class_mask class_id then append_class_if_missing ids class_id else ids)

unfoldable pub build_ordered_class_id_list : ℕ → Bool → ℕ → OrderedClassIds
build_ordered_class_id_list primary_class_id has_class_mask class_mask =
    if not has_class_mask || class_mask == 0 || not (is_playable_class_mask class_mask)
    then empty_ids
    else append_classes_from playable_class_count first_playable_class_id class_mask
        (append_class_if_missing empty_ids primary_class_id)

unfoldable pub can_format_class_display : ℕ → Bool → ℕ → Bool
can_format_class_display primary_class_id has_class_mask class_mask =
    (build_ordered_class_id_list primary_class_id has_class_mask class_mask).count != 0
