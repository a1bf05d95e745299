-- ===== src/Client/Override.antt =====
-- TryApplyTemporaryLocalClassOverride and RestoreTemporaryLocalClassOverride. Whether VirtualProtect
-- makes a region writable is a parameter.
use eqemu_monomyth_client.Prelude.{
  ℕ, ◌+◌, ◌-◌, Bool, true, false, not, ltb, leb, ◌!=◌, ◌||◌, ◌&&◌, List, [], ◌∷◌, Option, none,
  some, length, get_elem?, if◌then◌else◌,
}
use eqemu_monomyth_client.AuthStats.Read.{Pages}
use eqemu_monomyth_client.Wire.Layout.{word_bytes}
use eqemu_monomyth_client.Identity.Mask.{is_playable_class_id}
use eqemu_monomyth_client.Client.Read.{
  pc_profile_class_offset, eq_player_displayed_class_offset, scribe_gate_resolved_class_id_offset,
  at_offset, non_null, playable, try_read_local_player_pointer,
  try_read_eq_player_displayed_class_id, try_resolve_local_profile_class_storage,
  try_resolve_local_char_data_class_record_storage,
}

-- What was copied: the player, profile or class record, and the class that stood there.
pub record TemporaryLocalClassOverrideState : Type 0 where
  pub active : Bool
  pub local_player : ℕ
  pub displayed_original_copied : Bool
  pub displayed_original_class_id : ℕ
  pub profile : ℕ
  pub profile_original_copied : Bool
  pub profile_original_class_id : ℕ
  pub class_record : ℕ
  pub class_record_original_copied : Bool
  pub class_record_original_class_id : ℕ

abbrev pub blank_state : TemporaryLocalClassOverrideState
blank_state = record {
  active = false;
  local_player = 0;
  displayed_original_copied = false;
  displayed_original_class_id = 0;
  profile = 0;
  profile_original_copied = false;
  profile_original_class_id = 0;
  class_record = 0;
  class_record_original_copied = false;
  class_record_original_class_id = 0;
}

-- `std::memcpy` to memory.
unfoldable pub put_bytes : Pages → ℕ → List ℕ → Pages
put_bytes memory address bytes i =
    if leb address i && ltb i (address + length bytes)
    then get_elem? bytes (i - address)
    else memory i

-- The player with its displayed class, where both are there.
abbrev pub displayed_class : ℕ → Pages → Option (ℕ × ℕ)
displayed_class module_base memory =
    elim (non_null (try_read_local_player_pointer module_base memory)) [
      | none ↦ none
      | some local_player ↦
          elim (playable (try_read_eq_player_displayed_class_id memory local_player)) [
            | none ↦ none
            | some class_id ↦ some (local_player, class_id)
          ]
    ]

abbrev pub pointer_of : Option (ℕ × ℕ) → ℕ
pointer_of none = 0
pointer_of (some copied) = copied.0

abbrev pub class_of : Option (ℕ × ℕ) → ℕ
class_of none = 0
class_of (some copied) = copied.1

abbrev pub is_copied : Option (ℕ × ℕ) → Bool
is_copied none = false
is_copied (some copied) = true

-- The three originals, before anything is written.
unfoldable pub copy_originals : ℕ → Pages → TemporaryLocalClassOverrideState
copy_originals module_base memory =
    let displayed = displayed_class module_base memory in
    let profile = try_resolve_local_profile_class_storage module_base memory in
    let class_record = try_resolve_local_char_data_class_record_storage module_base memory in
    record {
      active = false;
      local_player = pointer_of displayed;
      displayed_original_copied = is_copied displayed;
      displayed_original_class_id = class_of displayed;
      profile = pointer_of profile;
      profile_original_copied = is_copied profile;
      profile_original_class_id = class_of profile;
      class_record = pointer_of class_record;
      class_record_original_copied = is_copied class_record;
      class_record_original_class_id = class_of class_record;
    }

module _ (protect : ℕ → ℕ → Bool) where
  -- TryWriteObject where the original was copied and its pointer is not null: the memory, and
  -- whether it was written.
  unfoldable pub write_object : Bool → ℕ → ℕ → List ℕ → Pages → Pages × Bool
  write_object original_copied pointer offset bytes memory =
      let address = at_offset pointer offset in
      if original_copied
        && pointer != 0
        && address != 0
        && length bytes != 0
        && protect address (length bytes)
      then (put_bytes memory address bytes, true)
      else (memory, false)

  -- The three writes, of three texts of bytes.
  unfoldable pub write_three :
      TemporaryLocalClassOverrideState → List ℕ → List ℕ → List ℕ → Pages → Pages × Bool
  write_three s displayed profile class_record memory =
      let m1 =
        write_object s.displayed_original_copied s.local_player eq_player_displayed_class_offset
          displayed memory in
      let m2 =
        write_object s.profile_original_copied s.profile pc_profile_class_offset profile m1.0 in
      let m3 =
        write_object s.class_record_original_copied s.class_record
          scribe_gate_resolved_class_id_offset class_record m2.0 in
      (m3.0, m1.1 || m2.1 || m3.1)

  unfoldable pub try_apply_temporary_local_class_override :
      ℕ
      → ℕ
      → TemporaryLocalClassOverrideState
      → Pages
      → (Pages × TemporaryLocalClassOverrideState) × Bool
  try_apply_temporary_local_class_override module_base class_id state memory =
      if not (is_playable_class_id class_id)
      then ((memory, state), false)
      else let originals = copy_originals module_base memory in
        let written =
          write_three originals (class_id ∷ []) (word_bytes class_id) (class_id ∷ []) memory in
        (
          (written.0, if written.1 then record originals { active = true } else blank_state),
          written.1,
        )

  unfoldable pub restore_temporary_local_class_override :
      TemporaryLocalClassOverrideState → Pages → Pages × TemporaryLocalClassOverrideState
  restore_temporary_local_class_override state memory =
      if not state.active then (memory, state) else (
        (write_three state (state.displayed_original_class_id ∷ [])
            (word_bytes state.profile_original_class_id) (state.class_record_original_class_id ∷ [])
            memory).0,
        blank_state,
      )
