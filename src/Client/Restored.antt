-- ===== src/Client/Restored.antt =====
-- A temporary class that is taken back leaves the client's memory as it was.
use eqemu_monomyth_client.Prelude.{
  ℕ, zero, suc, ◌+◌, ◌-◌, ◌<◌, ◌≡◌, ◌∙◌, ◌⊎◌, refl, sym, ap, inl, inr, Bool, true, false,
  Bool-cases, ltb, leb, ◌!=◌, ◌||◌, ◌&&◌, List, [], ◌∷◌, Option, none, some, length, get_elem?,
  arith,
}
use eqemu_monomyth_client.AuthStats.Read.{Pages}
use eqemu_monomyth_client.AuthStats.Words.{Lays}
use eqemu_monomyth_client.Wire.Layout.{word_bytes}
use eqemu_monomyth_client.Identity.Mask.{is_playable_class_id}
use eqemu_monomyth_client.Client.Read.{
  at_offset, try_resolve_local_profile_class_storage,
  try_resolve_local_char_data_class_record_storage,
}
use eqemu_monomyth_client.Client.Originals.{
  AreBytes, displayed_class-Lays, profile-Lays, class_record-Lays,
}
use eqemu_monomyth_client.Client.Override.{
  TemporaryLocalClassOverrideState, displayed_class, pointer_of, class_of, is_copied, put_bytes,
  write_object, write_three, copy_originals, try_apply_temporary_local_class_override,
  restore_temporary_local_class_override,
}

-- Whether a write of so many bytes reaches a place.
abbrev pub reaches : (ℕ → ℕ → Bool) → Bool → ℕ → ℕ → ℕ → ℕ → Bool
reaches protect original_copied pointer offset n i =
    let address = at_offset pointer offset in
    (original_copied && pointer != 0 && address != 0 && n != 0 && protect address n)
    && (leb address i && ltb i (address + n))

-- Bytes that are laid out are read one by one.
get_elem?-Lays :
    (m : Pages) (a i : ℕ) (bytes : List ℕ)
    → Lays m a bytes
    → i < length bytes
    → get_elem? bytes i ≡ m (a + i)
get_elem?-Lays m a i [] lays h = absurd (omega arith)
get_elem?-Lays m a zero (b ∷ bytes) lays h =
    let e : a + 0 ≡ a = omega arith in sym (ap m e ∙ lays.0)
get_elem?-Lays m a (suc i) (b ∷ bytes) lays h =
    let e : a + 1 + i ≡ a + suc i = omega arith in
    get_elem?-Lays m (a + 1) i bytes lays.1 (omega arith) ∙ ap m e

module _ (protect : ℕ → ℕ → Bool) (copied : Bool) (pointer offset i : ℕ) where
  -- A place that the write does not reach stays.
  write_object-apart :
      (bytes : List ℕ) (memory : Pages)
      → reaches protect copied pointer offset (length bytes) i ≡ false
      → (write_object protect copied pointer offset bytes memory).0 i ≡ memory i
  unfolding write_object put_bytes
  write_object-apart bytes memory apart = ground (arith, apart)

  -- Where the bytes are those of `before`, the write gives back what it reaches, and leaves what
  -- was right.
  write_object-back :
      (before : Pages) (bytes : List ℕ) (memory : Pages)
      → (copied ≡ true → Lays before (at_offset pointer offset) bytes)
      → (reaches protect copied pointer offset (length bytes) i ≡ true) ⊎ (memory i ≡ before i)
      → (write_object protect copied pointer offset bytes memory).0 i ≡ before i
  unfolding write_object put_bytes
  write_object-back before bytes memory lays at_place =
      elim (Bool-cases (reaches protect copied pointer offset (length bytes) i)) [
        | inr apart ↦ elim at_place [
          | inl reached ↦ absurd (ground (arith, apart, reached))
          | inr same ↦ ground (arith, apart, same)
        ]
        | inl reached ↦
            let address = at_offset pointer offset in
            let was_copied : copied ≡ true = ground (arith, reached) in
            let low : leb address i ≡ true = ground (arith, reached) in
            let high : ltb i (address + length bytes) ≡ true = ground (arith, reached) in
            let enabled : (copied
                  && pointer != 0
                  && address != 0
                  && length bytes != 0
                  && protect address (length bytes))
                ≡ true =
              ground (arith, reached) in
            let place : address + (i - address) ≡ i = ground (arith, low) in
            let read =
              get_elem?-Lays before address (i - address) bytes (lays was_copied)
                (ground (arith, low, high))
              ∙ ap before place in
            simp (enabled, low, high) read
      ]

module _ (protect : ℕ → ℕ → Bool) (s : TemporaryLocalClassOverrideState) (before : Pages)
    (displayed_lays : s.displayed_original_copied ≡ true
      → Lays before (at_offset s.local_player 0x0fe0) (s.displayed_original_class_id ∷ []))
    (profile_lays : s.profile_original_copied ≡ true
      → Lays before (at_offset s.profile 0x3374) (word_bytes s.profile_original_class_id))
    (class_record_lays : s.class_record_original_copied ≡ true
      → Lays before (at_offset s.class_record 0x3374) (s.class_record_original_class_id ∷ [])) where
  -- Writing the originals after other bytes gives back the memory.
  pub write_three-back :
      (d p r i : ℕ)
      → (write_three protect s
            (s.displayed_original_class_id ∷ [])
            (word_bytes s.profile_original_class_id)
            (s.class_record_original_class_id ∷ [])
            (write_three protect s (d ∷ []) (word_bytes p) (r ∷ []) before).0).0
          i
        ≡ before i
  unfolding write_three
  write_three-back d p r i =
      let reach1 = reaches protect s.displayed_original_copied s.local_player 0x0fe0 1 i in
      let reach2 = reaches protect s.profile_original_copied s.profile 0x3374 4 i in
      let reach3 = reaches protect s.class_record_original_copied s.class_record 0x3374 1 i in
      let a1 =
        write_object-apart protect s.displayed_original_copied s.local_player 0x0fe0 i (d ∷ [])
          before in
      let m1 =
        (write_object protect s.displayed_original_copied s.local_player 0x0fe0 (d ∷ [])
          before).0 in
      let a2 =
        write_object-apart protect s.profile_original_copied s.profile 0x3374 i (word_bytes p) m1 in
      let m2 =
        (write_object protect s.profile_original_copied s.profile 0x3374 (word_bytes p) m1).0 in
      let a3 =
        write_object-apart protect s.class_record_original_copied s.class_record 0x3374 i (r ∷ [])
          m2 in
      let m3 =
        (write_object protect s.class_record_original_copied s.class_record 0x3374 (r ∷ []) m2).0 in
      let b1 =
        write_object-back protect s.displayed_original_copied s.local_player 0x0fe0 i before
          (s.displayed_original_class_id ∷ []) m3 displayed_lays in
      let m4 =
        (write_object protect s.displayed_original_copied s.local_player 0x0fe0
          (s.displayed_original_class_id ∷ []) m3).0 in
      let b2 =
        write_object-back protect s.profile_original_copied s.profile 0x3374 i before
          (word_bytes s.profile_original_class_id) m4 profile_lays in
      let m5 =
        (write_object protect s.profile_original_copied s.profile 0x3374
          (word_bytes s.profile_original_class_id) m4).0 in
      let b3 =
        write_object-back protect s.class_record_original_copied s.class_record 0x3374 i before
          (s.class_record_original_class_id ∷ []) m5 class_record_lays in
      elim (Bool-cases reach3) [
        | inl third ↦ b3 (inl third)
        | inr not3 ↦ b3 (
            inr (elim (Bool-cases reach2) [
              | inl second ↦ b2 (inl second)
              | inr not2 ↦ b2 (
                  inr (elim (Bool-cases reach1) [
                    | inl first' ↦ b1 (inl first')
                    | inr not1 ↦ b1 (inr (a3 not3 ∙ a2 not2 ∙ a1 not1))
                  ]))
            ]))
      ]

-- A class that was copied, and what it says.
copied-Lays :
    (memory : Pages) (offset : ℕ) (bytes : ℕ → List ℕ) (o : Option (ℕ × ℕ))
    → ((p c : ℕ) → o ≡ some (p, c) → Lays memory (at_offset p offset) (bytes c))
    → is_copied o ≡ true
    → Lays memory (at_offset (pointer_of o) offset) (bytes (class_of o))
copied-Lays memory offset bytes none lays h = absurd (cc h)
copied-Lays memory offset bytes (some (p, c)) lays h = lays p c refl

-- A class that is put in for a while and taken back leaves every byte of the client's memory as it
-- was, whichever of the player, the profile and the class record are there, can be written or
-- overlap. For memory whose bytes are below 256.
pub restore-apply :
    (protect : ℕ → ℕ → Bool) (module_base class_id i : ℕ) (state : TemporaryLocalClassOverrideState)
    (memory : Pages)
    → AreBytes memory
    → (try_apply_temporary_local_class_override protect module_base class_id state memory).1 ≡ true
    → let r = try_apply_temporary_local_class_override protect module_base class_id state memory in
      (restore_temporary_local_class_override protect r.0.1 r.0.0).0 i ≡ memory i
unfolding try_apply_temporary_local_class_override restore_temporary_local_class_override
    copy_originals write_three
restore-apply protect module_base class_id i state memory small done =
    let s = copy_originals module_base memory in
    let back =
      write_three-back protect s memory
        (copied-Lays memory 0x0fe0 (λ c. c ∷ []) (displayed_class module_base memory)
          (displayed_class-Lays module_base memory))
        (copied-Lays memory 0x3374 word_bytes
          (try_resolve_local_profile_class_storage module_base memory)
          (λ p c. profile-Lays module_base memory p c small))
        (copied-Lays memory 0x3374 (λ c. c ∷ [])
          (try_resolve_local_char_data_class_record_storage module_base memory)
          (class_record-Lays module_base memory))
        class_id class_id class_id i in
    elim (Bool-cases (is_playable_class_id class_id)) [
      | inr other ↦ absurd (cc (done, other))
      | inl playable ↦
          let written =
            (write_three protect s (class_id ∷ []) (word_bytes class_id) (class_id ∷ [])
              memory).1 in
          elim (Bool-cases written) [
            | inr nothing ↦ absurd (cc (done, playable, nothing))
            | inl something ↦ simp (playable, something) back
          ]
    ]

write_object_refused :
    (protect : ℕ → ℕ → Bool) (copied : Bool) (pointer offset : ℕ) (bytes : List ℕ) (memory : Pages)
    → (write_object protect copied pointer offset bytes memory).1 ≡ false
    → (write_object protect copied pointer offset bytes memory).0 ≡ memory
unfolding write_object
write_object_refused protect copied pointer offset bytes memory h =
    let address = at_offset pointer offset in
    elim (Bool-cases (
      copied
      && pointer != 0
      && address != 0
      && length bytes != 0
      && protect address (length bytes))) [ inl on ↦ absurd (cc (h, on)) | inr off ↦ simp (off) ]

-- A class that could not be put in leaves the memory as it was.
pub apply_refused :
    (protect : ℕ → ℕ → Bool) (module_base class_id : ℕ) (state : TemporaryLocalClassOverrideState)
    (memory : Pages)
    → (try_apply_temporary_local_class_override protect module_base class_id state memory).1 ≡ false
    → (try_apply_temporary_local_class_override protect module_base class_id state memory).0.0
      ≡ memory
unfolding try_apply_temporary_local_class_override write_three
apply_refused protect module_base class_id state memory h =
    let s = copy_originals module_base memory in
    let m1 =
      write_object protect s.displayed_original_copied s.local_player 0x0fe0 (class_id ∷ [])
        memory in
    let m2 =
      write_object protect s.profile_original_copied s.profile 0x3374 (word_bytes class_id) m1.0 in
    let m3 =
      write_object protect s.class_record_original_copied s.class_record 0x3374 (class_id ∷ [])
        m2.0 in
    elim (Bool-cases (is_playable_class_id class_id)) [
      | inr other ↦ simp (other)
      | inl playable ↦
          let none_written : (m1.1 || m2.1 || m3.1) ≡ false = cc (h, playable) in
          simp (playable) (
            write_object_refused protect s.class_record_original_copied s.class_record 0x3374
              (class_id ∷ []) m2.0 (ground (arith, none_written))
            ∙ write_object_refused protect s.profile_original_copied s.profile 0x3374
                (word_bytes class_id) m1.0 (ground (arith, none_written))
            ∙ write_object_refused protect s.displayed_original_copied s.local_player 0x0fe0
                (class_id ∷ []) memory (ground (arith, none_written)))
    ]
