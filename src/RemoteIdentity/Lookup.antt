-- ===== src/RemoteIdentity/Lookup.antt =====
-- Store and lookup together.
use eqemu_monomyth_client.Prelude.{
  ℕ, ◌%◌, ◌≤◌, ◌≡◌, ◌↔◌, ◌∙◌, refl, sym, inl, inr, Bool, true, false, Bool-cases, ◌!=◌, ◌&&◌, ◌||◌,
  List, [], ◌∷◌, Option, none, some, eq_bytes, eq_bytes_iff, is_nil, arith, if◌then◌else◌,
}
use eqemu_monomyth_client.Wire.Names.{normalize_name}
use eqemu_monomyth_client.Identity.Mask.{is_playable_class_id}
use eqemu_monomyth_client.RemoteIdentity.Parse.{is_acceptable_remote_identity_entry}
use eqemu_monomyth_client.RemoteIdentity.Store.{
  StoredEntry, same_key, put_entry, store_named, store_character_class_mask, entry_mask, find_mask,
  lookup_named, try_lookup_character_class_mask,
}

-- A lookup under one key, and the key of an entry.
pub same_key_iff :
    (server character : List ℕ) (e : StoredEntry)
    → (same_key server character e ≡ true)
      ↔ ((e.normalized_server_name ≡ server) × (e.normalized_character_name ≡ character))
same_key_iff server character e = (
  λ h. ground (
    arith,
    eq_bytes_iff e.normalized_server_name server,
    eq_bytes_iff e.normalized_character_name character,
  ),
  λ h. ground (
    arith,
    eq_bytes_iff e.normalized_server_name server,
    eq_bytes_iff e.normalized_character_name character,
  ),
)

abbrev key_test : StoredEntry → StoredEntry → Bool
key_test new e = same_key new.normalized_server_name new.normalized_character_name e

same_key-eq :
    (server character : List ℕ) (new e : StoredEntry)
    → key_test new e ≡ true
    → same_key server character e ≡ same_key server character new
same_key-eq server character new e h =
    let k = (same_key_iff new.normalized_server_name new.normalized_character_name e).0 h in
    rw (k.0, k.1)

same_key-both :
    (server character : List ℕ) (new e : StoredEntry)
    → same_key server character e ≡ true
    → same_key server character new ≡ true
    → key_test new e ≡ true
same_key-both server character new e p q =
    let k = (same_key_iff server character e).0 p in
    let l = (same_key_iff server character new).0 q in
    (same_key_iff new.normalized_server_name new.normalized_character_name e).1
      (k.0 ∙ sym l.0, k.1 ∙ sym l.1)

module _ (server character name : List ℕ) (expected : ℕ) where
  find : List StoredEntry → Option ℕ
  find = find_mask server character name expected

  find_hit :
      (e : StoredEntry) (es : List StoredEntry)
      → same_key server character e ≡ true
      → find (e ∷ es) ≡ entry_mask name expected e
  unfolding find find_mask
  find_hit e es h = rw h

  find_miss :
      (e : StoredEntry) (es : List StoredEntry)
      → same_key server character e ≡ false
      → find (e ∷ es) ≡ find es
  unfolding find find_mask
  find_miss e es h = rw h

  find-put_entry :
      (new : StoredEntry) (es : List StoredEntry)
      → find (put_entry new es)
        ≡ (if same_key server character new then entry_mask name expected new else find es)
  unfolding find find_mask put_entry
  find-put_entry new [] = ground arith
  find-put_entry new (e ∷ es) = elim (Bool-cases (key_test new e)) [
    | inl here ↦
        rw (here, same_key-eq server character new e here)
          (elim (Bool-cases (same_key server character new)) [
            | inl asked ↦ rw asked (unfold entry_mask in refl)
            | inr other ↦ rw other
          ])
    | inr later ↦ elim (Bool-cases (same_key server character e)) [
      | inl asked ↦
          let differs : same_key server character new ≡ false =
            ground (arith, same_key-both server character new e asked) in
          rw (later, asked, differs)
      | inr other ↦ rw (later, other) (find-put_entry new es)
    ]
  ]

acceptable_parts :
    (name : List ℕ) (native mask : ℕ)
    → is_acceptable_remote_identity_entry name native mask ≡ true
    → (is_nil name ≡ false) × (1 ≤ native) × (native ≤ 16)
unfolding is_acceptable_remote_identity_entry is_playable_class_id
acceptable_parts name native mask h = ground arith

acceptable_other_name :
    (name name' : List ℕ) (native mask : ℕ)
    → is_acceptable_remote_identity_entry name native mask ≡ true
    → is_nil name' ≡ false
    → is_acceptable_remote_identity_entry name' native mask ≡ true
unfolding is_acceptable_remote_identity_entry
acceptable_other_name name name' native mask h k = ground arith

normalize_name-is_nil : (name : List ℕ) → is_nil (normalize_name name) ≡ false → is_nil name ≡ false
unfolding normalize_name
normalize_name-is_nil [] h = h
normalize_name-is_nil (c ∷ cs) h = refl

-- The entry that a successful call stores.
abbrev pub new_entry : List ℕ → List ℕ → ℕ → ℕ → StoredEntry
new_entry server character native mask = record {
  normalized_server_name = normalize_name server;
  normalized_character_name = normalize_name character;
  native_class_id = native % 256;
  classes_bitmask = mask;
}

store_true :
    (server character : List ℕ) (native mask : ℕ) (entries : List StoredEntry)
    → (store_named server character native mask entries).1 ≡ true
    → (is_nil (normalize_name server) ≡ false)
      × (is_nil (normalize_name character) ≡ false)
      × (is_acceptable_remote_identity_entry character native mask ≡ true)
      × ((store_named server character native mask entries).0
          ≡ put_entry (new_entry server character native mask) entries)
unfolding store_named
store_true server character native mask entries h = ground arith

-- What the checks of a lookup make of a stored entry.
entry_mask-new_entry :
    (server character character' : List ℕ) (native mask expected : ℕ)
    → is_acceptable_remote_identity_entry character native mask ≡ true
    → is_nil character' ≡ false
    → entry_mask character' expected (new_entry server character native mask)
      ≡ (if expected != 0 && native != expected then none else some mask)
unfolding entry_mask
entry_mask-new_entry server character character' native mask expected good named =
    let parts = acceptable_parts character native mask good in
    let small : native % 256 ≡ native = omega (arith, parts.1, parts.2) in
    let other = acceptable_other_name character character' native mask good named in
    let set : (native != 0) ≡ true = ground (arith, parts.1) in
    rw (small, other, set) (ground arith)

-- The two names of a call stand for one key.
abbrev pub same_names : List ℕ → List ℕ → List ℕ → List ℕ → Bool
same_names server character server' character' =
    eq_bytes (normalize_name server) (normalize_name server')
    && eq_bytes (normalize_name character) (normalize_name character')

nil_differs :
    (s c s' c' : List ℕ)
    → is_nil s ≡ false
    → is_nil c ≡ false
    → (is_nil s' || is_nil c') ≡ true
    → eq_bytes s s' && eq_bytes c c' ≡ false
nil_differs [] c s' c' p q h = cc
nil_differs (x ∷ s) [] s' c' p q h = cc
nil_differs (x ∷ s) (y ∷ c) [] c' p q h = refl
nil_differs (x ∷ s) (y ∷ c) (x' ∷ s') [] p q h = ground arith
nil_differs (x ∷ s) (y ∷ c) (x' ∷ s') (y' ∷ c') p q h = cc

-- After StoreCharacterClassMask has returned true, a lookup under names that differ from the
-- stored ones at most in case gives the stored mask, unless it expects a class id other than 0
-- and other than the stored one, when it fails; a lookup under any other names gives what it
-- gave before.
pub lookup-store :
    (server character server' character' : List ℕ) (native mask expected : ℕ)
    (entries : List StoredEntry)
    → (store_character_class_mask (some server) (some character) native mask entries).1 ≡ true
    → try_lookup_character_class_mask
        (some server')
        (some character')
        expected
        (store_character_class_mask (some server) (some character) native mask entries).0
      ≡ (if same_names server character server' character'
          then (if expected != 0 && native != expected then none else some mask)
          else try_lookup_character_class_mask (some server') (some character') expected entries)
unfolding store_character_class_mask try_lookup_character_class_mask lookup_named
lookup-store server character server' character' native mask expected entries stored =
    let (sv, ch, good, put) = store_true server character native mask entries stored in
    let new = new_entry server character native mask in
    rw put
      (elim (Bool-cases (is_nil (normalize_name server') || is_nil (normalize_name character'))) [
        | inl unnamed ↦
            let differs : same_names server character server' character' ≡ false =
              nil_differs (normalize_name server) (normalize_name character)
                (normalize_name server') (normalize_name character') sv ch unnamed in
            rw (unnamed, differs)
        | inr named ↦
            let found =
              find-put_entry (normalize_name server') (normalize_name character') character'
                expected new entries in
            let checked =
              entry_mask-new_entry server character character' native mask expected good
                (normalize_name-is_nil character' (ground arith)) in
            rw named (unfold find in rw checked at found)
      ])
