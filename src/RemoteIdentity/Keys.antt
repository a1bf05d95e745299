-- ===== src/RemoteIdentity/Keys.antt =====
-- The store holds at most one entry for each server and character, after any calls.
use eqemu_monomyth_client.Prelude.{
  ℕ, ◌≡◌, sym, inl, inr, Bool, false, Bool-cases, List, [], ◌∷◌, All, Option, none, some, ◌||◌, not,
  is_nil,
}
use eqemu_monomyth_client.Wire.Names.{normalize_name}
use eqemu_monomyth_client.Wire.Fold.{EqualFold, NoUpper, normalize_name-NoUpper, EqualFold-NoUpper}
use eqemu_monomyth_client.RemoteIdentity.Parse.{is_acceptable_remote_identity_entry}
use eqemu_monomyth_client.RemoteIdentity.Store.{
  StoredEntry, same_key, put_entry, store_named, store_character_class_mask, clear,
}
use eqemu_monomyth_client.RemoteIdentity.Lookup.{same_key_iff, new_entry}

abbrev pub key_of : StoredEntry → StoredEntry → Bool
key_of f e = same_key f.normalized_server_name f.normalized_character_name e

-- No two entries have one key.
abbrev pub DistinctKeys : List StoredEntry → Type 0
DistinctKeys [] = Unit {0}
DistinctKeys (e ∷ es) = All (λ f. key_of e f ≡ false) es × DistinctKeys es

-- A call of the store's interface.
pub data Call : Type 0 where
  store : Option (List ℕ) → Option (List ℕ) → ℕ → ℕ → Call
  clears : Call

unfoldable pub call : List StoredEntry → Call → List StoredEntry
call entries (store server character native mask) =
    (store_character_class_mask server character native mask entries).0
call entries clears = clear entries

unfoldable pub calls : List StoredEntry → List Call → List StoredEntry
calls entries [] = entries
calls entries (c ∷ cs) = calls (call entries c) cs

key_of_sym : (e f : StoredEntry) → key_of e f ≡ false → key_of f e ≡ false
key_of_sym e f h = elim (Bool-cases (key_of f e)) [
  | inl same ↦
      let k = (same_key_iff f.normalized_server_name f.normalized_character_name e).0 same in
      let back =
        (same_key_iff e.normalized_server_name e.normalized_character_name f).1
          (sym k.0, sym k.1) in
      cc
  | inr other ↦ other
]

-- The entries other than the stored key's keep their keys apart from a given one.
put_entry-All :
    (e new : StoredEntry) (es : List StoredEntry)
    → key_of e new ≡ false
    → All (λ f. key_of e f ≡ false) es
    → All (λ f. key_of e f ≡ false) (put_entry new es)
unfolding put_entry
put_entry-All e new [] h all = (h, tt)
put_entry-All e new (f ∷ es) h all = elim (Bool-cases (key_of new f)) [
  | inl here ↦ rw here (all.0, all.1)
  | inr later ↦ rw later (all.0, put_entry-All e new es h all.1)
]

put_entry-DistinctKeys :
    (new : StoredEntry) (es : List StoredEntry) → DistinctKeys es → DistinctKeys (put_entry new es)
unfolding put_entry
put_entry-DistinctKeys new [] d = (tt, tt)
put_entry-DistinctKeys new (e ∷ es) d = elim (Bool-cases (key_of new e)) [
  | inl here ↦ rw here (d.0, d.1)
  | inr later ↦
      rw later
        (put_entry-All e new es (key_of_sym new e later) d.0, put_entry-DistinctKeys new es d.1)
]

store_named-DistinctKeys :
    (server character : List ℕ) (native mask : ℕ) (es : List StoredEntry)
    → DistinctKeys es
    → DistinctKeys (store_named server character native mask es).0
unfolding store_named
store_named-DistinctKeys server character native mask es d =
    elim (Bool-cases (
      is_nil (normalize_name server)
      || is_nil (normalize_name character)
      || not (is_acceptable_remote_identity_entry character native mask))) [
        | inl refused ↦ rw refused d
        | inr taken ↦
            rw taken (put_entry-DistinctKeys (new_entry server character native mask) es d)
      ]

call-DistinctKeys : (es : List StoredEntry) (c : Call) → DistinctKeys es → DistinctKeys (call es c)
unfolding call store_character_class_mask clear
call-DistinctKeys es (store none character native mask) d = d
call-DistinctKeys es (store (some server) none native mask) d = d
call-DistinctKeys es (store (some server) (some character) native mask) d =
    store_named-DistinctKeys server character native mask es d
call-DistinctKeys es clears d = tt

calls-keep : (cs : List Call) (es : List StoredEntry) → DistinctKeys es → DistinctKeys (calls es cs)
unfolding calls
calls-keep [] es d = d
calls-keep (c ∷ cs) es d = calls-keep cs (call es c) (call-DistinctKeys es c d)

-- After any calls no two entries have one stored key.
calls-DistinctKeys : (cs : List Call) → DistinctKeys (calls [] cs)
calls-DistinctKeys cs = calls-keep cs [] tt

-- The names of an entry have no capital letter.
abbrev Small : StoredEntry → Type 0
Small e = NoUpper e.normalized_server_name × NoUpper e.normalized_character_name

put_entry-Small :
    (new : StoredEntry) (es : List StoredEntry)
    → Small new
    → All Small es
    → All Small (put_entry new es)
unfolding put_entry
put_entry-Small new [] h all = (h, tt)
put_entry-Small new (e ∷ es) h all = elim (Bool-cases (key_of new e)) [
  | inl here ↦ rw here (all.0, all.1)
  | inr later ↦ rw later (all.0, put_entry-Small new es h all.1)
]

store_named-Small :
    (server character : List ℕ) (native mask : ℕ) (es : List StoredEntry)
    → All Small es
    → All Small (store_named server character native mask es).0
unfolding store_named
store_named-Small server character native mask es h =
    elim (Bool-cases (
      is_nil (normalize_name server)
      || is_nil (normalize_name character)
      || not (is_acceptable_remote_identity_entry character native mask))) [
        | inl refused ↦ rw refused h
        | inr taken ↦ rw taken (
            put_entry-Small (new_entry server character native mask) es
              (normalize_name-NoUpper server, normalize_name-NoUpper character) h)
      ]

call-Small : (es : List StoredEntry) (c : Call) → All Small es → All Small (call es c)
unfolding call store_character_class_mask clear
call-Small es (store none character native mask) h = h
call-Small es (store (some server) none native mask) h = h
call-Small es (store (some server) (some character) native mask) h =
    store_named-Small server character native mask es h
call-Small es clears h = tt

calls-Small : (cs : List Call) (es : List StoredEntry) → All Small es → All Small (calls es cs)
unfolding calls
calls-Small [] es h = h
calls-Small (c ∷ cs) es h = calls-Small cs (call es c) (call-Small es c h)

-- Two entries of one server and character, but for the case of the letters.
abbrev pub SameNames : StoredEntry → StoredEntry → Type 0
SameNames e f =
    EqualFold e.normalized_server_name f.normalized_server_name
    × EqualFold e.normalized_character_name f.normalized_character_name

-- No two entries are of one server and character.
abbrev pub DistinctNames : List StoredEntry → Type 0
DistinctNames [] = Unit {0}
DistinctNames (e ∷ es) = All (λ f. SameNames e f → ⊥) es × DistinctNames es

apart_from :
    (e : StoredEntry) (es : List StoredEntry)
    → Small e
    → All Small es
    → All (λ f. key_of e f ≡ false) es
    → All (λ f. SameNames e f → ⊥) es
apart_from e [] small all keys = tt
apart_from e (f ∷ es) small all keys = (
  λ same.
      let server =
        EqualFold-NoUpper e.normalized_server_name f.normalized_server_name small.0 all.0.0
          same.0 in
      let character =
        EqualFold-NoUpper e.normalized_character_name f.normalized_character_name small.1 all.0.1
          same.1 in
      let one =
        (same_key_iff e.normalized_server_name e.normalized_character_name f).1
          (sym server, sym character) in
      let other = keys.0 in cc,
  apart_from e es small all.1 keys.1,
)

DistinctKeys-DistinctNames :
    (es : List StoredEntry) → All Small es → DistinctKeys es → DistinctNames es
DistinctKeys-DistinctNames [] small keys = tt
DistinctKeys-DistinctNames (e ∷ es) small keys =
    (apart_from e es small.0 small.1 keys.0, DistinctKeys-DistinctNames es small.1 keys.1)

-- From the empty store, no sequence of store and clear calls makes two entries whose server names
-- and whose character names are the same but for the case of the letters from A to Z.
pub calls-DistinctNames : (cs : List Call) → DistinctNames (calls [] cs)
calls-DistinctNames cs =
    DistinctKeys-DistinctNames (calls [] cs) (calls-Small cs [] tt) (calls-DistinctKeys cs)
