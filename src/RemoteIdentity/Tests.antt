-- ===== src/RemoteIdentity/Tests.antt =====
-- One payload of two entries, and a store of one character.
use eqemu_monomyth_client.Prelude.{
  ℕ, zero, suc, ◌<◌, ◌≡◌, refl, true, List, [], ◌∷◌, none, some, get_or, length, arith, ◌!=◌, ◌&&◌,
  if◌then◌else◌,
}
use eqemu_monomyth_client.Identity.Mask.{
  is_playable_class_id, is_playable_class_mask, has_class, class_bit,
}
use eqemu_monomyth_client.Wire.Names.{normalize_name}
use eqemu_monomyth_client.Wire.Bytes.{Memory}
use eqemu_monomyth_client.Wire.Layout.{Lays-get_or, SameBelow}
use eqemu_monomyth_client.RemoteIdentity.Parse.{
  is_acceptable_remote_identity_entry, ParsedEntry, parse_payload,
}
use eqemu_monomyth_client.RemoteIdentity.RoundTrip.{
  payload_bytes, accepted, rejected, parse_payload-entries_bytes,
}
use eqemu_monomyth_client.RemoteIdentity.Counts.{Outcome, parse_payload-Outcome}
use eqemu_monomyth_client.RemoteIdentity.Locality.{parse_payload-SameBelow}
use eqemu_monomyth_client.RemoteIdentity.Store.{
  store_named, put_entry, store_character_class_mask, try_lookup_character_class_mask,
}
use eqemu_monomyth_client.RemoteIdentity.Lookup.{same_names, lookup-store}
use eqemu_monomyth_client.RemoteIdentity.Keys.{
  Call, store, calls, DistinctNames, calls-DistinctNames,
}

-- "Ann", a warrior of the classes 1, 2 and 12; and an entry of no class.
abbrev ann : List ℕ
ann = b'A' ∷ b'n' ∷ b'n' ∷ []

abbrev ann_upper : List ℕ
ann_upper = b'A' ∷ b'N' ∷ b'N' ∷ []

abbrev server_name : List ℕ
server_name = b's' ∷ b'1' ∷ []

abbrev two_entries : List ParsedEntry
two_entries =
    record { character_name = ann; native_class_id = 1; classes_bitmask = 2051 }
    ∷ record { character_name = b'x' ∷ []; native_class_id = 2; classes_bitmask = 0 }
    ∷ []

abbrev payload : Memory
payload i = get_or (payload_bytes two_entries) i 0

-- The same bytes, with others behind them.
abbrev other_payload : Memory
other_payload i = get_or (payload_bytes two_entries) i 7

parse_payload-entries_bytes_example : parse_payload (some payload) 26 ≡ record {
  valid = true;
  declared_entry_count = length two_entries;
  parsed_entry_count = length two_entries;
  accepted_entry_count = length (accepted two_entries);
  rejected_entry_count = length (rejected two_entries);
  entries = accepted two_entries;
}
parse_payload-entries_bytes_example =
    parse_payload-entries_bytes payload 26 two_entries (omega arith) refl
      (
        (
          (λ e. absurd (omega arith), (λ e. absurd (omega arith), (λ e. absurd (omega arith), tt))),
          omega arith,
          omega arith,
        ),
        (((λ e. absurd (omega arith), tt), omega arith, omega arith), tt),
      )
      (Lays-get_or (payload_bytes two_entries))

parse_payload-Outcome_example : Outcome (parse_payload (some payload) 25)
parse_payload-Outcome_example = parse_payload-Outcome (some payload) 25

get_or_default : (xs : List ℕ) (i d d' : ℕ) → i < length xs → get_or xs i d ≡ get_or xs i d'
get_or_default [] i d d' h = absurd (omega arith)
get_or_default (x ∷ xs) zero d d' h = refl
get_or_default (x ∷ xs) (suc i) d d' h = get_or_default xs i d d' (omega arith)

agree_below : SameBelow 26 payload other_payload
agree_below i h = get_or_default (payload_bytes two_entries) i 0 7 h

parse_payload-SameBelow_example :
    parse_payload (some payload) 26 ≡ parse_payload (some other_payload) 26
parse_payload-SameBelow_example = parse_payload-SameBelow 26 payload other_payload agree_below

stored : (store_character_class_mask (some server_name) (some ann) 1 2051 []).1 ≡ true
unfolding store_character_class_mask store_named normalize_name is_acceptable_remote_identity_entry
    is_playable_class_id is_playable_class_mask has_class class_bit put_entry
stored = refl

lookup-store_example :
    try_lookup_character_class_mask
      (some server_name)
      (some ann_upper)
      1
      (store_character_class_mask (some server_name) (some ann) 1 2051 []).0
    ≡ (if same_names server_name ann server_name ann_upper
        then (if 1 != 0 && 1 != 1 then none else some 2051)
        else try_lookup_character_class_mask (some server_name) (some ann_upper) 1 [])
lookup-store_example = lookup-store server_name ann server_name ann_upper 1 2051 1 [] stored

abbrev three_calls : List Call
three_calls =
    store (some server_name) (some ann) 1 2051
    ∷ store (some server_name) (some ann_upper) 1 1
    ∷ store none (some ann) 1 1
    ∷ []

calls-DistinctNames_example : DistinctNames (calls [] three_calls)
calls-DistinctNames_example = calls-DistinctNames three_calls
