-- ===== src/RemoteIdentity/Counts.antt =====
-- What holds of every result of ParsePayload, whatever the payload.
use eqemu_monomyth_client.Prelude.{
  ℕ, zero, suc, ◌+◌, ◌≤◌, ◌≡◌, ◌⊎◌, inl, inr, refl, true, false, Bool-cases, Option-cases, List, [],
  ◌∷◌, ◌++◌, Option, none, some, length, length-append, All, arith, ltb,
}
use eqemu_monomyth_client.Wire.Bytes.{Memory}
use eqemu_monomyth_client.RemoteIdentity.Parse.{
  ParsedEntry, ParseResult, is_acceptable_entry, keep_entry, read_entry, read_entries,
  parse_counted, parse_payload, try_read_u32, max_possible_entries_for_payload_length,
}

-- The counts of a result agree with its entries, of which each is acceptable.
pub record IsConsistent (r : ParseResult) : Type 0 where
  pub accepted : r.accepted_entry_count ≡ length r.entries
  pub total : r.accepted_entry_count + r.rejected_entry_count ≡ r.parsed_entry_count
  pub acceptable : All (λ e. is_acceptable_entry e ≡ true) r.entries

All-append {ℓ κ} :
    {A : Type ℓ} (P : A → Type κ) (xs : List A) (y : A) → All P xs → P y → All P (xs ++ y ∷ [])
All-append P [] y h p = (p, tt)
All-append P (x ∷ xs) y h p = (h.0, All-append P xs y h.1 p)

keep_entry-IsConsistent :
    (r : ParseResult) (e : ParsedEntry) → IsConsistent r → IsConsistent (keep_entry r e)
unfolding keep_entry
keep_entry-IsConsistent r e h = elim (Bool-cases (is_acceptable_entry e)) [
  | inl good ↦ rw good (record {
    accepted = omega (arith, h.accepted, length-append r.entries (e ∷ []));
    total = omega (arith, h.total);
    acceptable = All-append _ r.entries e h.acceptable good;
  })
  | inr bad ↦
      rw bad (record {
        accepted = h.accepted;
        total = omega (arith, h.total);
        acceptable = h.acceptable;
      })
]

-- A result that is valid is consistent and has parsed all that was declared; one that is not
-- valid holds no entry, counts none as accepted or rejected, and has parsed no more than declared.
abbrev pub Outcome : ParseResult → Type 0
Outcome r =
    ((r.valid ≡ true) × (r.parsed_entry_count ≡ r.declared_entry_count) × IsConsistent r)
    ⊎ ((r.valid ≡ false)
        × (r.entries ≡ [])
        × (r.accepted_entry_count ≡ 0)
        × (r.rejected_entry_count ≡ 0)
        × (r.parsed_entry_count ≤ r.declared_entry_count))

keep_entry-counts :
    (r : ParseResult) (e : ParsedEntry)
    → ((keep_entry r e).parsed_entry_count ≡ r.parsed_entry_count + 1)
      × ((keep_entry r e).declared_entry_count ≡ r.declared_entry_count)
      × ((keep_entry r e).valid ≡ r.valid)
unfolding keep_entry
keep_entry-counts r e = ground arith

read_entries-Outcome :
    (m : Memory) (n left c : ℕ) (r : ParseResult)
    → r.parsed_entry_count + left ≡ r.declared_entry_count
    → IsConsistent r
    → Outcome (read_entries m n left c r)
unfolding read_entries
read_entries-Outcome m n zero c r e h = inl (
  refl,
  omega (arith, e),
  record { accepted = h.accepted; total = h.total; acceptable = h.acceptable },
)
read_entries-Outcome m n (suc left) c r e h = elim (Option-cases (read_entry m n c)) [
  | inl fault ↦ rw (fault, read_entries) (inr (refl, refl, refl, refl, omega arith))
  | inr ((entry, after), good) ↦
      rw (good, read_entries)
        (read_entries-Outcome m n left after (keep_entry r entry)
          (omega (arith, keep_entry-counts r entry, e)) (keep_entry-IsConsistent r entry h))
]

parse_counted-Outcome : (m : Memory) (n count : ℕ) → Outcome (parse_counted m n count)
unfolding parse_counted
parse_counted-Outcome m n count =
    elim (Bool-cases (ltb (max_possible_entries_for_payload_length n) count)) [
      | inl many ↦ rw many (inr (refl, refl, refl, refl, omega arith))
      | inr fits ↦ rw fits (
          read_entries-Outcome m n count 4 _ (omega arith)
            (record { accepted = refl; total = omega arith; acceptable = tt }))
    ]

-- Every result of ParsePayload, for any payload: either it is valid, it has parsed as many
-- entries as were declared, accepted plus rejected is parsed, and the entries are the accepted
-- ones, each acceptable; or it is not valid, holds no entry, counts none as accepted or rejected,
-- and has parsed no more entries than were declared.
pub parse_payload-Outcome : (payload : Option Memory) (n : ℕ) → Outcome (parse_payload payload n)
unfolding parse_payload
parse_payload-Outcome none n = inr (refl, refl, refl, refl, omega arith)
parse_payload-Outcome (some m) n = elim (Bool-cases (ltb n 4)) [
  | inl short ↦ rw short (inr (refl, refl, refl, refl, omega arith))
  | inr long ↦ elim (Option-cases (try_read_u32 m n 0)) [
    | inl fault ↦ rw (long, fault, parse_payload) (inr (refl, refl, refl, refl, omega arith))
    | inr (count, good) ↦ rw (long, good, parse_payload) (parse_counted-Outcome m n count)
  ]
]
