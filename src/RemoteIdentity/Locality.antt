-- ===== src/RemoteIdentity/Locality.antt =====
-- What ParsePayload makes of a payload does not depend on bytes at or behind the payload's length.
use mathlib.Core.Path.{fun_ext}
use eqemu_monomyth_client.Prelude.{
  ℕ, zero, suc, ◌-◌, ◌≡◌, refl, inl, inr, Bool-cases, some, Option-cases, ltb, leb, ◌||◌, arith,
}
use eqemu_monomyth_client.Wire.Bytes.{Memory, text_end}
use eqemu_monomyth_client.Wire.Layout.{
  SameBelow, text_end-SameBelow, text_end-ge, bytes_at-SameBelow, word_at-SameBelow,
}
use eqemu_monomyth_client.RemoteIdentity.Parse.{
  ParseResult, keep_entry, read_entry, read_entries, parse_counted, parse_payload, try_read_u32,
  try_read_c_string,
}

module _ (n : ℕ) (m m' : Memory) (same : SameBelow n m m') where
  try_read_u32-SameBelow : (c : ℕ) → try_read_u32 m n c ≡ try_read_u32 m' n c
  unfolding try_read_u32
  try_read_u32-SameBelow c = elim (Bool-cases (ltb n c || ltb (n - c) 4)) [
    | inl out ↦ rw out
    | inr inside ↦ rw (inside, word_at-SameBelow n m m' c same (ground arith))
  ]

  try_read_c_string-SameBelow : (c : ℕ) → try_read_c_string m n c ≡ try_read_c_string m' n c
  unfolding try_read_c_string
  try_read_c_string-SameBelow c = elim (Bool-cases (leb n c)) [
    | inl out ↦ rw out
    | inr inside ↦
        let ends = text_end-SameBelow n m m' (n - c) c same (ground arith) in
        elim (Bool-cases (leb n (text_end m' (n - c) c))) [
          | inl open_text ↦ rw (inside, ends, open_text)
          | inr closed ↦ rw (
            inside,
            ends,
            closed,
            bytes_at-SameBelow n m m' c (text_end m' (n - c) c - c) same
                (ground (arith, text_end-ge m' (n - c) c)),
          )
        ]
  ]

  read_entry-SameBelow : (c : ℕ) → read_entry m n c ≡ read_entry m' n c
  unfolding read_entry
  read_entry-SameBelow c = rw (fun_ext try_read_u32-SameBelow, fun_ext try_read_c_string-SameBelow)

  read_entries-SameBelow :
      (left c : ℕ) (r : ParseResult) → read_entries m n left c r ≡ read_entries m' n left c r
  unfolding read_entries
  read_entries-SameBelow zero c r = refl
  read_entries-SameBelow (suc left) c r = elim (Option-cases (read_entry m' n c)) [
    | inl fault ↦ rw (read_entry-SameBelow c, fault, read_entries)
    | inr ((e, after), good) ↦
        rw (read_entry-SameBelow c, good, read_entries)
          (read_entries-SameBelow left after (keep_entry r e))
  ]

  parse_counted-SameBelow : (count : ℕ) → parse_counted m n count ≡ parse_counted m' n count
  unfolding parse_counted
  parse_counted-SameBelow count = rw (read_entries-SameBelow count 4 _)

  -- Two payloads of the same length that agree on the bytes below it are parsed alike: the result
  -- does not depend on a byte at or behind the length that the caller states.
  pub parse_payload-SameBelow : parse_payload (some m) n ≡ parse_payload (some m') n
  unfolding parse_payload
  parse_payload-SameBelow = elim (Option-cases (try_read_u32 m' n 0)) [
    | inl fault ↦ rw (try_read_u32-SameBelow 0, fault, parse_payload)
    | inr (count, good) ↦
        rw (try_read_u32-SameBelow 0, good, parse_payload) (rw (parse_counted-SameBelow count))
  ]
