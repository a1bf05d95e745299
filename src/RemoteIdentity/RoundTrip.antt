-- ===== src/RemoteIdentity/RoundTrip.antt =====
-- The remote identity payload as its sender writes it, and what ParsePayload makes of it.
use mathlib.Core.Path.{subst}
use mathlib.Core.List.{append_assoc, append-nil}
use eqemu_monomyth_client.Prelude.{
  ℕ, ◌+◌, ◌-◌, ◌*◌, ◌%◌, ◌^◌, ◌≤◌, ◌<◌, ◌≡◌, ◌∙◌, refl, inl, inr, true, false, Bool-cases, List, [],
  ◌∷◌, ◌++◌, not, some, length, length-append, All, select, ltb, leb, arith,
}
use eqemu_monomyth_client.Wire.Bytes.{Memory, text_end, bytes_at}
use eqemu_monomyth_client.Wire.Layout.{
  Lays, Lays-append_left, Lays-append_right, word_bytes, text_bytes, IsText, word_at-word_bytes,
  text_end-text_bytes, bytes_at-Lays,
}
use eqemu_monomyth_client.RemoteIdentity.Parse.{
  ParsedEntry, ParseResult, is_acceptable_entry, keep_entry, read_entry, read_entries,
  parse_counted, parse_payload, try_read_u32, try_read_c_string,
  max_possible_entries_for_payload_length,
}

-- One entry on the wire: the name and its 0, the class id, the mask.
abbrev pub entry_bytes : ParsedEntry → List ℕ
entry_bytes e =
    text_bytes e.character_name ++ (word_bytes e.native_class_id ++ word_bytes e.classes_bitmask)

abbrev pub entries_bytes : List ParsedEntry → List ℕ
entries_bytes [] = []
entries_bytes (e ∷ es) = entry_bytes e ++ entries_bytes es

abbrev pub payload_bytes : List ParsedEntry → List ℕ
payload_bytes es = word_bytes (length es) ++ entries_bytes es

-- A name without a 0 byte, and two 32-bit words.
abbrev pub IsWireEntry : ParsedEntry → Type 0
IsWireEntry e =
    IsText e.character_name × (e.native_class_id < 2 ^ 32) × (e.classes_bitmask < 2 ^ 32)

length-entry_bytes : (e : ParsedEntry) → length (entry_bytes e) ≡ length e.character_name + 9
length-entry_bytes e = omega (
  arith,
  length-append (text_bytes e.character_name)
      (word_bytes e.native_class_id ++ word_bytes e.classes_bitmask),
  length-append e.character_name (0 ∷ []),
)

module _ (m : Memory) (n : ℕ) (bounded : n < 2 ^ 32) where
  try_read_u32-word_bytes :
      (c v : ℕ) → v < 2 ^ 32 → c + 4 ≤ n → Lays m c (word_bytes v) → try_read_u32 m n c ≡ some v
  unfolding try_read_u32
  try_read_u32-word_bytes c v lt fits lays =
      let reads = word_at-word_bytes m c v lt lays in ground arith

  try_read_c_string-text_bytes :
      (c : ℕ) (s : List ℕ)
      → IsText s
      → c + length s < n
      → Lays m c (text_bytes s)
      → try_read_c_string m n c ≡ some (s, c + length s + 1)
  unfolding try_read_c_string
  try_read_c_string-text_bytes c s text fits lays =
      let ends : text_end m (n - c) c ≡ c + length s =
        text_end-text_bytes m (n - c) c s text (omega arith) lays in
      let span : c + length s - c ≡ length s = omega arith in
      let copied : bytes_at m c (length s) ≡ s =
        bytes_at-Lays m c s (Lays-append_left m c s (0 ∷ []) lays) in
      let before : leb n c ≡ false = ground arith in
      let inside : leb n (c + length s) ≡ false = ground arith in
      let wrap : (c + length s + 1) % 2 ^ 32 ≡ c + length s + 1 = omega arith in
      rw (before, ends, inside, span, copied, wrap)

  read_entry-entry_bytes :
      (c : ℕ) (e : ParsedEntry)
      → IsWireEntry e
      → c + length (entry_bytes e) ≤ n
      → Lays m c (entry_bytes e)
      → read_entry m n c ≡ some (e, c + length (entry_bytes e))
  unfolding read_entry
  read_entry-entry_bytes c e (text, native, mask) fits lays =
      let s = e.character_name in
      let size = length-entry_bytes e in
      let c1 = c + length s + 1 in
      let words =
        subst (λ k. Lays m k (word_bytes e.native_class_id ++ word_bytes e.classes_bitmask))
          (let e1 : c + length (text_bytes s) ≡ c1 = omega (arith, length-append s (0 ∷ [])) in e1)
          (Lays-append_right m c (text_bytes s) _ lays) in
      let name =
        try_read_c_string-text_bytes c s text (omega (arith, size))
          (Lays-append_left m c (text_bytes s) _ lays) in
      let first = try_read_u32-word_bytes c1 e.native_class_id native (omega (arith, size)) (
        Lays-append_left m c1 (word_bytes e.native_class_id) (word_bytes e.classes_bitmask)
          words) in
      let wrap : (c1 + 4) % 2 ^ 32 ≡ c1 + 4 = omega (arith, size) in
      let second = try_read_u32-word_bytes (c1 + 4) e.classes_bitmask mask (omega (arith, size)) (
        Lays-append_right m c1 (word_bytes e.native_class_id) (word_bytes e.classes_bitmask)
          words) in
      let after : (c1 + 8) % 2 ^ 32 ≡ c + length (entry_bytes e) = omega (arith, size) in
      rw (name, first, wrap, second, after)

abbrev pub accepted : List ParsedEntry → List ParsedEntry
accepted es = select is_acceptable_entry es

abbrev pub rejected : List ParsedEntry → List ParsedEntry
rejected es = select (λ e. not (is_acceptable_entry e)) es

-- The result after the entries `es`, from a result `r`.
abbrev extended : ParseResult → List ParsedEntry → ParseResult
extended r es = record {
  valid = true;
  declared_entry_count = r.declared_entry_count;
  parsed_entry_count = r.parsed_entry_count + length es;
  accepted_entry_count = r.accepted_entry_count + length (accepted es);
  rejected_entry_count = r.rejected_entry_count + length (rejected es);
  entries = r.entries ++ accepted es;
}

same_result :
    {d p p' a a' j j' : ℕ} {es es' : List ParsedEntry}
    → p ≡ p'
    → a ≡ a'
    → j ≡ j'
    → es ≡ es'
    → ◌≡◌ {A = ParseResult}
        (record {
          valid = true;
          declared_entry_count = d;
          parsed_entry_count = p;
          accepted_entry_count = a;
          rejected_entry_count = j;
          entries = es;
        })
        (record {
          valid = true;
          declared_entry_count = d;
          parsed_entry_count = p';
          accepted_entry_count = a';
          rejected_entry_count = j';
          entries = es';
        })
same_result {d = d} ep ea ej ee = λ i. record {
  valid = true;
  declared_entry_count = d;
  parsed_entry_count = ep i;
  accepted_entry_count = ea i;
  rejected_entry_count = ej i;
  entries = ee i;
}

extended-keep_entry :
    (r : ParseResult) (e : ParsedEntry) (es : List ParsedEntry)
    → extended (keep_entry r e) es ≡ extended r (e ∷ es)
unfolding keep_entry
extended-keep_entry r e es = elim (Bool-cases (is_acceptable_entry e)) [
  | inl good ↦
      rw good (
        same_result (omega arith) (omega arith) refl
          (append_assoc r.entries (e ∷ []) (accepted es)))
  | inr bad ↦ rw bad (same_result (omega arith) refl (omega arith) refl)
]

read_entries-extended :
    (m : Memory) (n : ℕ)
    → n < 2 ^ 32
    → (es : List ParsedEntry) (c : ℕ) (r : ParseResult) → All IsWireEntry es
    → c + length (entries_bytes es) ≤ n
    → Lays m c (entries_bytes es)
    → read_entries m n (length es) c r ≡ extended r es
unfolding read_entries
read_entries-extended m n bounded [] c r wire fits lays = ground (arith, append-nil r.entries)
read_entries-extended m n bounded (e ∷ es) c r wire fits lays =
    let size = length-append (entry_bytes e) (entries_bytes es) in
    let read =
      read_entry-entry_bytes m n bounded c e wire.0 (omega (arith, size, fits))
        (Lays-append_left m c (entry_bytes e) (entries_bytes es) lays) in
    rw (read, read_entries)
      (read_entries-extended m n bounded es (c + length (entry_bytes e)) (keep_entry r e) wire.1
          (omega (arith, size, fits))
          (Lays-append_right m c (entry_bytes e) (entries_bytes es) lays)
        ∙ extended-keep_entry r e es)

length-entries_bytes : (es : List ParsedEntry) → length es * 9 ≤ length (entries_bytes es)
length-entries_bytes [] = omega arith
length-entries_bytes (e ∷ es) = omega (
  arith,
  length-append (entry_bytes e) (entries_bytes es),
  length-entry_bytes e,
  length-entries_bytes es,
)

count_fits :
    (es : List ParsedEntry) (n : ℕ)
    → n ≡ length (payload_bytes es)
    → ltb (max_possible_entries_for_payload_length n) (length es) ≡ false
unfolding max_possible_entries_for_payload_length
count_fits es n e = ground (arith, length-entries_bytes es)

-- A payload written from a list of entries, each a name without 0 bytes and two 32-bit words, is
-- parsed as that list: the result is valid, declares and parses every entry, and holds in order
-- those that are acceptable.
pub parse_payload-entries_bytes :
    (m : Memory) (n : ℕ) (es : List ParsedEntry)
    → n < 2 ^ 32
    → n ≡ length (payload_bytes es)
    → All IsWireEntry es
    → Lays m 0 (payload_bytes es)
    → parse_payload (some m) n ≡ record {
      valid = true;
      declared_entry_count = length es;
      parsed_entry_count = length es;
      accepted_entry_count = length (accepted es);
      rejected_entry_count = length (rejected es);
      entries = accepted es;
    }
unfolding parse_payload parse_counted
parse_payload-entries_bytes m n es bounded e wire lays =
    let size = length-entries_bytes es in
    let counted =
      try_read_u32-word_bytes m n bounded 0 (length es) (omega (arith, size, e)) (omega (arith, e))
        (Lays-append_left m 0 (word_bytes (length es)) (entries_bytes es) lays) in
    let long : ltb n 4 ≡ false = ground (arith, e) in
    rw (long, counted, parse_payload, count_fits es n e)
      (read_entries-extended m n bounded es 4 _ wire (omega (arith, e))
          (Lays-append_right m 0 (word_bytes (length es)) (entries_bytes es) lays)
        ∙ ground arith)
