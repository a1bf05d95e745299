-- ===== src/AuthStats/RoundTrip.antt =====
-- The stats payload as the server writes it, and what ParsePayload makes of it.
use mathlib.Core.Path.{subst}
use eqemu_monomyth_client.Prelude.{
  ℕ, ◌+◌, ◌-◌, ◌*◌, ◌/◌, ◌%◌, ◌^◌, ◌≤◌, ◌<◌, ◌≡◌, ◌∙◌, refl, true, false, ltb, ◌!=◌, List, [], ◌∷◌,
  ◌++◌, All, length, length-append, some, arith,
}
use eqemu_monomyth_client.Wire.Layout.{word_bytes}
use eqemu_monomyth_client.AuthStats.Read.{Pages}
use eqemu_monomyth_client.AuthStats.Words.{
  Lays, Lays-append_left, Lays-append_right, long_bytes, read_u32_le-word_bytes,
  read_u64_le-long_bytes,
}
use eqemu_monomyth_client.AuthStats.Parse.{
  ParseResult, blank_result, u32_max, next, take_entry, read_value, parse_round, parse_entries,
  parse_counted, parse_present, parse_payload,
}
use eqemu_monomyth_client.AuthStats.Tracking.{Stat, Records, take_entries, take_entries-Records}

abbrev pub stat_bytes : Stat → List ℕ
stat_bytes s = word_bytes s.key ++ long_bytes s.value

abbrev pub stats_bytes : List Stat → List ℕ
stats_bytes [] = []
stats_bytes (s ∷ ss) = stat_bytes s ++ stats_bytes ss

abbrev pub payload_bytes : List Stat → List ℕ
payload_bytes ss = word_bytes (length ss) ++ stats_bytes ss

-- A 32-bit key and a 64-bit value.
abbrev pub IsWireStat : Stat → Type 0
IsWireStat s = (s.key < 2 ^ 32) × (s.value < 2 ^ 64)

pub length-stats_bytes : (ss : List Stat) → length (stats_bytes ss) ≡ length ss * 12
length-stats_bytes [] = omega arith
length-stats_bytes (s ∷ ss) =
    omega (arith, length-append (stat_bytes s) (stats_bytes ss), length-stats_bytes ss)

module _ (m : Pages) (n : ℕ) (bounded : n < 2 ^ 32) where
  parse_round-stat_bytes :
      (i : ℕ) (s : Stat) (r : ParseResult)
      → IsWireStat s
      → 4 + i * 12 + 12 ≤ n
      → Lays m (4 + i * 12) (stat_bytes s)
      → parse_round m n i r ≡ next (take_entry r s.key s.value)
  unfolding parse_round read_value
  parse_round-stat_bytes i s r wire fits lays =
      let small : ltb u32_max (4 + i * 12) ≡ false = ground arith in
      let wrap : (4 + i * 12 + 4) % 2 ^ 32 ≡ 4 + i * 12 + 4 = omega arith in
      let key =
        read_u32_le-word_bytes m n (4 + i * 12) s.key wire.0 (omega arith)
          (Lays-append_left m (4 + i * 12) (word_bytes s.key) (long_bytes s.value) lays) in
      let value =
        read_u64_le-long_bytes m n (4 + i * 12 + 4) s.value wire.1 (omega arith)
          (Lays-append_right m (4 + i * 12) (word_bytes s.key) (long_bytes s.value) lays) in
      rw (small, key, parse_round, wrap, value, read_value)

  parse_entries-stats_bytes :
      (i : ℕ) (ss : List Stat) (r : ParseResult)
      → All IsWireStat ss
      → 4 + (i + length ss) * 12 ≤ n
      → Lays m (4 + i * 12) (stats_bytes ss)
      → parse_entries m n (length ss) i r
        ≡ record (take_entries r ss) { valid = true; malformed_reason = "" }
  unfolding parse_entries take_entries
  parse_entries-stats_bytes i [] r wire fits lays = refl
  parse_entries-stats_bytes i (s ∷ ss) r wire fits lays =
      let round =
        parse_round-stat_bytes i s r wire.0 (omega arith)
          (Lays-append_left m (4 + i * 12) (stat_bytes s) (stats_bytes ss) lays) in
      let later : 4 + i * 12 + 12 ≡ 4 + (i + 1) * 12 = omega arith in
      rw (round, parse_entries)
        (parse_entries-stats_bytes (i + 1) ss (take_entry r s.key s.value) wire.1 (omega arith) (
          subst (λ k. Lays m k (stats_bytes ss)) later
            (Lays-append_right m (4 + i * 12) (stat_bytes s) (stats_bytes ss) lays)))

abbrev counted : List Stat → ParseResult
counted ss = record (blank_result "unknown") { count = length ss }

counted-Records : (ss : List Stat) → Records (counted ss) []
counted-Records ss = record {
  classes = record { present = refl; latest = refl; repeated = refl };
  skills_low = record { present = refl; latest = refl; repeated = refl };
  skills_high = record { present = refl; latest = refl; repeated = refl };
  pet0 = record { present = refl; latest = refl; repeated = refl };
  pet1 = record { present = refl; latest = refl; repeated = refl };
  focused = record { present = refl; latest = refl; repeated = refl };
  oversized = refl;
  oversized_value = refl;
  not_understood = refl;
  known = refl;
}

take_entry-count : (r : ParseResult) (k v : ℕ) → (take_entry r k v).count ≡ r.count
unfolding take_entry
take_entry-count r k v = ground arith

take_entries-count : (r : ParseResult) (ss : List Stat) → (take_entries r ss).count ≡ r.count
unfolding take_entries
take_entries-count r [] = refl
take_entries-count r (s ∷ ss) =
    take_entries-count (take_entry r s.key s.value) ss ∙ take_entry-count r s.key s.value

payload_result :
    (m : Pages) (n : ℕ) (ss : List Stat)
    → n < 2 ^ 32
    → n ≡ length (payload_bytes ss)
    → All IsWireStat ss
    → Lays m 0 (payload_bytes ss)
    → parse_payload (some m) n
      ≡ record (take_entries (counted ss) ss) { valid = true; malformed_reason = "" }
unfolding parse_payload parse_counted
payload_result m n ss bounded e wire lays =
    let size = length-stats_bytes ss in
    let long : ltb n 4 ≡ false = ground (arith, e) in
    let total : n ≡ 4 + length ss * 12 = omega (arith, e, size) in
    let head =
      read_u32_le-word_bytes m n 0 (length ss) (omega arith) (omega arith)
        (Lays-append_left m 0 (word_bytes (length ss)) (stats_bytes ss) lays) in
    let fits : ltb ((n - 4) / 12) (length ss) ≡ false = ground (arith, total) in
    let exact : (4 + length ss * 12 != n) ≡ false = ground (arith, total) in
    rw (long, head, parse_present, fits, exact)
      (parse_entries-stats_bytes m n bounded 0 ss (counted ss) wire (omega arith)
        (Lays-append_right m 0 (word_bytes (length ss)) (stats_bytes ss) lays))

-- A payload written from a list of entries, each a 32-bit key and a 64-bit value, is valid, and
-- its result holds what the list says: the number of entries, each stat's last value in range
-- with its presence and repetition, the last classes value out of range, and the numbers of
-- known and of not understood entries.
pub parse_payload-payload_bytes :
    (m : Pages) (n : ℕ) (ss : List Stat)
    → n < 2 ^ 32
    → n ≡ length (payload_bytes ss)
    → All IsWireStat ss
    → Lays m 0 (payload_bytes ss)
    → ((parse_payload (some m) n).valid ≡ true)
      × ((parse_payload (some m) n).count ≡ length ss)
      × Records (parse_payload (some m) n) ss
parse_payload-payload_bytes m n ss bounded e wire lays =
    let rec = take_entries-Records (counted ss) [] ss (counted-Records ss) in
    rw (payload_result m n ss bounded e wire lays) (
      refl,
      take_entries-count (counted ss) ss,
      record {
        classes = rec.classes;
        skills_low = rec.skills_low;
        skills_high = rec.skills_high;
        pet0 = rec.pet0;
        pet1 = rec.pet1;
        focused = rec.focused;
        oversized = rec.oversized;
        oversized_value = rec.oversized_value;
        not_understood = rec.not_understood;
        known = rec.known;
      },
    )
