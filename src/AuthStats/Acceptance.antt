-- ===== src/AuthStats/Acceptance.antt =====
-- Which payloads ParsePayload accepts.
use native.Mathlib.Decide.{ℕ_discrete, dec_lt}
use eqemu_monomyth_client.Prelude.{
  ℕ, zero, suc, ◌+◌, ◌-◌, ◌*◌, ◌/◌, ◌%◌, ◌^◌, ◌≤◌, ◌<◌, ◌≡◌, ◌≢◌, ◌↔◌, ◌⊎◌, ◌∙◌, refl, inl, inr,
  true, false, ltb, ◌!=◌, List, [], ◌∷◌, none, some, Option-cases, arith,
}
use eqemu_monomyth_client.AuthStats.Read.{Pages, copy_bytes, safe_copy, read_u32_le, read_u64_le}
use eqemu_monomyth_client.AuthStats.Parse.{
  ParseResult, blank_result, u32_max, Round, next, stop, take_entry, read_value, parse_round,
  parse_entries, parse_counted, parse_present, parse_payload,
}

-- No byte from `lo` up to `hi` faults.
abbrev pub Readable : Pages → ℕ → ℕ → Type 0
Readable m lo hi = (j : ℕ) → lo ≤ j → j < hi → m j ≢ none

copy_bytes-Readable :
    (m : Pages) (c k : ℕ) (bs : List ℕ) → copy_bytes m c k ≡ some bs → Readable m c (c + k)
unfolding copy_bytes
copy_bytes-Readable m c zero bs h j lo hi = absurd (omega arith)
copy_bytes-Readable m c (suc k) bs h j lo hi = elim (Option-cases (copy_bytes m (c + 1) k)) [
  | inl fault ↦ ground arith
  | inr (rest, good) ↦ elim (ℕ_discrete c j) [
    | yes here ↦ ground arith
    | no later ↦ copy_bytes-Readable m (c + 1) k rest good j (omega arith) (omega arith)
  ]
]

copy_bytes_total :
    (m : Pages) (c k : ℕ) → Readable m c (c + k) → (bs : List ℕ) × (copy_bytes m c k ≡ some bs)
unfolding copy_bytes
copy_bytes_total m c zero h = ([], refl)
copy_bytes_total m c (suc k) h = elim (Option-cases (m c)) [
  | inl fault ↦ absurd (h c (omega arith) (omega arith) fault)
  | inr (b, good) ↦
      let (bs, rest) = copy_bytes_total m (c + 1) k (λ j lo hi. h j (omega arith) (omega arith)) in
      (b ∷ bs, rw (good, rest))
]

read_u32_le-Readable : (m : Pages) (n c v : ℕ) → read_u32_le m n c ≡ some v → Readable m c (c + 4)
unfolding read_u32_le safe_copy
read_u32_le-Readable m n c v h = elim (Option-cases (copy_bytes m c 4)) [
  | inl fault ↦ ground arith
  | inr (bs, good) ↦ copy_bytes-Readable m c 4 bs good
]

read_u64_le-Readable : (m : Pages) (n c v : ℕ) → read_u64_le m n c ≡ some v → Readable m c (c + 8)
unfolding read_u64_le safe_copy
read_u64_le-Readable m n c v h = elim (Option-cases (copy_bytes m c 8)) [
  | inl fault ↦ ground arith
  | inr (bs, good) ↦ copy_bytes-Readable m c 8 bs good
]

read_u32_le_total :
    (m : Pages) (n c : ℕ)
    → c + 4 ≤ n
    → Readable m c (c + 4)
    → (v : ℕ) × (read_u32_le m n c ≡ some v)
unfolding safe_copy
read_u32_le_total m n c fits h =
    let (bs, good) = copy_bytes_total m c 4 h in
    elim (Option-cases (read_u32_le m n c)) [
      | inl fault ↦ absurd (unfold read_u32_le in ground arith)
      | inr found ↦ found
    ]

read_u64_le_total :
    (m : Pages) (n c : ℕ)
    → c + 8 ≤ n
    → Readable m c (c + 8)
    → (v : ℕ) × (read_u64_le m n c ≡ some v)
unfolding safe_copy
read_u64_le_total m n c fits h =
    let (bs, good) = copy_bytes_total m c 8 h in
    elim (Option-cases (read_u64_le m n c)) [
      | inl fault ↦ absurd (unfold read_u64_le in ground arith)
      | inr found ↦ found
    ]

take_entry-valid : (r : ParseResult) (k v : ℕ) → (take_entry r k v).valid ≡ r.valid
unfolding take_entry
take_entry-valid r k v = ground arith

module _ (m : Pages) (n : ℕ) (bounded : n < 2 ^ 32) where
  value_offset : (i : ℕ) → 4 + i * 12 + 12 ≤ n → (4 + i * 12 + 4) % 2 ^ 32 ≡ 4 + i * 12 + 4
  value_offset i fits = omega arith

  -- A round that goes on has read its twelve bytes.
  parse_round-Readable :
      (i : ℕ) (r r' : ParseResult)
      → 4 + i * 12 + 12 ≤ n
      → parse_round m n i r ≡ next r'
      → (r'.valid ≡ r.valid) × Readable m (4 + i * 12) (4 + i * 12 + 12)
  unfolding parse_round read_value
  parse_round-Readable i r r' fits h =
      let wrap = value_offset i fits in
      elim (Option-cases (read_u32_le m n (4 + i * 12))) [
        | inl fault ↦ absurd (ground arith)
        | inr (key, key_read) ↦ elim (Option-cases (read_u64_le m n (4 + i * 12 + 4))) [
          | inl fault ↦ absurd (ground arith)
          | inr (value, value_read) ↦ (
            ground (arith, take_entry-valid r key value),
            λ j lo hi. elim (dec_lt j (4 + i * 12 + 4)) [
              | yes below ↦ read_u32_le-Readable m n (4 + i * 12) key key_read j lo below
              | no above ↦
                  read_u64_le-Readable m n (4 + i * 12 + 4) value value_read j (omega arith)
                    (omega arith)
            ],
          )
        ]
      ]

  parse_round_failed :
      (i : ℕ) (r r' : ParseResult) → parse_round m n i r ≡ stop r' → r'.valid ≡ r.valid
  unfolding parse_round read_value
  parse_round_failed i r r' h = ground arith

  parse_round_total :
      (i : ℕ) (r : ParseResult)
      → 4 + i * 12 + 12 ≤ n
      → Readable m (4 + i * 12) (4 + i * 12 + 12)
      → (r' : ParseResult) × (parse_round m n i r ≡ next r')
  unfolding parse_round read_value
  parse_round_total i r fits h =
      let (key, key_read) =
        read_u32_le_total m n (4 + i * 12) (omega arith) (λ j lo hi. h j lo (omega arith)) in
      let (value, value_read) =
        read_u64_le_total m n (4 + i * 12 + 4) (omega arith)
          (λ j lo hi. h j (omega arith) (omega arith)) in
      let small : ltb u32_max (4 + i * 12) ≡ false = ground arith in
      (
        take_entry r key value,
        rw (small, key_read, parse_round, value_offset i fits, value_read, read_value),
      )

  Round-cases :
      (o : Round) → ((r : ParseResult) × (o ≡ next r)) ⊎ ((r : ParseResult) × (o ≡ stop r))
  Round-cases (next r) = inl (r, refl)
  Round-cases (stop r) = inr (r, refl)

  parse_entries-Readable :
      (left i : ℕ) (r : ParseResult)
      → 4 + (i + left) * 12 ≤ n
      → r.valid ≡ false
      → (parse_entries m n left i r).valid ≡ true
      → Readable m (4 + i * 12) (4 + (i + left) * 12)
  unfolding parse_entries
  parse_entries-Readable zero i r fits fresh h j lo hi = absurd (omega arith)
  parse_entries-Readable (suc left) i r fits fresh h j lo hi =
      elim (Round-cases (parse_round m n i r)) [
        | inr (r', failed) ↦ absurd (ground (arith, parse_round_failed i r r' failed))
        | inl (r', went_on) ↦
            let (same, here) = parse_round-Readable i r r' (omega arith) went_on in
            elim (dec_lt j (4 + i * 12 + 12)) [
              | yes below ↦ here j lo below
              | no above ↦
                  parse_entries-Readable left (i + 1) r' (omega arith) (same ∙ fresh)
                    (rw (went_on, parse_entries) at h) j (omega arith) (omega arith)
            ]
      ]

  parse_entries_total :
      (left i : ℕ) (r : ParseResult)
      → 4 + (i + left) * 12 ≤ n
      → Readable m (4 + i * 12) (4 + (i + left) * 12)
      → (parse_entries m n left i r).valid ≡ true
  unfolding parse_entries
  parse_entries_total zero i r fits h = refl
  parse_entries_total (suc left) i r fits h =
      let (r', went_on) = parse_round_total i r (omega arith) (λ j lo hi. h j lo (omega arith)) in
      rw (went_on, parse_entries)
        (parse_entries_total left (i + 1) r' (omega arith)
          (λ j lo hi. h j (omega arith) (omega arith)))

-- A payload with a length below 2 ^ 32 is valid exactly when its first word, read as the count,
-- makes the length 4 + 12 * count, and no byte below the length faults.
pub parse_payload-valid_iff :
    (m : Pages) (n : ℕ)
    → n < 2 ^ 32
    → ((parse_payload (some m) n).valid ≡ true)
      ↔ ((count : ℕ) × (read_u32_le m n 0 ≡ some count) × (n ≡ 4 + count * 12) × Readable m 0 n)
unfolding parse_payload parse_present parse_counted
parse_payload-valid_iff m n bounded = (
  λ h. elim (Option-cases (read_u32_le m n 0)) [
    | inl fault ↦ absurd (ground arith)
    | inr (count, good) ↦
        let total : n ≡ 4 + count * 12 = ground arith in
        (
          count,
          good,
          total,
          λ j lo hi. elim (dec_lt j 4) [
            | yes head ↦ read_u32_le-Readable m n 0 count good j lo head
            | no body ↦
                parse_entries-Readable m n bounded count 0
                  (record (blank_result "unknown") { count = count }) (omega arith) refl
                  (ground arith) j (omega arith) (omega arith)
          ],
        )
  ],
  λ (count, good, total, readable).
      let long : ltb n 4 ≡ false = ground arith in
      let fits : ltb ((n - 4) / 12) count ≡ false = ground arith in
      let exact : (4 + count * 12 != n) ≡ false = ground arith in
      rw (long, good, parse_present, fits, exact)
        (parse_entries_total m n bounded count 0 _ (omega arith)
          (λ j lo hi. readable j (omega arith) (omega arith))),
)
