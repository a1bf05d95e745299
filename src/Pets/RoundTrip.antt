-- ===== src/Pets/RoundTrip.antt =====
-- The spawn packet as its sender writes it, and what ParseSingleSpawnPayload makes of it.
use mathlib.Core.Path.{subst}
use eqemu_monomyth_client.Prelude.{
  ℕ, ◌+◌, ◌-◌, ◌*◌, ◌%◌, ◌^◌, ◌≤◌, ◌<◌, ◌≡◌, refl, true, false, List, [], ◌∷◌, ◌++◌, some, is_nil,
  length, length-append, ltb, leb, arith,
}
use eqemu_monomyth_client.Wire.Bytes.{Memory, text_end, bytes_at}
use eqemu_monomyth_client.Wire.Layout.{
  Lays, Lays-append_left, Lays-append_right, word_bytes, text_bytes, IsText, word_at-word_bytes,
  text_end-text_bytes, bytes_at-Lays,
}
use eqemu_monomyth_client.Pets.Parse.{
  can_read_bytes, try_read_u8, try_read_u32, try_advance, try_read_c_string, parse_fields,
  parse_single_spawn_payload,
}

-- The fields of a spawn packet in their order, the ones that the parser skips as raw bytes.
pub record SpawnPacket : Type 0 where
  pub name : List ℕ
  pub spawn_id : ℕ
  pub appearance : List ℕ
  pub properties : List ℕ
  pub property_count : ℕ
  pub equipment : List ℕ
  pub last_name : List ℕ
  pub flags : List ℕ
  pub owner_id : ℕ
  pub remainder : List ℕ

abbrev pub packet_bytes : SpawnPacket → List ℕ
packet_bytes p =
    text_bytes p.name
    ++ (word_bytes p.spawn_id
        ++ (p.appearance
            ++ (p.property_count ∷ p.properties
                ++ (p.equipment
                    ++ (text_bytes p.last_name
                        ++ (p.flags ++ (word_bytes p.owner_id ++ p.remainder)))))))

-- The sizes that the packet's layout fixes, and the values that its fields hold.
abbrev pub IsSpawnPacket : SpawnPacket → Type 0
IsSpawnPacket p =
    IsText p.name
    × (is_nil p.name ≡ false)
    × (p.spawn_id < 2 ^ 32)
    × (length p.appearance ≡ 19)
    × (p.property_count < 256)
    × (length p.properties ≡ p.property_count * 4)
    × (length p.equipment ≡ 58)
    × IsText p.last_name
    × (length p.flags ≡ 6)
    × (p.owner_id < 2 ^ 32)

module _ (m : Memory) (n : ℕ) (bounded : n < 2 ^ 32) where
  try_read_u32-word_bytes :
      (c v : ℕ) → v < 2 ^ 32 → c + 4 ≤ n → Lays m c (word_bytes v) → try_read_u32 m n c ≡ some v
  unfolding try_read_u32 can_read_bytes
  try_read_u32-word_bytes c v lt fits lays =
      let reads = word_at-word_bytes m c v lt lays in ground arith

  try_read_u8-at : (c : ℕ) → c + 1 ≤ n → try_read_u8 m n c ≡ some (m c)
  unfolding try_read_u8 can_read_bytes
  try_read_u8-at c fits = ground arith

  try_advance-to : (c k : ℕ) → c + k ≤ n → try_advance n c k ≡ some (c + k)
  unfolding try_advance
  try_advance-to c k fits = ground arith

  try_read_c_string-text_bytes :
      (c : ℕ) (s : List ℕ)
      → IsText s
      → c + length s < n
      → Lays m c (text_bytes s)
      → try_read_c_string m n c ≡ some (s, c + length (text_bytes s))
  unfolding try_read_c_string
  try_read_c_string-text_bytes c s text fits lays =
      let ends : text_end m (n - c) c ≡ c + length s =
        text_end-text_bytes m (n - c) c s text (omega arith) lays in
      let span : c + length s - c ≡ length s = omega arith in
      let copied : bytes_at m c (length s) ≡ s =
        bytes_at-Lays m c s (Lays-append_left m c s (0 ∷ []) lays) in
      let before : leb n c ≡ false = ground arith in
      let inside : leb n (c + length s) ≡ false = ground arith in
      let wrap : (c + length s + 1) % 2 ^ 32 ≡ c + length (text_bytes s) =
        omega (arith, length-append s (0 ∷ [])) in
      rw (before, ends, inside, span, copied, wrap)

length-packet_bytes :
    (p : SpawnPacket)
    → length (packet_bytes p)
      ≡ length (text_bytes p.name)
        + 4
        + length p.appearance
        + 1
        + length p.properties
        + length p.equipment
        + length (text_bytes p.last_name)
        + length p.flags
        + 4
        + length p.remainder
length-packet_bytes p = omega (
  arith,
  length-append (text_bytes p.name) _,
  length-append p.appearance _,
  length-append p.properties _,
  length-append p.equipment _,
  length-append (text_bytes p.last_name) _,
  length-append p.flags _,
)

-- The bytes behind a field of known size.
behind :
    (m : Memory) (c k : ℕ) (xs ys : List ℕ)
    → length xs ≡ k
    → Lays m c (xs ++ ys)
    → Lays m (c + k) ys
behind m c k xs ys size lays =
    subst (λ j. Lays m (c + j) ys) size (Lays-append_right m c xs ys lays)

-- A spawn packet with a name that is not empty, both names without 0 bytes, as many properties
-- as its count says and every field of its fixed size is parsed: the entry has the packet's name,
-- spawn id and owner id, whatever the skipped fields hold and whatever follows the owner id.
pub parse_single_spawn_payload-packet_bytes :
    (m : Memory) (n : ℕ) (p : SpawnPacket)
    → n < 2 ^ 32
    → n ≡ length (packet_bytes p)
    → IsSpawnPacket p
    → Lays m 0 (packet_bytes p)
    → parse_single_spawn_payload (some m) n
      ≡ some (record { valid = true; spawn_id = p.spawn_id; owner_id = p.owner_id; name = p.name })
unfolding parse_single_spawn_payload parse_fields
parse_single_spawn_payload-packet_bytes m n p bounded e
      (text, named, small_id, look, small, many, worn, last, flags, small_owner) lays =
    let size = length-packet_bytes p in
    let c0 = 0 + length (text_bytes p.name) in
    let c3 = c0 + 4 + 19 + 1 in
    let c5 = c3 + p.property_count * 4 + 58 in
    let c6 = c5 + length (text_bytes p.last_name) in
    let l0 = behind m 0 (length (text_bytes p.name)) (text_bytes p.name) _ refl lays in
    let l1 = behind m c0 4 (word_bytes p.spawn_id) _ refl l0 in
    let l2 = behind m (c0 + 4) 19 p.appearance _ look l1 in
    let l4 = behind m c3 (p.property_count * 4) p.properties _ many l2.1 in
    let l5 = behind m (c3 + p.property_count * 4) 58 p.equipment _ worn l4 in
    let l6 = behind m c5 (length (text_bytes p.last_name)) (text_bytes p.last_name) _ refl l5 in
    let l7 = behind m c6 6 p.flags _ flags l6 in
    let r0 =
      try_read_c_string-text_bytes m n bounded 0 p.name text
        (omega (arith, length-append p.name (0 ∷ []))) (Lays-append_left m 0 _ _ lays) in
    let r1 =
      try_read_u32-word_bytes m n bounded c0 p.spawn_id small_id (omega arith)
        (Lays-append_left m c0 (word_bytes p.spawn_id) _ l0) in
    let a1 = try_advance-to m n bounded c0 4 (omega arith) in
    let a2 = try_advance-to m n bounded (c0 + 4) 19 (omega arith) in
    let r3 = try_read_u8-at m n bounded (c0 + 4 + 19) (omega arith) in
    let a3 = try_advance-to m n bounded (c0 + 4 + 19) 1 (omega arith) in
    let wrap : p.property_count * 4 % 2 ^ 32 ≡ p.property_count * 4 = omega arith in
    let a4 = try_advance-to m n bounded c3 (p.property_count * 4) (omega arith) in
    let a5 = try_advance-to m n bounded (c3 + p.property_count * 4) 58 (omega arith) in
    let r5 =
      try_read_c_string-text_bytes m n bounded c5 p.last_name last
        (omega (arith, length-append p.last_name (0 ∷ [])))
        (Lays-append_left m c5 (text_bytes p.last_name) _ l5) in
    let a6 = try_advance-to m n bounded c6 6 (omega arith) in
    let r7 =
      try_read_u32-word_bytes m n bounded (c6 + 6) p.owner_id small_owner (omega arith)
        (Lays-append_left m (c6 + 6) (word_bytes p.owner_id) _ l7) in
    let long : ltb n 8 ≡ false = ground (arith, e, size) in
    rw (long, r0, named, r1, a1, a2, r3, a3, l2.0, wrap, a4, a5, r5, a6, r7)
