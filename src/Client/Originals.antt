-- ===== src/Client/Originals.antt =====
-- Where a class was copied from, its bytes are those that were read.
use eqemu_monomyth_client.Prelude.{
  ℕ, zero, suc, ◌+◌, ◌-◌, ◌/◌, ◌%◌, ◌^◌, ◌<◌, ◌≡◌, ◌∙◌, refl, ap, inl, inr, false, Bool-cases, ltb,
  ◌==◌, ◌||◌, List, [], ◌∷◌, Option, none, some, Option-cases, ◌>>=◌, length, get_or, arith,
}
use mathlib.Core.Path.{subst}
use eqemu_monomyth_client.AuthStats.Read.{Pages, copy_bytes, safe_copy}
use eqemu_monomyth_client.AuthStats.Words.{Lays}
use eqemu_monomyth_client.Wire.Layout.{word_bytes}
use eqemu_monomyth_client.Patch.Jump.{try_copy_bytes, word_in}
use eqemu_monomyth_client.Client.Read.{
  at_offset, read_word, read_byte, non_null, playable, read_class_record, visit_nodes,
  max_lookup_nodes, max_relative_lookup_offset, visit_lookup_context, visit_relative,
  read_relative_offset, try_resolve_lookup_class_record, try_read_local_player_pointer,
  try_read_local_char_data_pointer, try_read_eq_player_displayed_class_id,
  try_resolve_local_profile_class_storage, try_resolve_local_char_data_class_record_storage,
}
use eqemu_monomyth_client.Client.Override.{displayed_class}

-- Every byte that can be read is below 256.
abbrev pub AreBytes : Pages → Type 0
AreBytes memory = (i b : ℕ) → memory i ≡ some b → b < 256

bind-some :
    {A : Type 0} {B : Type 0} (o : Option A) (f : A → Option B) (b : B)
    → (o >>= f) ≡ some b
    → (a : A) × (o ≡ some a) × (f a ≡ some b)
bind-some none f b h = absurd (cc h)
bind-some (some a) f b h = (a, refl, h)

copy_bytes-Lays_back :
    (memory : Pages) (a n : ℕ) (bytes : List ℕ)
    → copy_bytes memory a n ≡ some bytes
    → Lays memory a bytes × (length bytes ≡ n)
unfolding copy_bytes
copy_bytes-Lays_back memory a zero bytes h =
    let e : [] ≡ bytes = cc h in subst (λ bs. Lays memory a bs × (length bs ≡ 0)) e (tt, refl)
copy_bytes-Lays_back memory a (suc n) bytes h =
    let (b, first', rest) = bind-some (memory a) _ bytes h in
    let (bs, later, last) = bind-some (copy_bytes memory (a + 1) n) _ bytes rest in
    let (lays, size) = copy_bytes-Lays_back memory (a + 1) n bs later in
    let e : b ∷ bs ≡ bytes = cc last in
    subst (λ l. Lays memory a l × (length l ≡ suc n)) e ((first', lays), ap suc size)

playable-some : (o : Option ℕ) (class_id : ℕ) → playable o ≡ some class_id → o ≡ some class_id
playable-some none class_id h = h
playable-some (some x) class_id h = ground (arith, h)

read_class_record-read :
    (memory : Pages) (node r c : ℕ)
    → read_class_record memory node ≡ some (r, c)
    → read_byte memory (at_offset r 0x3374) ≡ some c
unfolding read_class_record
read_class_record-read memory node r c h =
    let (class_record, there, rest) =
      bind-some (non_null (read_word memory (at_offset node 0x4))) _ (r, c) h in
    let (class_id, read, last) =
      bind-some (playable (read_byte memory (at_offset class_record 0x3374))) _ (r, c) rest in
    let e : class_record ≡ r = cc last in
    let k : class_id ≡ c = cc last in
    playable-some (read_byte memory (at_offset r 0x3374)) c
      (subst (λ x. playable (read_byte memory (at_offset x 0x3374)) ≡ some c) e (read ∙ ap some k))

visit_nodes-read :
    (left : ℕ) (memory : Pages) (key node r c : ℕ)
    → visit_nodes left memory key node ≡ some (r, c)
    → read_byte memory (at_offset r 0x3374) ≡ some c
unfolding visit_nodes
visit_nodes-read zero memory key node r c h = absurd (cc h)
visit_nodes-read (suc left) memory key node r c h = elim (Bool-cases (node == 0)) [
  | inl end ↦ absurd (cc (h, end))
  | inr there ↦ elim (Option-cases (read_word memory node)) [
    | inl faults ↦ absurd (cc (h, there, faults))
    | inr (node_key, read) ↦ elim (Bool-cases (node_key == key)) [
      | inl found ↦ read_class_record-read memory node r c (cc (h, there, read, found))
      | inr other ↦
          let after =
            bind-some (read_word memory (at_offset node 0xc)) (visit_nodes left memory key) (r, c)
              (cc (h, there, read, other)) in
          visit_nodes-read left memory key after.0 r c after.2
    ]
  ]
]

try_copy_bytes-Lays :
    (memory : Pages) (a n : ℕ) (bytes : List ℕ)
    → try_copy_bytes memory a (suc n) ≡ some bytes
    → Lays memory a bytes × (length bytes ≡ suc n)
unfolding try_copy_bytes safe_copy
try_copy_bytes-Lays memory a n bytes h = elim (Bool-cases (a == 0)) [
  | inl null ↦ absurd (cc (h, null))
  | inr there ↦
      let some_bytes : (suc n == 0) ≡ false = ground arith in
      copy_bytes-Lays_back memory a (suc n) bytes (cc (h, there, some_bytes))
]

one_byte :
    (memory : Pages) (a v : ℕ) (bytes : List ℕ)
    → Lays memory a bytes
    → length bytes ≡ 1
    → get_or bytes 0 0 ≡ v
    → Lays memory a (v ∷ [])
one_byte memory a v [] lays size e = absurd (omega arith)
one_byte memory a v (b ∷ []) lays size e = (lays.0 ∙ ap some e, tt)
one_byte memory a v (b ∷ c ∷ bytes) lays size e = absurd (omega arith)

pub read_byte-Lays :
    (memory : Pages) (a v : ℕ) → read_byte memory a ≡ some v → Lays memory a (v ∷ [])
unfolding read_byte
read_byte-Lays memory a v h =
    let (bytes, read, last) = bind-some (try_copy_bytes memory a 1) _ v h in
    let (lays, size) = try_copy_bytes-Lays memory a 0 bytes read in
    one_byte memory a v bytes lays size (cc last)

four_bytes :
    (memory : Pages) (a v : ℕ) (bytes : List ℕ)
    → AreBytes memory
    → Lays memory a bytes
    → length bytes ≡ 4
    → word_in bytes 0 ≡ v
    → Lays memory a (word_bytes v)
four_bytes memory a v (b0 ∷ b1 ∷ b2 ∷ b3 ∷ []) small (l0, (l1, (l2, (l3, l4)))) size e =
    let s0 = small a b0 l0 in
    let s1 = small (a + 1) b1 l1 in
    let s2 = small (a + 1 + 1) b2 l2 in
    let s3 = small (a + 1 + 1 + 1) b3 l3 in
    let e0 : b0 ≡ v % 256 = omega (arith, s0, s1, s2, s3, e) in
    let e1 : b1 ≡ v / 2 ^ 8 % 256 = omega (arith, s0, s1, s2, s3, e) in
    let e2 : b2 ≡ v / 2 ^ 16 % 256 = omega (arith, s0, s1, s2, s3, e) in
    let e3 : b3 ≡ v / 2 ^ 24 % 256 = omega (arith, s0, s1, s2, s3, e) in
    (l0 ∙ ap some e0, (l1 ∙ ap some e1, (l2 ∙ ap some e2, (l3 ∙ ap some e3, tt))))
four_bytes memory a v [] small lays size e = absurd (omega arith)
four_bytes memory a v (b0 ∷ []) small lays size e = absurd (omega arith)
four_bytes memory a v (b0 ∷ b1 ∷ []) small lays size e = absurd (omega arith)
four_bytes memory a v (b0 ∷ b1 ∷ b2 ∷ []) small lays size e = absurd (omega arith)
four_bytes memory a v (b0 ∷ b1 ∷ b2 ∷ b3 ∷ b4 ∷ bytes) small lays size e = absurd (omega arith)

pub read_word-Lays :
    (memory : Pages) (a v : ℕ)
    → AreBytes memory
    → read_word memory a ≡ some v
    → Lays memory a (word_bytes v)
unfolding read_word
read_word-Lays memory a v small h =
    let (bytes, read, last) = bind-some (try_copy_bytes memory a 4) _ v h in
    let (lays, size) = try_copy_bytes-Lays memory a 3 bytes read in
    four_bytes memory a v bytes small lays size (cc last)

pub displayed_class-Lays :
    (module_base : ℕ) (memory : Pages) (p c : ℕ)
    → displayed_class module_base memory ≡ some (p, c)
    → Lays memory (at_offset p 0x0fe0) (c ∷ [])
unfolding try_read_eq_player_displayed_class_id
displayed_class-Lays module_base memory p c h =
    elim (Option-cases (non_null (try_read_local_player_pointer module_base memory))) [
      | inl absent ↦ absurd (cc (h, absent))
      | inr (player, there) ↦
          elim (Option-cases (playable (try_read_eq_player_displayed_class_id memory player))) [
            | inl other ↦ absurd (cc (h, there, other))
            | inr (class_id, read) ↦
                let e : player ≡ p = cc (h, there, read) in
                let k : class_id ≡ c = cc (h, there, read) in
                let byte =
                  playable-some (try_read_eq_player_displayed_class_id memory player) class_id
                    read in
                elim (Bool-cases (player == 0)) [
                  | inl null ↦ absurd (cc (byte, null))
                  | inr not_null ↦ read_byte-Lays memory (at_offset p 0x0fe0) c (
                      subst (λ x. read_byte memory (at_offset x 0x0fe0) ≡ some c) e
                        (cc (byte, not_null, k)))
                ]
          ]
    ]

pub profile-Lays :
    (module_base : ℕ) (memory : Pages) (p c : ℕ)
    → AreBytes memory
    → try_resolve_local_profile_class_storage module_base memory ≡ some (p, c)
    → Lays memory (at_offset p 0x3374) (word_bytes c)
unfolding try_resolve_local_profile_class_storage
profile-Lays module_base memory p c small h =
    let (data1, r1, h1) =
      bind-some (non_null (try_read_local_char_data_pointer module_base memory)) _ (p, c) h in
    let (ci2, r2, h2) =
      bind-some (non_null (read_word memory (at_offset data1 0x31f0))) _ (p, c) h1 in
    let (profile, r3, h3) =
      bind-some (non_null (read_word memory (at_offset ci2 0x4))) _ (p, c) h2 in
    let (class_id, r4, h4) =
      bind-some (playable (read_word memory (at_offset profile 0x3374))) _ (p, c) h3 in
    let e : profile ≡ p = cc h4 in
    let k : class_id ≡ c = cc h4 in
    read_word-Lays memory (at_offset p 0x3374) c small (
      playable-some (read_word memory (at_offset p 0x3374)) c
        (subst (λ x. playable (read_word memory (at_offset x 0x3374)) ≡ some c) e (r4 ∙ ap some k)))

context-read :
    (memory : Pages) (lookup_context r c : ℕ)
    → visit_lookup_context memory lookup_context ≡ some (r, c)
    → read_byte memory (at_offset r 0x3374) ≡ some c
unfolding visit_lookup_context
context-read memory lookup_context r c h =
    let (node, r1, h1) = bind-some (read_word memory lookup_context) _ (r, c) h in
    let (key, r2, h2) = bind-some (read_word memory (at_offset lookup_context 0x4)) _ (r, c) h1 in
    visit_nodes-read max_lookup_nodes memory key node r c h2

relative-read :
    (memory : Pages) (context relative r c : ℕ)
    → visit_relative memory context relative ≡ some (r, c)
    → read_byte memory (at_offset r 0x3374) ≡ some c
unfolding visit_relative
relative-read memory context relative r c h =
    elim (Bool-cases
      (ltb max_relative_lookup_offset relative || ltb (2 ^ 32 - 1 - relative - 0x8) context)) [
        | inl too_far ↦ absurd (cc (h, too_far))
        | inr near ↦ context-read memory (context + relative + 0x8) r c (cc (h, near))
      ]

lookup-read :
    (memory : Pages) (context r c : ℕ)
    → try_resolve_lookup_class_record memory context ≡ some (r, c)
    → read_byte memory (at_offset r 0x3374) ≡ some c
unfolding try_resolve_lookup_class_record
lookup-read memory context r c h = elim (Bool-cases (context == 0)) [
  | inl null ↦ absurd (cc (h, null))
  | inr there ↦ elim (Option-cases (read_relative_offset memory context)) [
    | inl unread ↦ absurd (cc (h, there, unread))
    | inr (relative, read) ↦ relative-read memory context relative r c (cc (h, there, read))
  ]
]

pub class_record-Lays :
    (module_base : ℕ) (memory : Pages) (r c : ℕ)
    → try_resolve_local_char_data_class_record_storage module_base memory ≡ some (r, c)
    → Lays memory (at_offset r 0x3374) (c ∷ [])
unfolding try_resolve_local_char_data_class_record_storage
class_record-Lays module_base memory r c h =
    let (context, r1, h1) =
      bind-some (non_null (try_read_local_char_data_pointer module_base memory)) _ (r, c) h in
    read_byte-Lays memory (at_offset r 0x3374) c (lookup-read memory context r c h1)
