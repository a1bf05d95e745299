-- ===== src/Cache/Lookup.antt =====
-- A character's classes that were stored in the cache file are looked up again.
use eqemu_monomyth_client.Prelude.{
  ℕ, ◌%◌, ◌≡◌, ◌∙◌, ◌⊎◌, refl, sym, ap, inl, inr, true, false, Bool-cases, ltb, ◌||◌, List, [], ◌∷◌,
  Option, none, some, Option-cases, is_nil, eq_bytes, eq_bytes_iff, All, length, arith,
}
use mathlib.Core.Path.{subst}
use mathlib.Core.List.{Permᴰ}
use eqemu_monomyth_client.Wire.Names.{normalize_name}
use eqemu_monomyth_client.Cache.Lines.{CacheEntry, put_cache_entry, parse_cache_entries}
use eqemu_monomyth_client.Cache.Store.{
  max_cache_file_bytes, read_cache_entries, find_named, store_entry, listed_entries,
}
use eqemu_monomyth_client.Cache.Names.{
  has_name, OneForEachName, eq_bytes_sym, entries_of, parse_cache_entries-OneForEachName,
}
use eqemu_monomyth_client.Cache.RoundTrip.{IsWritable}

-- The entry is one of the list.
abbrev pub Held : CacheEntry → List CacheEntry → Type 0
Held e [] = ⊥
Held e (x ∷ xs) = (x ≡ e) ⊎ Held e xs

-- What a permutation of the entries keeps.
pub perm-All :
    (P : CacheEntry → Type 0) {xs ys : List CacheEntry} → Permᴰ xs ys → All P xs → All P ys
perm-All P Permᴰ.nil h = tt
perm-All P (Permᴰ.cons e d) h = (subst P e h.0, perm-All P d h.1)
perm-All P (Permᴰ.swap e f) h = (subst P f h.1.0, (subst P e h.0, h.1.1))
perm-All P (Permᴰ.trans d f) h = perm-All P f (perm-All P d h)

pub perm-Held : (e : CacheEntry) {xs ys : List CacheEntry} → Permᴰ xs ys → Held e xs → Held e ys
perm-Held e Permᴰ.nil h = h
perm-Held h (Permᴰ.cons e d) (inl here) = inl (sym e ∙ here)
perm-Held h (Permᴰ.cons e d) (inr later) = inr (perm-Held h d later)
perm-Held h (Permᴰ.swap e f) (inl here) = inr (inl (sym e ∙ here))
perm-Held h (Permᴰ.swap e f) (inr (inl here)) = inl (sym f ∙ here)
perm-Held h (Permᴰ.swap e f) (inr (inr later)) = inr (inr later)
perm-Held e (Permᴰ.trans d f) h = perm-Held e f (perm-Held e d h)

perm-has_name :
    (name : List ℕ) {xs ys : List CacheEntry} → Permᴰ xs ys → has_name name xs ≡ has_name name ys
perm-has_name name Permᴰ.nil = refl
perm-has_name name (Permᴰ.cons {a = a} e d) =
    let same = ap (λ x. eq_bytes x.normalized_name name) e in
    ground (arith, same, perm-has_name name d)
perm-has_name name (Permᴰ.swap e f) =
    let same = ap (λ x. eq_bytes x.normalized_name name) e in
    let other = ap (λ x. eq_bytes x.normalized_name name) f in ground (arith, same, other)
perm-has_name name (Permᴰ.trans d f) = perm-has_name name d ∙ perm-has_name name f

pub perm-OneForEachName :
    {xs ys : List CacheEntry} → Permᴰ xs ys → OneForEachName xs → OneForEachName ys
perm-OneForEachName Permᴰ.nil h = tt
perm-OneForEachName (Permᴰ.cons {a = a} {l₂ = l₂} e d) h = (
  ap (λ x. has_name x.normalized_name l₂) (sym e) ∙ sym (perm-has_name a.normalized_name d) ∙ h.0,
  perm-OneForEachName d h.1,
)
perm-OneForEachName (Permᴰ.swap {a = a} {b = b} {a' = a'} {b' = b'} {l = l} e f) h =
    let swapped = eq_bytes_sym a.normalized_name b.normalized_name in
    let apart : (eq_bytes b.normalized_name a.normalized_name || has_name a.normalized_name l)
        ≡ false =
      h.0 in
    let second : has_name b.normalized_name l ≡ false = h.1.0 in
    let first' : (eq_bytes a.normalized_name b.normalized_name || has_name b.normalized_name l)
        ≡ false =
      ground (arith, swapped, apart, second) in
    let second' : has_name a.normalized_name l ≡ false = ground (arith, apart) in
    subst (λ x. OneForEachName (x ∷ b' ∷ l)) f
      (subst (λ x. OneForEachName (b ∷ x ∷ l)) e (first', (second', h.1.1)))
perm-OneForEachName (Permᴰ.trans d f) h = perm-OneForEachName f (perm-OneForEachName d h)

Held-has_name :
    (e : CacheEntry) (name : List ℕ) (es : List CacheEntry)
    → has_name name es ≡ false
    → Held e es
    → eq_bytes e.normalized_name name ≡ false
Held-has_name e name [] absent held = absurd held
Held-has_name e name (x ∷ xs) absent (inl here) =
    let first' : eq_bytes x.normalized_name name ≡ false = ground (arith, absent) in
    ap (λ y. eq_bytes y.normalized_name name) (sym here) ∙ first'
Held-has_name e name (x ∷ xs) absent (inr later) =
    Held-has_name e name xs (ground (arith, absent)) later

find_named-first :
    (e : CacheEntry) (es : List CacheEntry)
    → is_nil e.normalized_server_name ≡ false
    → find_named e.normalized_name e.native_class_id e.normalized_server_name (e ∷ es)
      ≡ some e.classes_bitmask
unfolding find_named
find_named-first e es server =
    let name : eq_bytes e.normalized_name e.normalized_name ≡ true =
      (eq_bytes_iff e.normalized_name e.normalized_name).1 refl in
    let same : eq_bytes e.normalized_server_name e.normalized_server_name ≡ true =
      (eq_bytes_iff e.normalized_server_name e.normalized_server_name).1 refl in
    ground (arith, name, same, server)

-- The entry that is held is the one that is found, by its own name, class and server.
pub find_named-Held :
    (e : CacheEntry) (es : List CacheEntry)
    → is_nil e.normalized_server_name ≡ false
    → OneForEachName es
    → Held e es
    → find_named e.normalized_name e.native_class_id e.normalized_server_name es
      ≡ some e.classes_bitmask
unfolding find_named
find_named-Held e [] server one held = absurd held
find_named-Held e (x ∷ xs) server one (inl here) =
    ap (λ y. find_named e.normalized_name e.native_class_id e.normalized_server_name (y ∷ xs)) here
    ∙ find_named-first e xs server
find_named-Held e (x ∷ xs) server one (inr later) =
    let apart = Held-has_name e x.normalized_name xs one.0 later in
    let swapped = eq_bytes_sym e.normalized_name x.normalized_name in
    let other : eq_bytes x.normalized_name e.normalized_name ≡ false = sym swapped ∙ apart in
    simp (other) (find_named-Held e xs server one.1 later)

-- What StoreCharacterClassMask makes of its arguments.
abbrev pub stored : List ℕ → ℕ → ℕ → List ℕ → CacheEntry
stored name mask native server = record {
  name = name;
  normalized_name = normalize_name name;
  classes_bitmask = mask;
  native_class_id = native % 256;
  server_name = server;
  normalized_server_name = normalize_name server;
}

-- An entry of the same name is of the same server.
abbrev pub SameServer : CacheEntry → CacheEntry → Type 0
SameServer new entry =
    (entry.normalized_name ≡ new.normalized_name)
    → entry.normalized_server_name ≡ new.normalized_server_name

pub put-store_entry :
    (new : CacheEntry) (es : List CacheEntry)
    → All (SameServer new) es
    → store_entry new es ≡ put_cache_entry new es
unfolding store_entry put_cache_entry
put-store_entry new [] same = refl
put-store_entry new (e ∷ es) same =
    elim (Bool-cases (eq_bytes e.normalized_name new.normalized_name)) [
      | inl name ↦
          let names = (eq_bytes_iff e.normalized_name new.normalized_name).0 name in
          let server : eq_bytes e.normalized_server_name new.normalized_server_name ≡ true =
            (eq_bytes_iff e.normalized_server_name new.normalized_server_name).1 (same.0 names) in
          simp (name, server) (ap (λ n. record new { normalized_name = n } ∷ es) names)
      | inr other ↦ simp (other) (ap (◌∷◌ e) (put-store_entry new es same.1))
    ]

pub put_cache_entry-Held :
    (new : CacheEntry) (es : List CacheEntry) → Held new (put_cache_entry new es)
unfolding put_cache_entry
put_cache_entry-Held new [] = inl refl
put_cache_entry-Held new (e ∷ es) =
    elim (Bool-cases (eq_bytes e.normalized_name new.normalized_name)) [
      | inl name ↦ rw name (inl refl)
      | inr other ↦ rw other (inr (put_cache_entry-Held new es))
    ]

pub put_cache_entry-IsWritable :
    (new : CacheEntry) (es : List CacheEntry)
    → IsWritable new
    → All IsWritable es
    → All IsWritable (put_cache_entry new es)
unfolding put_cache_entry
put_cache_entry-IsWritable new [] w ws = (w, tt)
put_cache_entry-IsWritable new (e ∷ es) w ws =
    elim (Bool-cases (eq_bytes e.normalized_name new.normalized_name)) [
      | inl name ↦ rw name (w, ws.1)
      | inr other ↦ rw other (ws.0, put_cache_entry-IsWritable new es w ws.1)
    ]

pub read_cache_entries-OneForEachName :
    (file : Option (List ℕ)) → OneForEachName (listed_entries (read_cache_entries file))
unfolding read_cache_entries
read_cache_entries-OneForEachName none = tt
read_cache_entries-OneForEachName (some bytes) =
    elim (Bool-cases (ltb max_cache_file_bytes (length bytes))) [
      | inl large ↦ rw large tt
      | inr fits ↦ rw fits (elim (Option-cases (parse_cache_entries bytes)) [
        | inl refused ↦ rw refused tt
        | inr (entries, parsed) ↦ rw parsed (
            subst (λ r. OneForEachName (entries_of r)) parsed
              (parse_cache_entries-OneForEachName bytes))
      ])
    ]
