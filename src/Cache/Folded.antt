-- ===== src/Cache/Folded.antt =====
-- The entries that ParseCacheEntries makes: one for each name as the file spells it, whatever the
-- case of its letters.
use mathlib.Core.Path.{subst}
use eqemu_monomyth_client.Prelude.{
  ℕ, ◌≡◌, ◌∙◌, sym, refl, inl, inr, false, Bool-cases, not, List, [], ◌∷◌, All, Option, none, some,
  Option-cases, is_nil, ◌>>=◌, guard, eq_bytes, eq_bytes_iff, ◌&&◌, arith,
}
use eqemu_monomyth_client.Wire.Names.{normalize_name}
use eqemu_monomyth_client.Wire.Fold.{EqualFold, normalize_name-EqualFold}
use eqemu_monomyth_client.Cache.Hex.{parse_hex_u32}
use eqemu_monomyth_client.Cache.Lines.{
  CacheEntry, CacheVersion, header_version, lines_of, strip_return, cut, mask_field_of, parse_tail,
  parse_line, put_cache_entry, parse_lines, parse_cache_lines, parse_cache_entries,
}
use eqemu_monomyth_client.Cache.Names.{
  has_name, OneForEachName, entries_of, parse_cache_entries-OneForEachName,
}

-- No two entries have one name, but for the case of its letters.
abbrev pub DistinctNames : List CacheEntry → Type 0
DistinctNames [] = Unit {0}
DistinctNames (e ∷ es) = All (λ f. EqualFold e.name f.name → ⊥) es × DistinctNames es

-- The entry's normalised name is that of its name.
abbrev Normalized : CacheEntry → Type 0
Normalized e = e.normalized_name ≡ normalize_name e.name

-- What is true of the result, if there is one.
abbrev IfSome {ℓ ℓ'} : {A : Type ℓ} → (A → Type ℓ') → Option A → Type ℓ'
IfSome P none = Unit
IfSome P (some a) = P a

IfSome-bind :
    {A B : Type 0} (P : B → Type 0) (o : Option A) (f : A → Option B)
    → ((a : A) → IfSome P (f a))
    → IfSome P (o >>= f)
IfSome-bind P none f h = tt
IfSome-bind P (some a) f h = h a

parse_line-Normalized :
    (version : CacheVersion) (line : List ℕ) → IfSome Normalized (parse_line version line)
unfolding parse_line
parse_line-Normalized version line = IfSome-bind Normalized (cut line) _ (λ parts.
    IfSome-bind Normalized (guard (not (is_nil parts.0) && not (is_nil parts.1))) _ (λ x.
      IfSome-bind Normalized (mask_field_of version parts.1) _ (λ fields.
        IfSome-bind Normalized (guard (not (is_nil (normalize_name parts.0)))) _ (λ y.
          IfSome-bind Normalized (parse_hex_u32 fields.0) _
            (λ mask. IfSome-bind Normalized (parse_tail version fields.1) _ (λ rest. refl))))))

put_cache_entry-All {ℓ} :
    (P : CacheEntry → Type ℓ) (new : CacheEntry) (es : List CacheEntry)
    → P new
    → All P es
    → All P (put_cache_entry new es)
unfolding put_cache_entry
put_cache_entry-All P new [] h all = (h, tt)
put_cache_entry-All P new (e ∷ es) h all =
    elim (Bool-cases (eq_bytes e.normalized_name new.normalized_name)) [
      | inl here ↦ rw here (h, all.1)
      | inr later ↦ rw later (all.0, put_cache_entry-All P new es h all.1)
    ]

parse_lines-Normalized :
    (version : CacheVersion) (lines : List (List ℕ)) (es : List CacheEntry)
    → All Normalized es
    → All Normalized (parse_lines version lines es)
unfolding parse_lines
parse_lines-Normalized version [] es all = all
parse_lines-Normalized version (line ∷ rest) es all =
    elim (Option-cases (parse_line version (strip_return line))) [
      | inl skipped ↦ rw (skipped, parse_lines) (parse_lines-Normalized version rest es all)
      | inr (entry, good) ↦
          let named =
            subst (IfSome Normalized) good (parse_line-Normalized version (strip_return line)) in
          rw (good, parse_lines)
            (parse_lines-Normalized version rest (put_cache_entry entry es)
              (put_cache_entry-All Normalized entry es named all))
    ]

parse_cache_lines-Normalized :
    (lines : List (List ℕ)) → All Normalized (entries_of (parse_cache_lines lines))
unfolding parse_cache_lines
parse_cache_lines-Normalized [] = tt
parse_cache_lines-Normalized (header ∷ rest) =
    elim (Option-cases (header_version (strip_return header))) [
      | inl unknown ↦ rw (unknown, parse_cache_lines) tt
      | inr (version, known) ↦
          rw (known, parse_cache_lines) (parse_lines-Normalized version rest [] tt)
    ]

parse_cache_entries-Normalized :
    (bytes : List ℕ) → All Normalized (entries_of (parse_cache_entries bytes))
unfolding parse_cache_entries
parse_cache_entries-Normalized bytes = parse_cache_lines-Normalized (lines_of [] bytes)

apart_from :
    (e : CacheEntry) (es : List CacheEntry)
    → Normalized e
    → All Normalized es
    → has_name e.normalized_name es ≡ false
    → All (λ f. EqualFold e.name f.name → ⊥) es
apart_from e [] named all absent = tt
apart_from e (f ∷ es) named all absent = (
  λ same.
      let one = all.0 ∙ sym (normalize_name-EqualFold e.name f.name same) ∙ sym named in
      let found = (eq_bytes_iff f.normalized_name e.normalized_name).1 one in
      ground (arith, found, absent),
  apart_from e es named all.1 (ground (arith, absent)),
)

OneForEachName-DistinctNames :
    (es : List CacheEntry) → All Normalized es → OneForEachName es → DistinctNames es
OneForEachName-DistinctNames [] all one = tt
OneForEachName-DistinctNames (e ∷ es) all one =
    (apart_from e es all.0 all.1 one.0, OneForEachName-DistinctNames es all.1 one.1)

-- Whatever the text of the cache file, ParseCacheEntries makes no two entries whose names, as the
-- file spells them, are the same but for the case of the letters from A to Z; the entries of one
-- name on two servers are one entry.
pub parse_cache_entries-DistinctNames :
    (bytes : List ℕ) → DistinctNames (entries_of (parse_cache_entries bytes))
parse_cache_entries-DistinctNames bytes =
    OneForEachName-DistinctNames (entries_of (parse_cache_entries bytes))
      (parse_cache_entries-Normalized bytes) (parse_cache_entries-OneForEachName bytes)
