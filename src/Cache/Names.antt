-- ===== src/Cache/Names.antt =====
-- The entries that ParseCacheEntries makes: one for each name.
use eqemu_monomyth_client.Prelude.{
  ℕ, ◌≡◌, ◌∙◌, sym, refl, ap, inl, inr, Bool, false, Bool-cases, List, [], ◌∷◌, Option, none, some,
  Option-cases, any, eq_bytes, eq_bytes_iff, arith,
}
use eqemu_monomyth_client.Cache.Lines.{
  CacheEntry, CacheVersion, header_version, lines_of, strip_return, parse_line, put_cache_entry,
  parse_lines, parse_cache_lines, parse_cache_entries,
}

abbrev pub has_name : List ℕ → List CacheEntry → Bool
has_name name = any (λ e. eq_bytes e.normalized_name name)

-- No two entries have one normalised name.
abbrev pub OneForEachName : List CacheEntry → Type 0
OneForEachName [] = Unit {0}
OneForEachName (e ∷ es) = (has_name e.normalized_name es ≡ false) × OneForEachName es

pub eq_bytes_sym : (xs ys : List ℕ) → eq_bytes xs ys ≡ eq_bytes ys xs
eq_bytes_sym [] [] = refl
eq_bytes_sym [] (y ∷ ys) = refl
eq_bytes_sym (x ∷ xs) [] = refl
eq_bytes_sym (x ∷ xs) (y ∷ ys) = ground (arith, eq_bytes_sym xs ys)

-- A put adds the name of the new entry and no other.
has_name-put_cache_entry :
    (name : List ℕ) (new : CacheEntry) (es : List CacheEntry)
    → eq_bytes new.normalized_name name ≡ false
    → has_name name es ≡ false
    → has_name name (put_cache_entry new es) ≡ false
unfolding put_cache_entry
has_name-put_cache_entry name new [] other absent = ground arith
has_name-put_cache_entry name new (e ∷ es) other absent =
    ground (arith, has_name-put_cache_entry name new es)

pub put_cache_entry-OneForEachName :
    (new : CacheEntry) (es : List CacheEntry)
    → OneForEachName es
    → OneForEachName (put_cache_entry new es)
unfolding put_cache_entry
put_cache_entry-OneForEachName new [] one = (refl, tt)
put_cache_entry-OneForEachName new (e ∷ es) one =
    elim (Bool-cases (eq_bytes e.normalized_name new.normalized_name)) [
      | inl here ↦
          let same = (eq_bytes_iff e.normalized_name new.normalized_name).0 here in
          rw here (ap (λ n. has_name n es) (sym same) ∙ one.0, one.1)
      | inr later ↦
          let apart = eq_bytes_sym new.normalized_name e.normalized_name ∙ later in
          rw later (
            has_name-put_cache_entry e.normalized_name new es apart one.0,
            put_cache_entry-OneForEachName new es one.1,
          )
    ]

parse_lines-OneForEachName :
    (version : CacheVersion) (lines : List (List ℕ)) (es : List CacheEntry)
    → OneForEachName es
    → OneForEachName (parse_lines version lines es)
unfolding parse_lines
parse_lines-OneForEachName version [] es one = one
parse_lines-OneForEachName version (line ∷ rest) es one =
    elim (Option-cases (parse_line version (strip_return line))) [
      | inl skipped ↦ rw (skipped, parse_lines) (parse_lines-OneForEachName version rest es one)
      | inr (entry, good) ↦
          rw (good, parse_lines)
            (parse_lines-OneForEachName version rest (put_cache_entry entry es)
              (put_cache_entry-OneForEachName entry es one))
    ]

-- The entries of a result; none if the text is refused.
abbrev pub entries_of : Option (List CacheEntry) → List CacheEntry
entries_of none = []
entries_of (some entries) = entries

parse_cache_lines-OneForEachName :
    (lines : List (List ℕ)) → OneForEachName (entries_of (parse_cache_lines lines))
unfolding parse_cache_lines
parse_cache_lines-OneForEachName [] = tt
parse_cache_lines-OneForEachName (header ∷ rest) =
    elim (Option-cases (header_version (strip_return header))) [
      | inl unknown ↦ rw (unknown, parse_cache_lines) tt
      | inr (version, known) ↦
          rw (known, parse_cache_lines) (parse_lines-OneForEachName version rest [] tt)
    ]

-- The entries of a text have distinct normalised names.
pub parse_cache_entries-OneForEachName :
    (bytes : List ℕ) → OneForEachName (entries_of (parse_cache_entries bytes))
unfolding parse_cache_entries
parse_cache_entries-OneForEachName bytes = parse_cache_lines-OneForEachName (lines_of [] bytes)
