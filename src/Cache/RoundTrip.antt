-- ===== src/Cache/RoundTrip.antt =====
-- The text that BuildCacheFileContents makes is parsed to the entries it was made from.
use eqemu_monomyth_client.Prelude.{
  ℕ, zero, suc, ◌^◌, ◌≤◌, ◌<◌, ◌≡◌, ◌∙◌, refl, sym, ap, inl, inr, true, false, Bool-cases, ltb,
  ◌==◌, ◌||◌, List, [], ◌∷◌, ◌++◌, some, is_nil, eq_bytes, any-append, All, arith,
}
use mathlib.Core.Path.{subst, ap₂}
use eqemu_monomyth_client.Wire.Names.{normalize_name}
use eqemu_monomyth_client.Cache.Lines.{
  CacheEntry, version_3, header_version, lines_of, strip_return, parse_tail, mask_field_of,
  parse_line, put_cache_entry, parse_lines, parse_cache_lines, parse_cache_entries,
}
use eqemu_monomyth_client.Cache.Store.{
  hex_text, dec_text, mask_text, tail_text, entry_line, entry_lines, build_cache_file_contents,
}
use eqemu_monomyth_client.Cache.Names.{has_name, OneForEachName, eq_bytes_sym}
use eqemu_monomyth_client.Cache.Text.{
  append_assoc, append-nil, Without, Without-append, lines_of-line, strip_return-append, cut-append,
  parse_hex_u32-hex_text, native_class_of-dec_text,
}

-- An entry that the file can hold: its names are not empty and hold no newline, the character's no
-- '|', its mask has 32 bits and its class id is 1 to 255.
pub record IsWritable (e : CacheEntry) : Type 0 where
  pub name_bytes : Without b'|' e.name
  pub name_line : Without 10 e.name
  pub server_line : Without 10 e.server_name
  pub named : is_nil (normalize_name e.name) ≡ false
  pub on_server : is_nil (normalize_name e.server_name) ≡ false
  pub name_normalized : e.normalized_name ≡ normalize_name e.name
  pub server_normalized : e.normalized_server_name ≡ normalize_name e.server_name
  pub mask_bound : e.classes_bitmask < 2 ^ 32
  pub class_from : 1 ≤ e.native_class_id
  pub class_to : e.native_class_id ≤ 255

pub not_nil : (s : List ℕ) → is_nil (normalize_name s) ≡ false → is_nil s ≡ false
unfolding normalize_name
not_nil [] h = h
not_nil (x ∷ xs) h = refl

-- The digits are no separators.
hex_text-Without : (places v c : ℕ) → (c == 10 || c == b'|') ≡ true → Without c (hex_text places v)
unfolding hex_text
hex_text-Without zero v c h = tt
hex_text-Without (suc places) v c h = (ground (arith, h), hex_text-Without places v c h)

dec_text-Without : (n c : ℕ) → n ≤ 255 → (c == 10 || c == b'|') ≡ true → Without c (dec_text n)
dec_text-Without n c high h = elim (Bool-cases (ltb n 10)) [
  | inl one ↦ rw one (ground (arith, h, one), tt)
  | inr more ↦ elim (Bool-cases (ltb n 100)) [
    | inl two ↦ rw (more, two) (ground (arith, h, two), (ground (arith, h, two), tt))
    | inr three ↦
        rw (more, three)
          (ground (arith, h, high), (ground (arith, h, high), (ground (arith, h, high), tt)))
  ]
]

parse_tail-dec_text :
    (e : CacheEntry)
    → IsWritable e
    → parse_tail version_3 (dec_text e.native_class_id ++ b'|' ∷ e.server_name)
      ≡ some (e.native_class_id, e.server_name)
unfolding parse_tail
parse_tail-dec_text e w =
    let fields =
      cut-append (dec_text e.native_class_id) e.server_name
        (dec_text-Without e.native_class_id b'|' w.class_to refl) in
    let class_id = native_class_of-dec_text e.native_class_id w.class_from w.class_to in
    let server = not_nil e.server_name w.on_server in simp (fields, class_id, server, w.on_server)

normalized-eq :
    (e : CacheEntry)
    → IsWritable e
    → record e {
      normalized_name = normalize_name e.name;
      normalized_server_name = normalize_name e.server_name;
    }
      ≡ e
normalized-eq e w =
    ap₂ (λ n s. record e { normalized_name = n; normalized_server_name = s })
      (sym w.name_normalized) (sym w.server_normalized)

parse_line-entry_line :
    (e : CacheEntry) → IsWritable e → parse_line version_3 (entry_line e) ≡ some e
unfolding parse_line mask_field_of
parse_line-entry_line e w =
    let digits : Without b'|' (mask_text e) = (
      (λ h. omega (arith, h)),
      ((λ h. omega (arith, h)), hex_text-Without 8 e.classes_bitmask b'|' refl),
    ) in
    let name = cut-append e.name (mask_text e ++ b'|' ∷ tail_text e) w.name_bytes in
    let mask = cut-append (mask_text e) (tail_text e) digits in
    let number = parse_hex_u32-hex_text e.classes_bitmask w.mask_bound in
    let behind = parse_tail-dec_text e w in
    let some_name = not_nil e.name w.named in
    rw (name, parse_line, some_name, mask, w.named, number, behind) (ap some (normalized-eq e w))

entry_line-Without : (e : CacheEntry) → IsWritable e → Without 10 (entry_line e)
entry_line-Without e w =
    Without-append 10 e.name (b'|' ∷ (mask_text e ++ (b'|' ∷ tail_text e))) w.name_line (
      (λ h. omega (arith, h)),
      Without-append 10 (mask_text e) (b'|' ∷ tail_text e)
          (
            (λ h. omega (arith, h)),
            ((λ h. omega (arith, h)), hex_text-Without 8 e.classes_bitmask 10 refl),
          )
          (
            (λ h. omega (arith, h)),
            Without-append 10 (dec_text e.native_class_id) (b'|' ∷ e.server_name)
                (dec_text-Without e.native_class_id 10 w.class_to refl)
                ((λ h. omega (arith, h)), w.server_line),
          ),
    )

-- The written line of an entry, in front of those behind it.
lines_of-entry_line :
    (e : CacheEntry) (later : List ℕ)
    → IsWritable e
    → lines_of [] (entry_line e ++ (13 ∷ 10 ∷ later))
      ≡ (entry_line e ++ (13 ∷ [])) ∷ lines_of [] later
lines_of-entry_line e later w =
    ap (lines_of []) (sym (append_assoc (entry_line e) (13 ∷ []) (10 ∷ later)))
    ∙ lines_of-line [] (entry_line e ++ (13 ∷ [])) later (
        Without-append 10 (entry_line e) (13 ∷ []) (entry_line-Without e w)
          ((λ h. omega (arith, h)), tt))

put_cache_entry-new :
    (new : CacheEntry) (es : List CacheEntry)
    → has_name new.normalized_name es ≡ false
    → put_cache_entry new es ≡ es ++ (new ∷ [])
unfolding put_cache_entry
put_cache_entry-new new [] h = refl
put_cache_entry-new new (e ∷ es) h =
    let other : eq_bytes e.normalized_name new.normalized_name ≡ false = ground (arith, h) in
    let later : has_name new.normalized_name es ≡ false = ground (arith, h) in
    simp (other) (ap (◌∷◌ e) (put_cache_entry-new new es later))

-- A name behind the others is none of theirs.
OneForEachName-fresh :
    (es : List CacheEntry) (new : CacheEntry) (later : List CacheEntry)
    → OneForEachName (es ++ (new ∷ later))
    → has_name new.normalized_name es ≡ false
OneForEachName-fresh [] new later h = refl
OneForEachName-fresh (e ∷ es) new later h =
    let apart : has_name e.normalized_name (es ++ (new ∷ later)) ≡ false = h.0 in
    let split = any-append (λ x. eq_bytes x.normalized_name e.normalized_name) es (new ∷ later) in
    let swapped = eq_bytes_sym e.normalized_name new.normalized_name in
    ground (arith, apart, split, swapped, OneForEachName-fresh es new later h.1)

parse_lines-some :
    (line : List ℕ) (e : CacheEntry) (lines : List (List ℕ)) (parsed : List CacheEntry)
    → parse_line version_3 (strip_return line) ≡ some e
    → parse_lines version_3 (line ∷ lines) parsed
      ≡ parse_lines version_3 lines (put_cache_entry e parsed)
unfolding parse_lines
parse_lines-some line e lines parsed read = rw (read, parse_lines)

parse_lines-read :
    (e : CacheEntry) (lines : List (List ℕ)) (parsed : List CacheEntry)
    → IsWritable e
    → parse_lines version_3 ((entry_line e ++ (13 ∷ [])) ∷ lines) parsed
      ≡ parse_lines version_3 lines (put_cache_entry e parsed)
parse_lines-read e lines parsed w =
    parse_lines-some (entry_line e ++ (13 ∷ [])) e lines parsed
      (ap (parse_line version_3) (strip_return-append (entry_line e)) ∙ parse_line-entry_line e w)

entry_lines-first :
    (e : CacheEntry) (es : List CacheEntry)
    → IsWritable e
    → entry_lines (e ∷ es) ≡ entry_line e ++ (13 ∷ 10 ∷ entry_lines es)
unfolding entry_lines
entry_lines-first e es w =
    let some_name = not_nil e.name w.named in
    let some_normalized : is_nil e.normalized_name ≡ false =
      ap is_nil w.name_normalized ∙ w.named in
    rw (some_name, some_normalized)

parse_lines-none :
    (parsed : List CacheEntry)
    → parse_lines version_3 (lines_of [] (entry_lines [])) parsed ≡ parsed ++ []
unfolding parse_lines lines_of entry_lines
parse_lines-none parsed = sym (append-nil parsed)

parse_lines-entry_lines :
    (es parsed : List CacheEntry)
    → All IsWritable es
    → OneForEachName (parsed ++ es)
    → parse_lines version_3 (lines_of [] (entry_lines es)) parsed ≡ parsed ++ es
parse_lines-entry_lines [] parsed w one = parse_lines-none parsed
parse_lines-entry_lines (e ∷ es) parsed w one =
    let shifted = append_assoc parsed (e ∷ []) es in
    let put = put_cache_entry-new e parsed (OneForEachName-fresh parsed e es one) in
    ap (λ t. parse_lines version_3 (lines_of [] t) parsed) (entry_lines-first e es w.0)
    ∙ ap (λ l. parse_lines version_3 l parsed) (lines_of-entry_line e (entry_lines es) w.0)
    ∙ parse_lines-read e (lines_of [] (entry_lines es)) parsed w.0
    ∙ ap (parse_lines version_3 (lines_of [] (entry_lines es))) put
    ∙ parse_lines-entry_lines es (parsed ++ (e ∷ [])) w.1 (subst OneForEachName (sym shifted) one)
    ∙ shifted

-- The text that the writer makes of entries that the file can hold, one for each character name,
-- is parsed to these entries, in the order in which the writer sorts them, whatever the sort.
pub parse_cache_entries-build :
    (sort : List CacheEntry → List CacheEntry) (entries : List CacheEntry)
    → All IsWritable (sort entries)
    → OneForEachName (sort entries)
    → parse_cache_entries (build_cache_file_contents sort entries) ≡ some (sort entries)
unfolding parse_cache_entries build_cache_file_contents parse_cache_lines header_version lines_of
    strip_return
parse_cache_entries-build sort entries w one =
    ap some (parse_lines-entry_lines (sort entries) [] w one)
