-- ===== src/Wire/Names.antt =====
-- Names, as src/remote_multiclass_identity.cpp and src/multiclass_cache.cpp normalise them. A
-- `std::string` is the list of its bytes, a `const char*` the bytes before its 0, or `none`.
use eqemu_monomyth_client.Prelude.{
  ℕ, ◌+◌, ◌≡◌, refl, ◌&&◌, leb, ◌==◌, List, [], ◌∷◌, arith, if◌then◌else◌,
}

-- `std::tolower` in the C locale.
abbrev pub tolower : ℕ → ℕ
tolower c = if leb b'A' c && leb c b'Z' then c + 32 else c

unfoldable pub normalize_name : List ℕ → List ℕ
normalize_name [] = []
normalize_name (ch ∷ rest) =
    let later = normalize_name rest in if ch == 0 then [] else tolower ch ∷ later

-- Normalising twice is normalising once: normalised names compare as they stand.
pub normalize_name_idem : (s : List ℕ) → normalize_name (normalize_name s) ≡ normalize_name s
unfolding normalize_name
normalize_name_idem [] = refl
normalize_name_idem (ch ∷ rest) = ground (arith, normalize_name_idem rest)
