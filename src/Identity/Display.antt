-- ===== src/Identity/Display.antt =====
-- The class text: names or three-letter codes, joined by slashes. `std::wstring` and
-- `std::string` are native texts; a null pointer is `none`.
use Prim.Native.String.{String, ◌++◌ as ◌<>◌}
use eqemu_monomyth_client.Prelude.{
  ℕ, zero, suc, Bool, true, false, not, ◌==◌, List, [], ◌∷◌, Option, none, some, get_elem?,
  if◌then◌else◌,
}
use eqemu_monomyth_client.Identity.Mask.{is_playable_class_id}
use eqemu_monomyth_client.Identity.Order.{build_ordered_class_id_list}

pub data ClassDisplayStyle : Type 0 where
  full_name three_letter_code : ClassDisplayStyle

abbrev pub full_class_names : List String
full_class_names =
    "" ∷ "Warrior" ∷ "Cleric" ∷ "Paladin" ∷ "Ranger" ∷ "Shadow Knight" ∷ "Druid" ∷ "Monk" ∷ "Bard"
    ∷ "Rogue" ∷ "Shaman" ∷ "Necromancer" ∷ "Wizard" ∷ "Magician" ∷ "Enchanter" ∷ "Beastlord"
    ∷ "Berserker" ∷ []

abbrev pub three_letter_class_codes : List String
three_letter_class_codes =
    "" ∷ "WAR" ∷ "CLR" ∷ "PAL" ∷ "RNG" ∷ "SHD" ∷ "DRU" ∷ "MNK" ∷ "BRD" ∷ "ROG" ∷ "SHM" ∷ "NEC"
    ∷ "WIZ" ∷ "MAG" ∷ "ENC" ∷ "BST" ∷ "BER" ∷ []

abbrev pub full_class_names_ascii : List String
full_class_names_ascii =
    "" ∷ "Warrior" ∷ "Cleric" ∷ "Paladin" ∷ "Ranger" ∷ "Shadow Knight" ∷ "Druid" ∷ "Monk" ∷ "Bard"
    ∷ "Rogue" ∷ "Shaman" ∷ "Necromancer" ∷ "Wizard" ∷ "Magician" ∷ "Enchanter" ∷ "Beastlord"
    ∷ "Berserker" ∷ []

abbrev pub three_letter_class_codes_ascii : List String
three_letter_class_codes_ascii =
    "" ∷ "WAR" ∷ "CLR" ∷ "PAL" ∷ "RNG" ∷ "SHD" ∷ "DRU" ∷ "MNK" ∷ "BRD" ∷ "ROG" ∷ "SHM" ∷ "NEC"
    ∷ "WIZ" ∷ "MAG" ∷ "ENC" ∷ "BST" ∷ "BER" ∷ []

unfoldable pub class_display_token : ℕ → ClassDisplayStyle → Option String
class_display_token class_id style =
    if not (is_playable_class_id class_id)
    then none
    else get_elem?
        (elim style [ three_letter_code ↦ three_letter_class_codes | full_name ↦ full_class_names ])
        class_id

unfoldable pub class_display_token_ascii : ℕ → ClassDisplayStyle → Option String
class_display_token_ascii class_id style =
    if not (is_playable_class_id class_id)
    then none
    else get_elem?
        (elim style [
          | three_letter_code ↦ three_letter_class_codes_ascii
          | full_name ↦ full_class_names_ascii
        ])
        class_id

abbrev pub is_empty : String → Bool
is_empty String.[] = true
is_empty (String.◌∷◌ c s) = false

-- One round of the loop: a null or empty token is skipped.
unfoldable pub append_token : Option String → String → String
append_token none formatted = formatted
append_token (some token) formatted =
    if is_empty token
    then formatted
    else (if is_empty formatted then formatted else formatted <> "/") <> token

-- The loop over `class_ids[0 .. count)`.
unfoldable pub format_loop : (ℕ → Option String) → ℕ → List ℕ → String → String
format_loop token_of zero ids formatted = formatted
format_loop token_of (suc n) [] formatted = formatted
format_loop token_of (suc n) (id ∷ ids) formatted =
    format_loop token_of n ids (append_token (token_of id) formatted)

unfoldable pub format_class_display : ℕ → Bool → ℕ → ClassDisplayStyle → String
format_class_display primary_class_id has_class_mask class_mask style =
    let ids = build_ordered_class_id_list primary_class_id has_class_mask class_mask in
    if ids.count == 0
    then ""
    else format_loop (λ id. class_display_token id style) ids.count ids.class_ids ""

unfoldable pub format_class_display_ascii : ℕ → Bool → ℕ → ClassDisplayStyle → String
format_class_display_ascii primary_class_id has_class_mask class_mask style =
    let ids = build_ordered_class_id_list primary_class_id has_class_mask class_mask in
    if ids.count == 0
    then ""
    else format_loop (λ id. class_display_token_ascii id style) ids.count ids.class_ids ""
