-- ===== src/Identity/Format.antt =====
-- The class text in closed form.
use Prim.Native.String.{String, ◌++◌ as ◌<>◌}
use text.Mathlib.TextLemmas.{append-nil, append_assoc, nil-append, cons-append}
use eqemu_monomyth_client.Prelude.{
  ℕ, zero, suc, ◌+◌, ◌<◌, ◌≡◌, ◌∙◌, refl, sym, ap, inl, inr, Bool, true, false, Bool-cases, not,
  ◌==◌, List, [], ◌∷◌, map, All, Option, some, get_or, length, take, select, count_from, arith,
  if◌then◌else◌, holds_below, holds_below_at, get_elem?-eq-get_or, ◌||◌,
}
use eqemu_monomyth_client.Identity.Mask.{is_playable_class_id}
use eqemu_monomyth_client.Identity.Membership.{has_class_iff}
use eqemu_monomyth_client.Identity.Order.{build_ordered_class_id_list}
use eqemu_monomyth_client.Identity.Closed.{
  class_order, usable_mask, other_class, build_ordered_class_id_list-listed,
}
use eqemu_monomyth_client.Identity.Display.{
  ClassDisplayStyle, full_name, three_letter_code, full_class_names, three_letter_class_codes,
  class_display_token, class_display_token_ascii, is_empty, append_token, format_loop,
  format_class_display, format_class_display_ascii,
}

-- The name of a class in a style.
abbrev pub class_name : ClassDisplayStyle → ℕ → String
class_name style id =
    get_or
      (elim style [ three_letter_code ↦ three_letter_class_codes | full_name ↦ full_class_names ])
      id ""

-- Texts joined by slashes.
abbrev pub slashed : List String → String
slashed [] = ""
slashed (t ∷ ts) = "/" <> (t <> slashed ts)

abbrev pub joined : List String → String
joined [] = ""
joined (t ∷ ts) = t <> slashed ts

-- Every class of the order is playable.
AllPlayable : List ℕ → Type 0
AllPlayable ids = All (λ id. is_playable_class_id id ≡ true) ids

select-AllPlayable :
    (primary mask n a : ℕ) → AllPlayable (select (other_class primary mask) (count_from n a))
unfolding AllPlayable
select-AllPlayable primary mask zero a = tt
select-AllPlayable primary mask (suc n) a = elim (Bool-cases (other_class primary mask a)) [
  | inl hit ↦ rw hit (
    unfold is_playable_class_id in ground (arith, (has_class_iff mask a).0 (ground arith)),
    select-AllPlayable primary mask n (a + 1),
  )
  | inr miss ↦ rw miss (select-AllPlayable primary mask n (a + 1))
]

class_order-AllPlayable : (primary mask : ℕ) → AllPlayable (class_order primary mask)
unfolding AllPlayable
class_order-AllPlayable primary mask = elim (Bool-cases (is_playable_class_id primary)) [
  | inl play ↦ rw play (play, select-AllPlayable primary mask 16 1)
  | inr out ↦ rw out (select-AllPlayable primary mask 16 1)
]

-- A class that can be named.
abbrev IsNamed : ClassDisplayStyle → ℕ → Type 0
IsNamed style id =
    (class_display_token id style ≡ some (class_name style id))
    × (is_empty (class_name style id) ≡ false)

names_nonempty :
    (style : ClassDisplayStyle)
    → holds_below 17 (λ id. id == 0 || not (is_empty (class_name style id))) ≡ true
unfolding holds_below
names_nonempty full_name = refl
names_nonempty three_letter_code = refl

names_length :
    (style : ClassDisplayStyle)
    → length (elim style as (λ s. List String) [
      | three_letter_code ↦ three_letter_class_codes
      | full_name ↦ full_class_names
    ])
      ≡ 17
names_length full_name = refl
names_length three_letter_code = refl

playable-IsNamed :
    (style : ClassDisplayStyle) (id : ℕ) → is_playable_class_id id ≡ true → IsNamed style id
unfolding is_playable_class_id class_display_token
playable-IsNamed style id h =
    let lt : id < 17 = ground arith in
    (
      ground (
        arith,
        get_elem?-eq-get_or
            (elim style as (λ s. List String) [
              | three_letter_code ↦ three_letter_class_codes
              | full_name ↦ full_class_names
            ])
            id "" (omega (arith, names_length style)),
      ),
      ground (arith, holds_below_at 17 _ (names_nonempty style) id lt),
    )

module _ (token_of : ℕ → Option String) where
  each : List ℕ → String → String
  each [] formatted = formatted
  each (id ∷ ids) formatted = each ids (append_token (token_of id) formatted)

  format_loop-take :
      (n : ℕ) (ids : List ℕ) (formatted : String)
      → format_loop token_of n ids formatted ≡ each (take n ids) formatted
  unfolding format_loop each
  format_loop-take zero ids formatted = refl
  format_loop-take (suc n) [] formatted = refl
  format_loop-take (suc n) (id ∷ ids) formatted =
      format_loop-take n ids (append_token (token_of id) formatted)

is_empty-append : (s t : String) → is_empty s ≡ false → is_empty (s <> t) ≡ false
is_empty-append String.[] t h = cc
is_empty-append (String.◌∷◌ c s) t h = rw (cons-append c s t)

module _ (style : ClassDisplayStyle) (token_of : ℕ → Option String)
    (tokens : (id : ℕ) → token_of id ≡ class_display_token id style) where
  append_named :
      (id : ℕ) (formatted : String)
      → is_playable_class_id id ≡ true
      → append_token (token_of id) formatted
        ≡ (if is_empty formatted then formatted else formatted <> "/") <> class_name style id
  unfolding append_token
  append_named id formatted play =
      rw (tokens id, (playable-IsNamed style id play).0, (playable-IsNamed style id play).1)

  each-slashed :
      (ids : List ℕ) (formatted : String)
      → AllPlayable ids
      → is_empty formatted ≡ false
      → each token_of ids formatted ≡ formatted <> slashed (map (class_name style) ids)
  unfolding each AllPlayable
  each-slashed [] formatted h ne = sym (append-nil formatted)
  each-slashed (id ∷ ids) formatted h ne =
      let grown = (formatted <> "/") <> class_name style id in
      let step : append_token (token_of id) formatted ≡ grown =
        append_named id formatted h.0 ∙ rw ne in
      let kept : is_empty grown ≡ false =
        is_empty-append (formatted <> "/") (class_name style id)
          (is_empty-append formatted "/" ne) in
      rw step (
        each-slashed ids grown h.1 kept
        ∙ append_assoc (formatted <> "/") (class_name style id) _
        ∙ append_assoc formatted "/" _)

  each-joined :
      (ids : List ℕ) → AllPlayable ids → each token_of ids "" ≡ joined (map (class_name style) ids)
  unfolding each AllPlayable
  each-joined [] h = refl
  each-joined (id ∷ ids) h =
      rw (append_named id "" h.0, nil-append (class_name style id))
        (each-slashed ids (class_name style id) h.1 (playable-IsNamed style id h.0).1)

  guard_shown :
      (n : ℕ) (order : List ℕ) (text : String)
      → n ≡ length order
      → text ≡ joined (map (class_name style) order)
      → (if n == 0 then "" else text) ≡ joined (map (class_name style) order)
  guard_shown n [] text e h = rw e
  guard_shown n (id ∷ ids) text e h = let test : (n == 0) ≡ false = ground arith in rw test h

  joined_if :
      (usable : Bool) (order : List ℕ)
      → joined (map (class_name style) (if usable then order else []))
        ≡ (if usable then joined (map (class_name style) order) else "")
  joined_if true order = refl
  joined_if false order = refl

  -- What both formatters do with the list that was built.
  formatted_order :
      (primary : ℕ) (known : Bool) (mask : ℕ)
      → let ids = build_ordered_class_id_list primary known mask in
        (if ids.count == 0 then "" else format_loop token_of ids.count ids.class_ids "") ≡ (
          if usable_mask known mask
          then joined (map (class_name style) (class_order primary mask))
          else "")
  formatted_order primary known mask =
      let ids = build_ordered_class_id_list primary known mask in
      let built = build_ordered_class_id_list-listed primary known mask in
      let order = if usable_mask known mask then class_order primary mask else [] in
      let playable : AllPlayable order = elim (Bool-cases (usable_mask known mask)) [
        | inl usable ↦ rw usable (class_order-AllPlayable primary mask)
        | inr unusable ↦ rw unusable (unfold AllPlayable in tt)
      ] in
      let shown : format_loop token_of ids.count ids.class_ids ""
          ≡ joined (map (class_name style) order) =
        format_loop-take token_of ids.count ids.class_ids ""
        ∙ ap (λ l. each token_of l "") built.0
        ∙ each-joined order playable in
      guard_shown ids.count order _ built.1 shown
      ∙ joined_if (usable_mask known mask) (class_order primary mask)

-- FormatClassDisplay joins by slashes the names, in the style asked for, of the classes in the
-- order of BuildOrderedClassIdList; it gives the empty text when the mask is unknown, empty or
-- not playable. No class is skipped.
pub format_class_display-joined :
    (primary : ℕ) (known : Bool) (mask : ℕ) (style : ClassDisplayStyle)
    → format_class_display primary known mask style ≡ (
        if usable_mask known mask
        then joined (map (class_name style) (class_order primary mask))
        else "")
unfolding format_class_display
format_class_display-joined primary known mask style =
    formatted_order style _ (λ id. refl) primary known mask

tokens_agree :
    (style : ClassDisplayStyle) (id : ℕ)
    → class_display_token_ascii id style ≡ class_display_token id style
unfolding class_display_token_ascii class_display_token
tokens_agree full_name id = refl
tokens_agree three_letter_code id = refl

-- The wide and the ASCII formatter show the same text.
pub format_class_display_ascii-eq :
    (primary : ℕ) (known : Bool) (mask : ℕ) (style : ClassDisplayStyle)
    → format_class_display_ascii primary known mask style
      ≡ format_class_display primary known mask style
unfolding format_class_display_ascii
format_class_display_ascii-eq primary known mask style =
    formatted_order style (λ id. class_display_token_ascii id style) (tokens_agree style) primary
      known mask
    ∙ sym (format_class_display-joined primary known mask style)
