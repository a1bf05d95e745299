-- ===== src/AuthStats/State.antt =====
-- What the globals hold after payloads were received.
use mathlib.Core.Path.{ap₂}
use eqemu_monomyth_client.Prelude.{
  ℕ, ◌+◌, ◌*◌, ◌^◌, ◌<◌, ◌≡◌, ◌∙◌, refl, ap, inl, inr, Bool, true, false, Bool-cases, ltb, List, [],
  ◌∷◌, ◌++◌, All, length, Option, none, some, arith, if◌then◌else◌,
}
use eqemu_monomyth_client.AuthStats.Read.{Pages, read_u32_le}
use eqemu_monomyth_client.AuthStats.Parse.{ParseResult, parse_payload}
use eqemu_monomyth_client.AuthStats.Acceptance.{Readable, parse_payload-valid_iff}
use eqemu_monomyth_client.AuthStats.Words.{Lays}
use eqemu_monomyth_client.AuthStats.Tracking.{
  Stat, Records, values, last_or, is_classes, is_skills_low, is_skills_high, is_pet0, is_pet1,
  is_focused,
}
use eqemu_monomyth_client.AuthStats.RoundTrip.{
  payload_bytes, IsWireStat, parse_payload-payload_bytes,
}
use eqemu_monomyth_client.AuthStats.Observe.{
  Snapshot, Globals, malformed, observe_result, observe_receive_payload, get_snapshot, store_result,
  log_valid,
}

-- A stat as a snapshot shows it, against the values of one payload.
abbrev pub Shows : Bool → ℕ → List ℕ → Type 0
Shows has value vs = (has ≡ ltb 0 (length vs)) × (value ≡ last_or 0 vs)

-- The snapshot `new` after a payload of the entries `ss`, where `old` was the snapshot before: the
-- classes mask stays when the payload has none, and every other stat is the payload's.
pub record IsUpdate (old new : Snapshot) (ss : List Stat) : Type 0 where
  pub classes :
      new.has_classes_bitmask
      ≡ (if ltb 0 (length (values is_classes ss)) then true else old.has_classes_bitmask)
  pub classes_value : new.classes_bitmask ≡ (
      if ltb 0 (length (values is_classes ss))
      then last_or 0 (values is_classes ss)
      else old.classes_bitmask)
  pub skills_low :
      Shows new.has_activated_skill_mask_low new.activated_skill_mask_low (values is_skills_low ss)
  pub skills_high :
      Shows new.has_activated_skill_mask_high new.activated_skill_mask_high
        (values is_skills_high ss)
  pub pet0 : Shows new.has_extra_pet_hp_1000.slot0 new.extra_pet_hp_1000.slot0 (values is_pet0 ss)
  pub pet1 : Shows new.has_extra_pet_hp_1000.slot1 new.extra_pet_hp_1000.slot1 (values is_pet1 ss)
  pub focused : Shows new.has_focused_pet_id new.focused_pet_id (values is_focused ss)

log_valid-stats : (g : Globals) (r : ParseResult) → (log_valid g r).stats ≡ g.stats
unfolding log_valid
log_valid-stats g r = ground arith

warned_stats :
    (b : Bool) (g h : Globals) (r : ParseResult)
    → g.stats ≡ h.stats
    → (let w = if b then g else h in store_result w.stats r) ≡ store_result h.stats r
warned_stats true g h r e = rw e
warned_stats false g h r e = refl

observe_result-stats :
    (g : Globals) (n : ℕ) (r : ParseResult)
    → r.valid ≡ true
    → (observe_result g n r).stats ≡ store_result g.stats r
unfolding observe_result store_result
observe_result-stats g n r h =
    rw (h, log_valid-stats) (warned_stats r.invalid_classes_bitmask _ g r refl)

if_has :
    (s : Snapshot) (r : ParseResult)
    → (store_result s r).has_classes_bitmask
      ≡ (if r.has_classes_bitmask then true else s.has_classes_bitmask)
unfolding store_result
if_has s r = ground arith

if_value :
    (s : Snapshot) (r : ParseResult)
    → (store_result s r).classes_bitmask
      ≡ (if r.has_classes_bitmask then r.classes_bitmask else s.classes_bitmask)
unfolding store_result
if_value s r = ground arith

store_result-IsUpdate :
    (s : Snapshot) (r : ParseResult) (ss : List Stat)
    → Records r ss
    → IsUpdate s (store_result s r) ss
unfolding store_result
store_result-IsUpdate s r ss h = record {
  classes =
      if_has s r ∙ ap (λ (b : Bool). if b then true else s.has_classes_bitmask) h.classes.present;
  classes_value =
      if_value s r
      ∙ ap₂ (λ (b : Bool) (v : ℕ). if b then v else s.classes_bitmask) h.classes.present
          h.classes.latest;
  skills_low = (h.skills_low.present, h.skills_low.latest);
  skills_high = (h.skills_high.present, h.skills_high.latest);
  pet0 = (h.pet0.present, h.pet0.latest);
  pet1 = (h.pet1.present, h.pet1.latest);
  focused = (h.focused.present, h.focused.latest);
}

-- Receiving a payload that was written from a list of entries changes the snapshot by that list:
-- the classes mask becomes the list's last value in range, and stays when there is none; every
-- other stat becomes the list's last value in range, and absent when there is none.
pub observe_receive_payload-IsUpdate :
    (g : Globals) (m : Pages) (n : ℕ) (ss : List Stat)
    → n < 2 ^ 32
    → n ≡ length (payload_bytes ss)
    → All IsWireStat ss
    → Lays m 0 (payload_bytes ss)
    → IsUpdate (get_snapshot g) (get_snapshot (observe_receive_payload g (some m) n)) ss
unfolding observe_receive_payload get_snapshot
observe_receive_payload-IsUpdate g m n ss bounded e wire lays =
    let (valid, _, rec) = parse_payload-payload_bytes m n ss bounded e wire lays in
    rw (observe_result-stats g n (parse_payload (some m) n) valid)
      (store_result-IsUpdate g.stats (parse_payload (some m) n) ss rec)

parse_payload-null : (n : ℕ) → (parse_payload none n).valid ≡ false
unfolding parse_payload
parse_payload-null n = ground arith

valid_false : (r : ParseResult) → (r.valid ≡ true → ⊥) → r.valid ≡ false
valid_false r h = elim (Bool-cases r.valid) [
  | inl valid ↦ absurd (h valid)
  | inr not_valid ↦ not_valid
]

-- A payload that is null, whose length is not that of the entries that its first word counts, or that
-- has a byte that faults changes nothing but the log, which gains one malformed line with its length;
-- for a length below 2^32.
pub observe_receive_payload_malformed :
    (g : Globals) (payload : Option Pages) (n : ℕ)
    → n < 2 ^ 32
    → ((m : Pages) (count : ℕ)
        → payload ≡ some m
        → read_u32_le m n 0 ≡ some count
        → n ≡ 4 + count * 12
        → Readable m 0 n
        → ⊥)
    → observe_receive_payload g payload n
      ≡ record g { log = g.log ++ malformed n (parse_payload payload n).malformed_reason ∷ [] }
unfolding observe_receive_payload observe_result
observe_receive_payload_malformed g none n bounded wrong =
    let refused : (parse_payload none n).valid ≡ false = parse_payload-null n in rw refused
observe_receive_payload_malformed g (some m) n bounded wrong =
    let refused = valid_false (parse_payload (some m) n) (λ valid.
      let (count, read, total, readable) = (parse_payload-valid_iff m n bounded).0 valid in
      wrong m count refl read total readable) in
    rw refused
