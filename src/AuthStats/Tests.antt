-- ===== src/AuthStats/Tests.antt =====
-- One payload of three stats, and a truncated one.
use eqemu_monomyth_client.Prelude.{
  ℕ, ◌+◌, ◌*◌, ◌≡◌, ◌↔◌, refl, true, List, [], ◌∷◌, ◌++◌, some, get_elem?, length, arith,
}
use eqemu_monomyth_client.AuthStats.Read.{Pages, read_u32_le}
use eqemu_monomyth_client.AuthStats.Words.{Lays-get_elem?}
use eqemu_monomyth_client.AuthStats.Parse.{parse_payload}
use eqemu_monomyth_client.AuthStats.Tracking.{Stat, Records}
use eqemu_monomyth_client.AuthStats.RoundTrip.{payload_bytes, parse_payload-payload_bytes}
use eqemu_monomyth_client.AuthStats.Acceptance.{Readable, parse_payload-valid_iff}
use eqemu_monomyth_client.AuthStats.Observe.{
  initial_globals, malformed, get_snapshot, observe_receive_payload,
}
use eqemu_monomyth_client.AuthStats.State.{
  IsUpdate, observe_receive_payload-IsUpdate, observe_receive_payload_malformed,
}

-- The classes mask twice, and a focused pet.
abbrev three_stats : List Stat
three_stats =
    record { key = 1; value = 3 }
    ∷ record { key = 102; value = 77 }
    ∷ record { key = 1; value = 2051 }
    ∷ []

abbrev page : Pages
page = get_elem? (payload_bytes three_stats)

parse_payload-payload_bytes_example :
    ((parse_payload (some page) 40).valid ≡ true)
    × ((parse_payload (some page) 40).count ≡ length three_stats)
    × Records (parse_payload (some page) 40) three_stats
parse_payload-payload_bytes_example =
    parse_payload-payload_bytes page 40 three_stats (omega arith) refl
      ((omega arith, omega arith), ((omega arith, omega arith), ((omega arith, omega arith), tt)))
      (Lays-get_elem? (payload_bytes three_stats))

observe_receive_payload-IsUpdate_example :
    IsUpdate
      (get_snapshot initial_globals)
      (get_snapshot (observe_receive_payload initial_globals (some page) 40))
      three_stats
observe_receive_payload-IsUpdate_example =
    observe_receive_payload-IsUpdate initial_globals page 40 three_stats (omega arith) refl
      ((omega arith, omega arith), ((omega arith, omega arith), ((omega arith, omega arith), tt)))
      (Lays-get_elem? (payload_bytes three_stats))

parse_payload-valid_iff_example : ((parse_payload (some page) 40).valid ≡ true) ↔ (
    (count : ℕ) × (read_u32_le page 40 0 ≡ some count) × (40 ≡ 4 + count * 12) × Readable page 0 40)
parse_payload-valid_iff_example = parse_payload-valid_iff page 40 (omega arith)

observe_receive_payload_malformed_example :
    observe_receive_payload initial_globals (some page) 3 ≡ record initial_globals {
      log = initial_globals.log ++ malformed 3 (parse_payload (some page) 3).malformed_reason ∷ [];
    }
observe_receive_payload_malformed_example =
    observe_receive_payload_malformed initial_globals (some page) 3 (omega arith)
      (λ m count _ _ total _. omega (arith, total))
