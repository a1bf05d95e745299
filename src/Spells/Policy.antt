-- ===== src/Spells/Policy.antt =====
-- EvaluateDecision: whether a discovered code target may be used. A `const wchar_t*` is a text.
use Prim.Native.String.{String}
use eqemu_monomyth_client.Prelude.{Bool, true, false, not, ◌&&◌, if◌then◌else◌}

pub data TargetState : Type 0 where
  not_attempted found_unvalidated validated failed : TargetState

pub data EvidenceSource : Type 0 where
  no_source fingerprint_rva runtime_export cleanroom_rva wrapper_validation : EvidenceSource
  byte_pattern unavailable : EvidenceSource

unfoldable pub target_state_name : TargetState → String
target_state_name not_attempted = "not_attempted"
target_state_name found_unvalidated = "found_unvalidated"
target_state_name validated = "validated"
target_state_name failed = "failed"

unfoldable pub evidence_source_name : EvidenceSource → String
evidence_source_name no_source = "not_attempted"
evidence_source_name fingerprint_rva = "fingerprint_rva"
evidence_source_name runtime_export = "runtime_export"
evidence_source_name cleanroom_rva = "cleanroom_rva"
evidence_source_name wrapper_validation = "wrapper_validation"
evidence_source_name byte_pattern = "byte_pattern"
evidence_source_name unavailable = "unavailable"

pub record DecisionInput : Type 0 where
  pub discovery_allowed : Bool
  pub fingerprint_matched : Bool
  pub fingerprint_rva_found : Bool
  pub runtime_export_found : Bool
  pub cleanroom_rva_found : Bool
  pub wrapper_candidate_found : Bool
  pub candidate_executable : Bool
  pub plausible_prologue : Bool
  pub wrapper_validation_required : Bool
  pub wrapper_validation_passed : Bool
  pub diagnostic_string_required : Bool
  pub diagnostic_string_found : Bool
  pub diagnostic_string_xref : Bool

pub record DecisionResult : Type 0 where
  pub state : TargetState
  pub evidence_source : EvidenceSource
  pub validation : String
  pub failure_reason : String
  pub exact_signature_validated : Bool
  pub trace_safe : Bool

unfoldable pub select_evidence_source : DecisionInput → EvidenceSource
select_evidence_source input =
    if input.fingerprint_rva_found
    then fingerprint_rva
    else if input.cleanroom_rva_found
    then cleanroom_rva
    else if input.runtime_export_found
    then runtime_export
    else if input.wrapper_candidate_found
    then wrapper_validation
    else unavailable

abbrev pub is_unavailable : EvidenceSource → Bool
is_unavailable unavailable = true
is_unavailable _ = false

abbrev pub is_runtime_export : EvidenceSource → Bool
is_runtime_export runtime_export = true
is_runtime_export _ = false

-- `DecisionResult result = {};`
abbrev blank : DecisionResult
blank = record {
  state = not_attempted;
  evidence_source = no_source;
  validation = "not_attempted";
  failure_reason = "not_attempted";
  exact_signature_validated = false;
  trace_safe = false;
}

abbrev refuse : DecisionResult → TargetState → String → DecisionResult
refuse r state reason = record r { state = state; validation = "failed"; failure_reason = reason }

-- What follows the selection of the evidence source.
unfoldable pub evaluate_candidate : DecisionInput → DecisionResult → DecisionResult
evaluate_candidate input r =
    if is_unavailable r.evidence_source
    then refuse r failed "missing_cleanroom_target"
    else if not input.candidate_executable
    then refuse r failed "non_executable_target"
    else if not input.plausible_prologue
    then refuse r found_unvalidated "unsupported_prologue"
    else if input.wrapper_validation_required && not input.wrapper_validation_passed
    then refuse r found_unvalidated "wrapper_validation_failed"
    else if input.diagnostic_string_required && not input.diagnostic_string_found
    then refuse r found_unvalidated "diagnostic_string_missing"
    else if input.diagnostic_string_required && not input.diagnostic_string_xref
    then refuse r found_unvalidated "diagnostic_string_xref_missing"
    else record r {
      state = validated;
      validation = "passed";
      failure_reason = "none";
      exact_signature_validated = is_runtime_export r.evidence_source;
      trace_safe = true;
    }

unfoldable pub evaluate_decision : DecisionInput → DecisionResult
unfolding evaluate_candidate select_evidence_source
evaluate_decision input =
    if not input.discovery_allowed
    then refuse blank failed
        (if input.fingerprint_matched then "capability_denied" else "fingerprint_mismatch")
    else evaluate_candidate input (record blank { evidence_source = select_evidence_source input })
