-- ===== src/Moderation/Tests.antt =====
-- The theorems on holds and cases at concrete inputs.
use ubeeq.Common.{
  String, ◌≡◌, Bool, true, false, not, ◌&&◌, none, List, [], ◌∷◌, ◌==◌, any, contains, Distinct,
  IsSorted, ok, err, if◌then◌else◌,
}
use ubeeq.Moderation.{
  Hold, Target, Status, Outcome, Case, evaluate_admission, require_admission, blocked_message,
}
use ubeeq.Moderation.Admission.{holds_back, admission_iff}
use ubeeq.Moderation.Review.{Request}

abbrev hold_on : String → Bool → Hold
hold_on subject active = record {
  cell_id = "c";
  id = "h";
  subject_id = subject;
  active = active;
  source_id = "s";
  reason_code = "rights";
  created_at = "T";
  released_at = none;
}

abbrev targets : List Target
targets = record { subject_id = "w1" } ∷ record { subject_id = "w2" } ∷ []

abbrev holds : List Hold
holds = hold_on "w2" true ∷ hold_on "w1" false ∷ hold_on "w9" true ∷ []

admission_iff_example :
    ((evaluate_admission targets holds).allowed ≡ not (any (holds_back targets) holds))
    × (require_admission targets holds none ≡ (
        if any (holds_back targets) holds
        then err
            (record { message = blocked_message none; decision = evaluate_admission targets holds })
        else ok tt))
    × ((id : String)
        → contains (evaluate_admission targets holds).blocked_subject_ids id
          ≡ any (λ hold. holds_back targets hold && hold.subject_id == id) holds)
    × ((code : String)
        → contains (evaluate_admission targets holds).active_hold_reason_codes code
          ≡ any (λ hold. holds_back targets hold && hold.reason_code == code) holds)
    × Distinct (evaluate_admission targets holds).blocked_subject_ids
    × IsSorted (evaluate_admission targets holds).blocked_subject_ids
    × Distinct (evaluate_admission targets holds).active_hold_reason_codes
    × IsSorted (evaluate_admission targets holds).active_hold_reason_codes
admission_iff_example = admission_iff targets holds none

abbrev new_case : Case
new_case = record {
  cell_id = "c";
  id = "r1";
  subject_id = "w1";
  source_id = "s";
  evidence_ids = [];
  status = Status.opened;
  assigned_reviewer_id = none;
  outcome = none;
  rationale = none;
  created_at = "T";
  decided_at = none;
}

abbrev decision : Outcome → Request
decision outcome =
    Request.decide
      (record { outcome = outcome; rationale = " seen "; reviewer_id = "ann"; decided_at = "TT" })

abbrev requests : List Request
requests =
    Request.assign "ann"
    ∷ decision Outcome.cleared
    ∷ decision Outcome.confirmed
    ∷ Request.assign "bob"
    ∷ []
