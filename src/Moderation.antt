-- ===== src/Moderation.antt =====
-- packages/moderation/src/index.ts: review holds, which block an operation, and review cases, which a
-- reviewer is given and decides. The attributes of evidence and of audit events are left out.
pub mod Admission
pub mod Review
mod Tests
use ubeeq.Common.{
  String, Bool, true, false, not, ◌&&◌, ◌||◌, Option, none, some, List, [], ◌∷◌, map, any, contains,
  is_nil, is_empty, is_blank, concat, select, sort, trim, unique, Result, ok, err, ◌>>◌, refuse_if,
  if◌then◌else◌,
}

-- `ModerationEvidence`
pub record Evidence : Type 0 where
  pub cell_id : String
  pub id : String
  pub subject_id : String
  pub source : String
  pub kind : String
  pub recorded_at : String

-- `ReviewHold`
pub record Hold : Type 0 where
  pub cell_id : String
  pub id : String
  pub subject_id : String
  pub active : Bool
  pub source_id : String
  pub reason_code : String
  pub created_at : String
  pub released_at : Option String

-- `AdmissionTarget`
pub record Target : Type 0 where
  pub subject_id : String

-- `AdmissionDecision`
pub record Decision : Type 0 where
  pub allowed : Bool
  pub blocked_subject_ids : List String
  pub active_hold_reason_codes : List String

-- `AdmissionBlockedError`
pub record Blocked : Type 0 where
  pub message : String
  pub decision : Decision

-- `targetIds`
abbrev pub target_ids : List Target → List String
target_ids targets = unique (select (λ id. not (is_empty id)) (map (λ t. t.subject_id) targets))

-- `activeHolds`
unfoldable pub active_holds : List Target → List Hold → List Hold
active_holds targets holds =
    select (λ hold. hold.active && contains (target_ids targets) hold.subject_id) holds

-- `evaluateAdmission`
unfoldable pub evaluate_admission : List Target → List Hold → Decision
evaluate_admission targets holds = record {
  allowed = is_nil (active_holds targets holds);
  blocked_subject_ids = sort (unique (map (λ hold. hold.subject_id) (active_holds targets holds)));
  active_hold_reason_codes =
      sort (unique (map (λ hold. hold.reason_code) (active_holds targets holds)));
}

abbrev pub blocked_message : Option String → String
blocked_message none = "Operation is blocked by an active review hold."
blocked_message (some operation) =
    if is_empty operation
    then "Operation is blocked by an active review hold."
    else concat operation " is blocked by an active review hold."

-- `requireAdmission`
unfoldable pub require_admission :
    List Target → List Hold → Option String → Result Blocked (Unit {0})
require_admission targets holds operation =
    refuse_if (not (evaluate_admission targets holds).allowed)
      (record { message = blocked_message operation; decision = evaluate_admission targets holds })

-- `ReviewCaseStatus`
pub data Status : Type 0 where
  opened assigned decided : Status

-- `ReviewCaseOutcome`
pub data Outcome : Type 0 where
  cleared confirmed escalated : Outcome

-- `ReviewCase`
pub record Case : Type 0 where
  pub cell_id : String
  pub id : String
  pub subject_id : String
  pub source_id : String
  pub evidence_ids : List String
  pub status : Status
  pub assigned_reviewer_id : Option String
  pub outcome : Option Outcome
  pub rationale : Option String
  pub created_at : String
  pub decided_at : Option String

-- `ModerationAuditEvent`
pub record AuditEvent : Type 0 where
  pub cell_id : String
  pub id : String
  pub subject_id : String
  pub action : String
  pub actor_id : Option String
  pub occurred_at : String

-- The errors that the two functions throw.
pub data ReviewError : Type 0 where
  decided_cannot_be_assigned reviewer_required decided_once reviewer_and_rationale_required :
      ReviewError

abbrev pub is_decided : Status → Bool
is_decided Status.decided = true
is_decided _ = false

-- `assignReviewCase`
unfoldable pub assign_review_case : Case → String → Result ReviewError Case
assign_review_case c reviewer =
    if is_decided c.status
    then err ReviewError.decided_cannot_be_assigned
    else if is_blank reviewer
    then err ReviewError.reviewer_required
    else ok (record c { status = Status.assigned; assigned_reviewer_id = some reviewer })

-- The `input` of `decideReviewCase`.
pub record Verdict : Type 0 where
  pub outcome : Outcome
  pub rationale : String
  pub reviewer_id : String
  pub decided_at : String

-- `decideReviewCase`
unfoldable pub decide_review_case : Case → Verdict → Result ReviewError Case
decide_review_case c v =
    if is_decided c.status
    then err ReviewError.decided_once
    else if is_blank v.rationale || is_blank v.reviewer_id
    then err ReviewError.reviewer_and_rationale_required
    else ok (record c {
      status = Status.decided;
      assigned_reviewer_id = some v.reviewer_id;
      outcome = some v.outcome;
      rationale = some (trim v.rationale);
      decided_at = some v.decided_at;
    })
