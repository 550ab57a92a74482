-- ===== src/Destinations/Tests/Runs.antt =====
-- Runs of the executor on the sample gallery.
use ubeeq.Common.{false, String, ◌≡◌, refl, true, some, List, [], ◌∷◌, contains, Within, ok}
use ubeeq.Common.Samples.{unary}
use ubeeq.Destinations.{Source, Observation, Plan}
use ubeeq.Destinations.Samples.{native_mapping, inputs, observed, current_state, input_for, port}
use ubeeq.Destinations.Planning.{build, scan}
use ubeeq.Destinations.Planning.Members.{selection}
use ubeeq.Destinations.Authorization.{same_inputs, is_stale, assert_current}
use ubeeq.Destinations.Execution.{Kind, Receipt, ReceiptState, RunState, Execution, Port}
use ubeeq.Destinations.Execution.Check.{ExecuteInput}
use ubeeq.Destinations.Execution.Attempt.Guarded.{idle, Guarded}
use ubeeq.Destinations.Execution.Attempt.Outcome.{written}
use ubeeq.Destinations.Execution.Run.{is_exact, is_verified_by, recent, equal, exclusively}
use ubeeq.Destinations.Execution.Run.Order.{writes_follow_checks}
use ubeeq.Destinations.Execution.Run.Resume.{Subsequence, resume_writes_pending}
use ubeeq.Destinations.Execution.Run.Readback.{verified_gallery}

abbrev plan : Plan
plan = build (input_for native_mapping) true true "TTTTTT"

abbrev execution : ExecuteInput
execution = record { plan = plan; mapping = native_mapping; reviewed = true }

abbrev gallery : List String
gallery = "p3" ∷ "p9" ∷ []

-- The run as it is returned: both operations confirmed, and read back.
abbrev receipt : Kind → String → Receipt
receipt kind id = record {
  key = record {
    mapping_id = "map";
    generation = native_mapping.generation;
    plan_id = "plan";
    kind = kind;
    publication_id = id;
  };
  kind = kind;
  publication_id = id;
  state = ReceiptState.confirmed;
  remote_receipt = some "receipt";
}

abbrev final : Execution
final = record {
  id = "plan";
  plan_id = "plan";
  mapping_id = "map";
  state = RunState.verified;
  operations = receipt Kind.add "p1" ∷ receipt Kind.remove "p9" ∷ [];
  started_at = some "TT";
  completed_at = some "TT";
  readback_observation_id = some "obs";
}

writes_follow_checks_example : Guarded idle (exclusively unary port execution gallery).events
writes_follow_checks_example = writes_follow_checks unary port execution gallery

-- Storage that has the first operation as confirmed already.
abbrev half_done : Execution
half_done = record final {
  state = RunState.partially_applied;
  operations =
      receipt Kind.add "p1"
      ∷ record (receipt Kind.remove "p9") { state = ReceiptState.uncertain }
      ∷ [];
}

abbrev resuming_port : Port (List String)
resuming_port = record port { get_execution = λ id w. (ok (some half_done), w) }

resume_writes_pending_example :
    Subsequence
      (written (exclusively unary resuming_port execution gallery).events)
      ((receipt Kind.remove "p9").key ∷ [])
resume_writes_pending_example =
    resume_writes_pending unary resuming_port execution gallery half_done refl

verified_gallery_example :
    (assert_current unary plan native_mapping inputs "TT" ≡ ok tt)
    × (o : Observation) × (some (observed ("p3" ∷ "p1" ∷ [])) ≡ some o)
    × (o.mapping_id ≡ "map")
    × (o.source ≡ Source.api)
    × (o.complete ≡ true)
    × (recent (unary.parse o.observed_at) (unary.parse "TT") current_state.capabilities.freshness_ms
        ≡ true)
    × (current_state.capabilities.complete_membership ≡ true)
    × (current_state.archived ≡ false)
    × (current_state.connected ≡ true)
    × Within plan.intended_publication_ids o.publication_ids
    × (is_exact native_mapping.reconciliation ≡ true
        → (id : String) → contains o.publication_ids id ≡ contains plan.intended_publication_ids id)
unfolding is_verified_by equal assert_current is_stale same_inputs build selection scan
verified_gallery_example =
    verified_gallery unary plan native_mapping current_state (some (observed ("p3" ∷ "p1" ∷ [])))
      "TT" "TT" refl
