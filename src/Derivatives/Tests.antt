-- ===== src/Derivatives/Tests.antt =====
-- The theorems on public derivatives at concrete inputs: a store whose completion fails.
use ubeeq.Common.{
  String, ◌≡◌, ◌≢◌, refl, sym, ◌∙◌, ◌++◌, List, true, false, none, some, [], ◌∷◌, any, ok, err,
}
use ubeeq.Derivatives.{Input, guard, prepare, publication_of}
use ubeeq.Derivatives.Protocol.{
  Port, Event, recover, recover_or, fence, transfer, run_publication, publish, admitted,
}
use ubeeq.Derivatives.Fence.{
  Phase, follow, is_misplaced, is_committed, returns, is_fence, is_completion, finds_receipt,
  publish_keeps, removal_is_fenced,
}
use ubeeq.Derivatives.Checks.{Checked, effects_need_checks}

abbrev input : Input
input = record {
  product = "ubeeq";
  environment = "test";
  data_home_region = "eu";
  asset_id = "a-1";
  media_version_id = "v_2";
  scan_group_id = "s3";
  content_hash = "0123456789abcdefABCDEF00112233445566778899aabbccddeeff0011223344";
  content_type = "Image/PNG";
  source_bucket = "private";
  source_object_key = "derived/a.png";
  expected_private_derivatives_bucket = "private";
  public_derivatives_bucket = "public";
  expected_public_derivatives_bucket = "public";
}

-- The world is a single state; the completion throws, and there is no receipt.
abbrev port : Port (Unit {0})
port = record {
  completed_receipt = none;
  begin = λ p w. (ok tt, w);
  complete = λ p w. (err (some "TimeoutError"), w);
  fail = λ p why w. (ok tt, w);
  copy = λ p w. (ok tt, w);
  remove = λ p w. (ok tt, w);
  admit = some (λ i w. (ok true, w));
}

abbrev digest : String → String
digest s = "d1"

abbrev before : List Event
before =
    Event.begun true
    ∷ Event.copied true
    ∷ Event.completed false
    ∷ Event.looked_up (some false)
    ∷ Event.fenced true
    ∷ []

run_removes : (publish port digest "T" input tt).events ≡ before ++ Event.removed true ∷ []
unfolding publish guard prepare publication_of run_publication transfer recover_or recover fence
run_removes = refl

publish_keeps_example :
    (is_misplaced (follow Phase.idle (publish port digest "T" input tt).events) ≡ false)
    × (is_committed (follow Phase.idle (publish port digest "T" input tt).events)
        ≡ returns (publish port digest "T" input tt).out)
publish_keeps_example = publish_keeps port digest "T" input tt

removal_is_fenced_example :
    (any is_fence before ≡ true)
    × (any is_completion before ≡ false)
    × (any finds_receipt before ≡ false)
    × (returns (publish port digest "T" input tt).out ≡ false)
removal_is_fenced_example = removal_is_fenced port digest "T" input tt before true [] run_removes

some_event : (publish port digest "T" input tt).events ≢ []
some_event none_at_all = absurd (not_empty (sym run_removes ∙ none_at_all))
  where
    not_empty : before ++ Event.removed true ∷ [] ≢ []
    not_empty e = cc e

effects_need_checks_example : Checked input × ((admitted port input tt).0 ≡ ok true)
effects_need_checks_example = effects_need_checks port digest "T" input tt some_event
