-- ===== src/CollectionPublications/Tests.antt =====
-- Runs of the plan of a release at concrete inputs.
use ubeeq.Common.{◌≡◌, refl, true, none, some, [], ◌∷◌, nat, ok}
use ubeeq.Common.Samples.{unary}
use ubeeq.CollectionPublications.{
  Release, Scope, PlanInput, bad_settings, planned, plan_publication,
}

-- Three members: one is shown, one is not decided to be eligible, and one is not released.
abbrev input : PlanInput
input = record {
  publication = record {
    collection_id = "col";
    destination = "site";
    revision = nat 1;
    release = Release.scheduled;
    audience = "public";
    scope = Scope.released;
    selected_work_ids = [];
    released_work_ids = "w1" ∷ "w2" ∷ [];
    offer_id = none;
    scheduled_at = some "TTT";
    updated_at = "T";
    published_at = none;
    excluded = [];
    included_work_ids = [];
  };
  member_ids = "w1" ∷ "w2" ∷ "w3" ∷ [];
  eligibility = record { work_id = "w1"; allowed = true; reason = none } ∷ [];
  now = "TT";
}

input_accepted : plan_publication unary input ≡ ok (planned input)
unfolding plan_publication bad_settings
input_accepted = refl
