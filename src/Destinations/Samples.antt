-- ===== src/Destinations/Samples.antt =====
-- A small gallery, its mapping, a clock and a port, for the tests.
use ubeeq.Common.{
  String, Bool, true, false, not, none, some, List, [], ◌∷◌, ◌++◌, ◌==◌, select, nat, ok,
}
use ubeeq.Destinations.{
  Authority, Role, Mode, Scope, Reconciliation, RemovalPolicy, GalleryCapabilities, Mapping, Member,
  Source, Observation, SyncInputs,
}
use ubeeq.Destinations.Planning.{PlanInput}
use ubeeq.Destinations.Execution.{Kind, Receipt, CurrentState, Reconciled, Port}

abbrev pub native_mapping : Mapping
native_mapping = record {
  id = "map";
  collection_id = "col";
  account_id = "acc";
  remote_gallery_id = "gal";
  role = Role.full;
  audience = "all";
  authority = Authority.native;
  execution = Mode.manual;
  scope = Scope.released;
  selections = [];
  reconciliation = Reconciliation.exact;
  representation = "album";
  removal_policy = RemovalPolicy.review;
  enabled = true;
  generation = nat 1;
  revision = nat 2;
  initial_review_at = none;
  field_rules = [];
}

abbrev pub mirror_mapping : Mapping
mirror_mapping = record native_mapping { id = "mirror"; authority = Authority.platform }

abbrev pub custom_mapping : Mapping
custom_mapping = record native_mapping { reconciliation = Reconciliation.custom }

abbrev pub capabilities : GalleryCapabilities
capabilities = record {
  revision = nat 3;
  list_membership = true;
  complete_membership = true;
  add_membership = true;
  remove_membership = true;
  membership_may_change_access = false;
  freshness_ms = nat 5;
}

abbrev pub inputs : SyncInputs
inputs = record {
  membership = nat 1;
  metadata = nat 1;
  release = nat 1;
  access = nat 1;
  mapping = nat 2;
  generation = nat 1;
  capability = nat 3;
}

-- Two members are released with their Publications, one is not released.
abbrev pub members : List Member
members =
    record { work_id = "w1"; released = true; exclusion = none; publication_id = some "p1" }
    ∷ record { work_id = "w2"; released = false; exclusion = none; publication_id = some "p2" }
    ∷ record { work_id = "w3"; released = true; exclusion = none; publication_id = some "p3" }
    ∷ []

abbrev pub observed : List String → Observation
observed ids = record {
  id = "obs";
  mapping_id = "map";
  publication_ids = ids;
  resolved_works =
      record { publication_id = "p3"; work_id = some "w3" }
      ∷ record { publication_id = "p9"; work_id = some "w9" }
      ∷ [];
  complete = true;
  observed_at = "T";
  source = Source.api;
  evidence = [];
}

-- The gallery has a Publication that is wanted and one that is not.
abbrev pub input_for : Mapping → PlanInput
input_for m = record {
  id = "plan";
  mapping = m;
  inputs = inputs;
  capabilities = capabilities;
  observation = record (observed ("p3" ∷ "p9" ∷ [])) { mapping_id = m.id };
  members = members;
  now = "TT";
}

abbrev is_add : Kind → Bool
is_add Kind.add = true
is_add Kind.remove = false

abbrev pub current_state : CurrentState
current_state = record {
  mapping = native_mapping;
  inputs = inputs;
  archived = false;
  connected = true;
  capabilities = capabilities;
}

-- The gallery itself is the world; a write changes it, and nothing is saved.
abbrev pub port : Port (List String)
port = record {
  exclusive = λ m run w. run w;
  assert_lease = λ m w. (ok tt, w);
  current = λ id w. (ok current_state, w);
  get_execution = λ id w. (ok none, w);
  save_execution = λ run w. (ok tt, w);
  validate_effects = λ plan reviewed w. (ok tt, w);
  reconcile_operation = λ m op w. (ok Reconciled.not_applied, w);
  write_membership = λ m op recheck w. (ok (some "receipt"), changed op w);
  observe = λ m w. (ok (some (observed w)), w);
  now = λ w. ("TT", w);
}
  where
    changed : Receipt → List String → List String
    changed op w = elim op.kind [
      | Kind.add ↦ w ++ op.publication_id ∷ []
      | Kind.remove ↦ select (λ id. not (id == op.publication_id)) w
    ]
