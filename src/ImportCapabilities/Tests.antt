-- ===== src/ImportCapabilities/Tests.antt =====
-- The theorems on imports at concrete inputs.
use ubeeq.Common.{◌≡◌, refl, true, false, none, some, [], ◌∷◌, nat, ok}
use ubeeq.Common.Samples.{unary}
use ubeeq.ImportCapabilities.{
  Action, Support, Capability, Connection, Scope, Preview, Binding, Expected, validate_scope,
  valid_ids, other_binding, bad_selection, require_preview,
}

abbrev history : Capability
history = record {
  action = Action.announcements;
  support = Support.implemented;
  description = "";
  source_types = "channel" ∷ [];
  restrictions = [];
  filters = record { dates = true; authors = true; attachments = true; bounded_pagination = true };
  connection_modes = "bot" ∷ [];
  required_permissions = "read" ∷ [];
}

abbrev bot : Connection
bot = record {
  mode = "bot";
  authorized = true;
  permissions = "write" ∷ "read" ∷ [];
  source_selected = true;
  temporarily_unavailable = false;
  host_enabled = true;
}

abbrev scope : Scope
scope = record {
  pagination_order = none;
  from = "T";
  to = "TTT";
  source_ids = "c1" ∷ "c2" ∷ [];
  author_ids = "a1" ∷ [];
  include_attachments = true;
  include_attributed_material = false;
  include_replies = none;
  include_metadata_only = false;
  limits = record { pages = nat 3; candidates = nat 10; elapsed_milliseconds = nat 1000 };
}

scope_valid : validate_scope unary scope ≡ ok tt
unfolding validate_scope valid_ids
scope_valid = refl

abbrev binding : Binding
binding = record {
  tenant_id = "t";
  owner_id = "o";
  requested_by_user_id = "u";
  connection_id = "c";
  authorization_revision = "1";
}

abbrev preview : Preview
preview = record {
  id = "p";
  binding = binding;
  scope = scope;
  candidate_source_keys = "k1" ∷ "k2" ∷ [];
  expires_at = "TTTT";
}

abbrev expected : Expected
expected = record { binding = binding; selected_source_keys = "k2" ∷ []; now = some 2 }

preview_valid : require_preview unary preview expected ≡ ok tt
unfolding require_preview validate_scope valid_ids other_binding bad_selection
preview_valid = refl
