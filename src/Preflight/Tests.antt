-- ===== src/Preflight/Tests.antt =====
-- The theorem on preflights at a concrete input.
use ubeeq.Common.{◌≡◌, ◌↔◌, true, false, none, some, [], ◌∷◌, ◌==◌, nat}
use ubeeq.Preflight.{Precision, Policy, ConnectionState, Input, preflight}
use ubeeq.Preflight.Verdict.{Publishable, AdmissibleIf, preflight_iff}

abbrev policy : Policy
policy = record {
  announces = false;
  publishes = λ type. type == "image";
  precision = Precision.unlabelled;
  rollout = none;
  media = record {
    maximum_items = some (nat 4);
    maximum_caption_characters = some (nat 10);
    allowed_mime_types = "image/*" ∷ [];
    maximum_bytes = none;
  };
  access = record { requires_rights = true; requires_adult = false; requires_consent = false };
}

abbrev input : Input
input = record {
  platform = "gallery";
  intent = none;
  media_types = "image" ∷ [];
  ai_disclosures = [];
  item_count = some (nat 2);
  caption = some "short";
  mime_types = "image/png" ∷ [];
  bytes = none;
  admission = some (record {
    connection_state = some ConnectionState.connected;
    required_scopes = "write" ∷ [];
    granted_scopes = "read" ∷ "write" ∷ [];
    policy_blocked = false;
    rights_attested = true;
    adult_attested = false;
    consent_attested = false;
  });
}

preflight_iff_example :
    ((preflight input policy).ok ≡ true
      ↔ Publishable input policy × AdmissibleIf policy.access input.admission)
    × ((preflight input policy).static.ok ≡ true ↔ Publishable input policy)
    × ((preflight input policy).admission.ok ≡ true ↔ AdmissibleIf policy.access input.admission)
preflight_iff_example = preflight_iff input policy
