-- ===== src/Announcements/Tests.antt =====
-- The theorems on imports at concrete inputs: a post with a picture that is imported twice, and one
-- whose announcement was edited.
use ubeeq.Common.{
  ◌≡◌, String, refl, true, false, Option, none, some, [], ◌∷◌, nat, ok, concat, All, Distinct,
  length,
}
use ubeeq.Common.Samples.{unary}
use ubeeq.Announcements.{
  Identity, AttributionKind, BlockKind, Block, Attachment, AttachmentKind, MediaType, Archive,
  RowKind, Row, Snapshot, SourceVisibility, Completeness, ImportMapping, SourcePost, Announcement,
  imported, Host, Url,
}
use ubeeq.Announcements.Validation.{source_key}
use ubeeq.Announcements.Validation.Snapshots.{validate_snapshot, text_size}
use ubeeq.Announcements.Validation.Snapshots.Posts.{validate_post}
use ubeeq.Announcements.Validation.Sound.{
  attachment_ids, Resolves, FormatsWithin, Place, valid_snapshot,
}
use ubeeq.Announcements.Planning.{
  ImportInput, Previous, Update, reconcile_announcement, create_announcement, plan_import,
  plan_keyed, plan_new, plan_known, new_announcement, new_association,
}
use ubeeq.Announcements.Planning.Outcomes.{InScope, plan_scope}
use ubeeq.Announcements.Planning.Outcomes.Edits.{plan_keeps_edits, Reconciles}
use ubeeq.Announcements.Planning.Repeats.{again, reimported, import_again}

abbrev site : Url
site = record {
  protocol = "https:";
  username = "";
  password = "";
  search = "";
  hash = "";
  pathname = "/";
  origin = "https://x";
}

abbrev host : Host
host = record {
  parse_url = λ s. some site;
  stringify_key =
      λ tenant owner provider origin containers remote. concat tenant (concat owner remote);
  snapshot_bytes = λ s. 100;
  public_url = λ s. some s;
  sanitized = λ s. none;
}

abbrev identity : Identity
identity = record {
  tenant_id = "t";
  owner_id = "o";
  provider = "p";
  provider_origin = "https://x";
  containers = record { kind = "blog"; id = "b" } ∷ [];
  remote_id = "r";
}

abbrev picture : Attachment
picture = record {
  id = "a";
  position = nat 0;
  kind = AttachmentKind.source_attachment;
  media_type = MediaType.image;
  source_url = none;
  alt_text = none;
  mime_type = none;
  filename = none;
  bytes = none;
  archive = Archive.pending;
  managed_asset_id = none;
  reason = none;
}

abbrev plain : BlockKind → Option String → Option String → Block
plain kind text attachment = record {
  kind = kind;
  text = text;
  url = none;
  attachment_id = attachment;
  reason = none;
  subtype = none;
  indent = none;
  formatting = none;
  syntax = none;
}

abbrev snapshot : String → Snapshot
snapshot text = record {
  source_data = none;
  blocks = plain BlockKind.text (some text) none ∷ plain BlockKind.attachment none (some "a") ∷ [];
  attachments = picture ∷ [];
  layout = record { kind = RowKind.rows; block_indexes = nat 1 ∷ nat 0 ∷ [] } ∷ [];
  links = [];
  tags = [];
}

abbrev post : String → String → SourcePost
post text hash = record {
  identity = identity;
  connection_id = "c";
  source_url = none;
  attribution = record {
    author_id = "me";
    display_name = "";
    kind = AttributionKind.original;
    original_author_id = none;
    original_author_name = none;
  };
  posted_at = none;
  remote_edited_at = none;
  first_imported_at = "T";
  last_observed_at = "TT";
  snapshot = snapshot text;
  content_hash = hash;
  restrictions = record { visibility = SourceVisibility.restricted; scope_ids = []; reasons = [] };
  completeness = Completeness.full;
  reasons = [];
  provenance = record {
    job_id = "j";
    adapter_version = "1";
    normalizer_version = "1";
    mapping = ImportMapping.announcement_import;
  };
}

accepts : validate_snapshot host (snapshot "hi") ≡ ok tt
unfolding validate_snapshot
accepts = refl

valid_snapshot_example :
    Distinct (attachment_ids (snapshot "hi").attachments)
    × All
        (λ (b : Block). Resolves (attachment_ids (snapshot "hi").attachments) b.attachment_id)
        (snapshot "hi").blocks
    × All (λ (b : Block). FormatsWithin (text_size b.text) b.formatting) (snapshot "hi").blocks
    × All
        (λ (r : Row). All (Place (length (snapshot "hi").blocks)) r.block_indexes)
        (snapshot "hi").layout
valid_snapshot_example = valid_snapshot host (snapshot "hi") accepts

abbrev first : ImportInput
first = record {
  source = post "hi" "h1";
  announcement_id = "n";
  source_authorized = true;
  author_authorized = true;
  restrictions_representable = true;
  include_attributed = false;
  include_replies = false;
  include_metadata_only = false;
  excluded = false;
  restore_excluded = false;
  existing_publication = none;
  existing_announcement = none;
  relationships = [];
}

creates :
    plan_import host unary first
    ≡ ok (create_announcement (new_announcement first) (new_association first "tor"))
unfolding plan_import validate_post validate_snapshot source_key plan_keyed plan_new
creates = refl

key_of : source_key host identity ≡ ok "tor"
unfolding source_key
key_of = refl

plan_scope_example :
    InScope first "tor" (create_announcement (new_announcement first) (new_association first "tor"))
plan_scope_example =
    plan_scope host unary first
      (create_announcement (new_announcement first) (new_association first "tor")) "tor" creates
      key_of

second_valid : validate_post host unary (post "hello" "h2") ≡ ok tt
unfolding validate_post validate_snapshot source_key
second_valid = refl

import_again_example :
    plan_import host unary
      (again first (post "hello" "h2") (new_announcement first) (new_association first "tor"))
    ≡ ok (
        reimported first (post "hello" "h2") (new_announcement first) (new_association first "tor"))
import_again_example =
    import_again host unary first (post "hello" "h2") (new_announcement first)
      (new_association first "tor") creates refl refl refl second_valid

abbrev edited : Announcement
edited = record (new_announcement first) { local_edited_at = some "T" }

abbrev previous : Previous
previous = record {
  association = new_association first "tor";
  announcement = imported edited;
  observed_hash = "h1";
}

abbrev second : ImportInput
second = record first { source = post "hello" "h2"; existing_announcement = some previous }

reviews :
    plan_import host unary second
    ≡ ok (
        reconcile_announcement
          (new_association first "tor")
          Update.review_source_change
          (imported edited))
unfolding plan_import validate_post validate_snapshot source_key plan_keyed plan_known
reviews = refl

plan_keeps_edits_example :
    Reconciles second.source previous.observed_hash previous.announcement
      Update.review_source_change
      (imported edited)
plan_keeps_edits_example =
    plan_keeps_edits host unary second (new_association first "tor") Update.review_source_change
      (imported edited) previous reviews refl
