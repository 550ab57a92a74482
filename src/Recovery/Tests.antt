-- ===== src/Recovery/Tests.antt =====
-- Runs of the checkpoint at a concrete input.
use ubeeq.Common.{◌≡◌, refl, false, none, some, [], ◌∷◌, text_le, nat, ok}
use ubeeq.Recovery.{Page, Progress, advance_checkpoint}

abbrev progress : Progress
progress = record {
  platform = "site";
  connection_id = "c";
  resource_type = "channel";
  resource_id = "r";
  cursor = none;
  high_watermark_at = some "2026-01-02";
  recent_remote_ids = "m1" ∷ "m2" ∷ [];
  last_attempt_at = none;
  last_successful_at = none;
  next_eligible_at = none;
}

abbrev page : Page
page = record {
  items =
      record { remote_id = "m3"; occurred_at = some "2026-01-01" }
      ∷ record { remote_id = "m2"; occurred_at = none }
      ∷ [];
  next_cursor = some "n";
  complete = false;
}

abbrev advanced : Progress
advanced = record progress {
  cursor = some "n";
  recent_remote_ids = "m3" ∷ "m2" ∷ [];
  last_attempt_at = some "T";
}

page_advances : advance_checkpoint progress page "T" (nat 2) ≡ ok advanced
unfolding advance_checkpoint text_le
page_advances = refl
