-- ===== src/Timing/Tests.antt =====
-- A run of the test of schedules.
use ubeeq.Common.{◌≡◌, refl, true, some}
use ubeeq.Common.Samples.{unary}
use ubeeq.Timing.{can_view_by_schedule}

seen_early : can_view_by_schedule unary (some "T") (some "TTTT") (some 1) true ≡ true
unfolding can_view_by_schedule
seen_early = refl
