-- ===== src/Derivatives/Checks.antt =====
-- What a derivative has to satisfy before anything is recorded, copied or removed.
use ubeeq.Common.{
  String, ◌≡◌, ◌≢◌, true, false, [], starts_with, includes, ok, eq_iff, arith, Result-cases, inl,
  inr,
}
use ubeeq.Derivatives.{Input, Publication, is_safe, is_sha256, guard, prepare}
use ubeeq.Derivatives.Protocol.{Port, publish, admitted}

-- What the input of a publication satisfies.
pub record Checked (i : Input) : Type 0 where
  pub source : i.source_bucket ≡ i.expected_private_derivatives_bucket
  pub destination : i.public_derivatives_bucket ≡ i.expected_public_derivatives_bucket
  pub relative : starts_with i.source_object_key "/" ≡ false
  pub inside : includes i.source_object_key ".." ≡ false
  pub hash : is_sha256 i.content_hash ≡ true
  pub segments :
      (is_safe i.asset_id ≡ true)
      × (is_safe i.media_version_id ≡ true)
      × (is_safe i.scan_group_id ≡ true)

prepare-safe :
    (sha256 : String → String) (now : String) (i : Input) (p : Publication)
    → prepare sha256 now i ≡ ok p
    → (is_safe i.asset_id ≡ true)
      × (is_safe i.media_version_id ≡ true)
      × (is_safe i.scan_group_id ≡ true)
unfolding prepare
prepare-safe sha256 now i p h = (ground arith, ground arith, ground arith)

guard-Checked :
    (sha256 : String → String) (now : String) (i : Input) (p : Publication)
    → guard i ≡ ok tt
    → prepare sha256 now i ≡ ok p
    → Checked i
unfolding guard
guard-Checked sha256 now i p h made = record {
  source = (eq_iff i.source_bucket i.expected_private_derivatives_bucket).0 (ground arith);
  destination =
      (eq_iff i.public_derivatives_bucket i.expected_public_derivatives_bucket).0 (ground arith);
  relative = ground arith;
  inside = ground arith;
  hash = ground arith;
  segments = prepare-safe sha256 now i p made;
}

-- Nothing is recorded, copied or removed unless the source is a relative key of the expected private
-- bucket, the destination is the expected public bucket, the hash has the form of a SHA-256, the three
-- identifiers are safe segments of a key, and the host admitted the input.
pub effects_need_checks :
    {W : Type 0} (port : Port W) (sha256 : String → String) (now : String) (i : Input) (w : W)
    → (publish port sha256 now i w).events ≢ []
    → Checked i × ((admitted port i w).0 ≡ ok true)
unfolding publish
effects_need_checks port sha256 now i w some_effect = elim (Result-cases (prepare sha256 now i)) [
  | inr (f, e) ↦ absurd (some_effect (ground arith))
  | inl (p, e) ↦ elim (Result-cases (guard i)) [
    | inr (f, g) ↦ absurd (some_effect (ground arith))
    | inl (u, g) ↦ elim (Result-cases (admitted port i w).0) [
      | inr (f, a) ↦ absurd (some_effect (ground arith))
      | inl (true, a) ↦ (guard-Checked sha256 now i p g e, a)
      | inl (false, a) ↦ absurd (some_effect (ground arith))
    ]
  ]
]
