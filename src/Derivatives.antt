-- ===== src/Derivatives.antt =====
-- packages/integrations/src/public-derivative-publication.ts: a derivative is copied from the private
-- bucket of its cell to the public one, between a record that is begun and one that is completed.
-- The repository, the store, the admission and SHA-256 are parameters; each call of them is logged
-- with whether it returned. The record's type tag is left out.
pub mod Protocol
pub mod Fence
pub mod Checks
mod Tests
use ubeeq.Common.{
  ℕ, String, Bool, true, false, not, ◌&&◌, ◌||◌, Option, none, some, List, [], ◌∷◌, ◌++◌, ◌==◌,
  is_empty, is_blank, leb, nat_eq, all, length, codes, concat, starts_with, includes, lower_ascii,
  map_get, or_else, Result, ok, err, if◌then◌else◌,
}
use ubeeq.Common

-- `PublishPublicDerivativeInput`
pub record Input : Type 0 where
  pub product : String
  pub environment : String
  pub data_home_region : String
  pub asset_id : String
  pub media_version_id : String
  pub scan_group_id : String
  pub content_hash : String
  pub content_type : String
  pub source_bucket : String
  pub source_object_key : String
  pub expected_private_derivatives_bucket : String
  pub public_derivatives_bucket : String
  pub expected_public_derivatives_bucket : String

pub data State : Type 0 where
  publishing published failed : State

-- `PublicDerivativePublication`
pub record Publication : Type 0 where
  pub id : String
  pub product : String
  pub environment : String
  pub data_home_region : String
  pub asset_id : String
  pub media_version_id : String
  pub scan_group_id : String
  pub source_bucket : String
  pub source_object_key : String
  pub destination_bucket : String
  pub destination_object_key : String
  pub content_hash : String
  pub content_type : String
  pub state : State
  pub created_at : String
  pub published_at : Option String

-- What is thrown: an error of this function, or what a call threw, with the name of an `Error`.
pub data Failure : Type 0 where
  environment_required wrong_source_bucket wrong_destination_bucket invalid_object_key : Failure
  hash_required not_admitted unsafe_segment unsupported_content_type : Failure
  thrown : Option String → Failure

abbrev safe_code : ℕ → Bool
safe_code c =
    (leb 65 c && leb c 90)
    || (leb 97 c && leb c 122)
    || (leb 48 c && leb c 57)
    || nat_eq c 95
    || nat_eq c 45

-- `/^[A-Za-z0-9_-]+$/`
abbrev pub is_safe : String → Bool
is_safe s = not (is_empty s) && all safe_code (codes s)

-- `safeSegment`
abbrev pub safe_segment : String → Result Failure String
safe_segment s = if is_safe s then ok s else err Failure.unsafe_segment

abbrev hex_code : ℕ → Bool
hex_code c = (leb 65 c && leb c 70) || (leb 97 c && leb c 102) || (leb 48 c && leb c 57)

-- `/^[a-fA-F0-9]{64}$/`
abbrev pub is_sha256 : String → Bool
is_sha256 s = nat_eq (length (codes s)) 64 && all hex_code (codes s)

-- `extensions`; the last two names are inherited from the prototype of the table, with the texts that
-- their values have in a key.
abbrev extensions : List (String × String)
extensions =
    ("image/avif", "avif")
    ∷ ("image/jpeg", "jpg")
    ∷ ("image/png", "png")
    ∷ ("image/webp", "webp")
    ∷ ("video/mp4", "mp4")
    ∷ ("video/webm", "webm")
    ∷ ("constructor", "function Object() { [native code] }")
    ∷ ("__proto__", "[object Object]")
    ∷ []

-- `extensionFor`
abbrev pub extension_for : String → Result Failure String
extension_for content_type = elim (map_get extensions (lower_ascii content_type)) [
  | none ↦ err Failure.unsupported_content_type
  | some extension ↦ ok extension
]

abbrev pub joined : String → List String → String
joined separator [] = ""
joined separator (s ∷ []) = s
joined separator (s ∷ rest) = concat s (concat separator (joined separator rest))

-- The guards before the admission, in their order.
unfoldable pub guard : Input → Result Failure (Unit {0})
guard i =
    if is_blank i.environment
    then err Failure.environment_required
    else if not (i.source_bucket == i.expected_private_derivatives_bucket)
    then err Failure.wrong_source_bucket
    else if not (i.public_derivatives_bucket == i.expected_public_derivatives_bucket)
    then err Failure.wrong_destination_bucket
    else if is_empty i.source_object_key
        || starts_with i.source_object_key "/"
        || includes i.source_object_key ".."
    then err Failure.invalid_object_key
    else if not (is_sha256 i.content_hash)
    then err Failure.hash_required
    else ok tt

-- `identity`
abbrev pub identity : (String → String) → Input → String
identity sha256 i = sha256 (
    joined "\0" (
      i.product ∷ i.environment ∷ i.data_home_region ∷ i.asset_id ∷ i.media_version_id
      ∷ i.scan_group_id ∷ i.content_hash ∷ []))

-- `publication`, for an extension.
unfoldable pub publication_of : (String → String) → String → Input → String → Publication
publication_of sha256 now i extension = record {
  id = concat "publication-" (identity sha256 i);
  product = i.product;
  environment = i.environment;
  data_home_region = i.data_home_region;
  asset_id = i.asset_id;
  media_version_id = i.media_version_id;
  scan_group_id = i.scan_group_id;
  source_bucket = i.source_bucket;
  source_object_key = i.source_object_key;
  destination_bucket = i.public_derivatives_bucket;
  destination_object_key = joined "/" (
      "assets"
      ∷ i.asset_id
      ∷ i.media_version_id
      ∷ i.content_hash
      ∷ joined "." (identity sha256 i ∷ extension ∷ [])
      ∷ []);
  content_hash = lower_ascii i.content_hash;
  content_type = lower_ascii i.content_type;
  state = State.publishing;
  created_at = now;
  published_at = none;
}

-- From the segments that are tested to the publication.
unfoldable pub prepare : (String → String) → String → Input → Result Failure Publication
prepare sha256 now i = Common.◌>>=◌ (safe_segment i.asset_id) (λ asset.
    Common.◌>>=◌ (safe_segment i.media_version_id) (λ version.
      Common.◌>>=◌ (safe_segment i.scan_group_id) (λ group.
        Common.◌>>=◌ (extension_for i.content_type)
          (λ extension. ok (publication_of sha256 now i extension)))))

-- `publicDerivativePublicationKey` and `publicDerivativeAssetKey`
abbrev pub publication_key : String → String
publication_key id = concat "PUBLICATION#" id

abbrev pub asset_key : String → String
asset_key id = concat "ASSET#" id
