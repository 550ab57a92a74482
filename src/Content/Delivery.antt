-- ===== src/Content/Delivery.antt =====
-- What the availability of a Work says of its assets, and the home of the data.
use ubeeq.Common.{
  ◌≡◌, ◌↔◌, refl, Bool, true, false, not, ◌&&◌, ◌||◌, List, [], ◌∷◌, any, any-select, is_nil,
  select, truthy, arith,
}
use ubeeq.Content.{
  Origin, Asset, Availability, is_import, is_served, is_original, availability_of,
  content_availability_for,
}

is_nil-select : (p : Asset → Bool) (xs : List Asset) → is_nil (select p xs) ≡ not (any p xs)
is_nil-select p [] = refl
is_nil-select p (x ∷ xs) = ground (arith, is_nil-select p xs)

no_assets : (p : Asset → Bool) (xs : List Asset) → is_nil xs ≡ true → any p xs ≡ false
no_assets p [] h = refl
no_assets p (x ∷ xs) h = cc

-- A Work is available as an original exactly if one of its assets is hosted, ready and no display copy;
-- as a display copy exactly if one is hosted and ready, and none of these is an original; by an
-- external reference exactly if none is hosted and ready, and it has an asset or was imported under a
-- remote identifier; and as metadata only in the other cases.
pub availability_iff :
    (origin : Origin) (assets : List Asset)
    → (content_availability_for origin assets ≡ Availability.original_hosted
        ↔ any (λ a. is_served a && is_original a) assets ≡ true)
      × (content_availability_for origin assets ≡ Availability.display_copy
          ↔ (any is_served assets ≡ true)
            × (any (λ a. is_served a && is_original a) assets ≡ false))
      × (content_availability_for origin assets ≡ Availability.external_reference
          ↔ (any is_served assets ≡ false)
            × ((not (is_nil assets) || (is_import origin.type && truthy origin.remote_id)) ≡ true))
      × (content_availability_for origin assets ≡ Availability.metadata_only
          ↔ (is_nil assets ≡ true) × ((is_import origin.type && truthy origin.remote_id) ≡ false))
unfolding content_availability_for availability_of
availability_iff origin assets =
    let originals = any-select is_served is_original assets in
    let served = is_nil-select is_served assets in
    let no_original = no_assets (λ a. is_served a && is_original a) assets in
    let no_served = no_assets is_served assets in
    (
      (λ h. ground arith, λ h. ground arith),
      (λ h. (ground arith, ground arith), λ h. ground arith),
      (λ h. (ground arith, ground arith), λ h. ground arith),
      (λ h. (ground arith, ground arith), λ h. ground arith),
    )
