-- ===== src/Destinations.antt =====
-- packages/core/src/collection-destinations.ts, the types: how a collection is mapped to a gallery
-- of an account elsewhere, what is known of that gallery, and the plan that brings them together.
-- A union that the code checks at run time has one constructor more, `other`, for a value outside
-- the declared union. The texts of error messages are left out, their codes are kept.
pub mod Validation
pub mod Planning
pub mod Authorization
pub mod Execution
mod Samples
mod Tests
use ubeeq.Common.{String, Bool, Option, List, Number, Result}

-- `CollectionMembershipAuthority`
pub data Authority : Type 0 where
  platform native manual other : Authority

-- `CollectionDestinationRole`
pub data Role : Type 0 where
  full preview followers custom other : Role

pub data Mode : Type 0 where
  manual automatic other : Mode

pub data Scope : Type 0 where
  released selected other : Scope

pub data Reconciliation : Type 0 where
  exact custom other : Reconciliation

pub data RemovalPolicy : Type 0 where
  review propagate other : RemovalPolicy

pub data Field : Type 0 where
  title description cover order other : Field

-- `GalleryCapabilities`
pub record GalleryCapabilities : Type 0 where
  pub revision : Number
  pub list_membership : Bool
  pub complete_membership : Bool
  pub add_membership : Bool
  pub remove_membership : Bool
  pub membership_may_change_access : Bool
  pub freshness_ms : Number

pub record Selection : Type 0 where
  pub work_id : String
  pub publication_id : Option String

pub record FieldRule : Type 0 where
  pub field : Field
  pub authority : Authority

-- `CollectionDestinationMapping`
pub record Mapping : Type 0 where
  pub id : String
  pub collection_id : String
  pub account_id : String
  pub remote_gallery_id : String
  pub role : Role
  pub audience : String
  pub authority : Authority
  pub execution : Mode
  pub scope : Scope
  pub selections : List Selection
  pub reconciliation : Reconciliation
  pub representation : String
  pub removal_policy : RemovalPolicy
  pub enabled : Bool
  pub generation : Number
  pub revision : Number
  pub initial_review_at : Option String
  pub field_rules : List FieldRule

-- `CollectionDestinationMember`
pub record Member : Type 0 where
  pub work_id : String
  pub released : Bool
  pub exclusion : Option String
  pub publication_id : Option String

pub data Source : Type 0 where
  api manual : Source

pub record ResolvedWork : Type 0 where
  pub publication_id : String
  pub work_id : Option String

-- `GalleryMembershipObservation`
pub record Observation : Type 0 where
  pub id : String
  pub mapping_id : String
  pub publication_ids : List String
  pub resolved_works : List ResolvedWork
  pub complete : Bool
  pub observed_at : String
  pub source : Source
  pub evidence : List String

-- `CollectionSyncInputs`
pub record SyncInputs : Type 0 where
  pub membership : Number
  pub metadata : Number
  pub release : Number
  pub access : Number
  pub mapping : Number
  pub generation : Number
  pub capability : Number

pub record Excluded : Type 0 where
  pub work_id : String
  pub reason : String

pub record Blocked : Type 0 where
  pub work_id : Option String
  pub reason : String

pub data Effect : Type 0 where
  membership access : Effect

pub data Comparison : Type 0 where
  unknown changes_pending up_to_date unresolved : Comparison

pub data Verification : Type 0 where
  api_verified manually_confirmed stale incomplete unavailable : Verification

-- `CollectionDestinationPlan`
pub record Plan : Type 0 where
  pub id : String
  pub mapping_id : String
  pub inputs : SyncInputs
  pub observation_id : String
  pub created_at : String
  pub expires_at : String
  pub intended_publication_ids : List String
  pub additions : List String
  pub removals : List String
  pub inbound_additions : List String
  pub inbound_removals : List String
  pub excluded : List Excluded
  pub blocked : List Blocked
  pub manual_steps : List String
  pub effects : List Effect
  pub comparison : Comparison
  pub verification : Verification
  pub exact : Bool

-- The `code` of a `CollectionDestinationError`.
pub data Code : Type 0 where
  invalid_mapping gallery_owned inbound_authority field_authority : Code
  mirror_controlled stale_plan review_required blocked : Code

-- What may be thrown: a `CollectionDestinationError`, or an error of another class, by its name.
pub data Failure : Type 0 where
  refused : Code → Failure
  thrown : String → Failure
