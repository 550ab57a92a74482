-- ===== src/Destinations/Execution.antt =====
-- packages/core/src/collection-destinations.ts, the types of the outbound executor and the port that
-- it drives. Code that awaits the port is a function from a state to what it returned or threw, the
-- state it left, and the events that it gave rise to: a thrown error keeps all that was done before.
pub mod Check
pub mod Attempt
pub mod Run
use ubeeq.Common.{
  ℕ, String, ◌≡◌, refl, Bool, true, false, Option, none, some, List, [], ◌∷◌, ◌++◌, Number, Result,
  ok, err, Dates, ◌==◌, num_eq, ◌&&◌,
}
use ubeeq.Destinations.{GalleryCapabilities, Mapping, Observation, SyncInputs, Plan, Failure}

pub data Kind : Type 0 where
  add remove : Kind

pub data ReceiptState : Type 0 where
  prepared confirmed failed uncertain : ReceiptState

-- The array that `JSON.stringify` writes for the key of an operation.
pub record Key : Type 0 where
  pub mapping_id : String
  pub generation : Number
  pub plan_id : String
  pub kind : Kind
  pub publication_id : String

-- `CollectionSyncOperationReceipt`
pub record Receipt : Type 0 where
  pub key : Key
  pub kind : Kind
  pub publication_id : String
  pub state : ReceiptState
  pub remote_receipt : Option String

pub data RunState : Type 0 where
  queued running partially_applied failed paused verified unverified : RunState

-- `CollectionSyncExecution`
pub record Execution : Type 0 where
  pub id : String
  pub plan_id : String
  pub mapping_id : String
  pub state : RunState
  pub operations : List Receipt
  pub started_at : Option String
  pub completed_at : Option String
  pub readback_observation_id : Option String

-- What `port.current` gives.
pub record CurrentState : Type 0 where
  pub mapping : Mapping
  pub inputs : SyncInputs
  pub archived : Bool
  pub connected : Bool
  pub capabilities : GalleryCapabilities

-- What `port.reconcileOperation` gives.
pub data Reconciled : Type 0 where
  confirmed not_applied unknown : Reconciled

-- A call of the port: it returns or throws, and changes the world either way.
abbrev pub Call : Type 0 → Type 0 → Type 0
Call W A = W → Result Failure A × W

-- `CollectionSyncExecutionPort`, which storage and adapters implement, and the clock `now`.
pub record Port (W : Type 0) : Type 0 where
  pub exclusive : Mapping → Call W Execution → Call W Execution
  pub assert_lease : Mapping → Call W (Unit {0})
  pub current : String → Call W CurrentState
  pub get_execution : String → Call W (Option Execution)
  pub save_execution : Execution → Call W (Unit {0})
  pub validate_effects : Plan → Bool → Call W (Unit {0})
  pub reconcile_operation : Mapping → Receipt → Call W Reconciled
  pub write_membership : Mapping → Receipt → Call W (Unit {0}) → Call W (Option String)
  pub observe : Mapping → Call W (Option Observation)
  pub now : W → String × W

-- What an observer of the port sees: a check that passed, the answer to a reconciliation, a provider
-- write that is issued, and an execution that is handed to storage.
pub data Event : Type 0 where
  checked : Mapping → Event
  reconciled : Receipt → Reconciled → Event
  wrote : Receipt → Event
  saved : Execution → Event

pub record Ran (S A : Type 0) : Type 0 where
  pub out : Result Failure A
  pub state : S
  pub events : List Event

abbrev pub M : Type 0 → Type 0 → Type 0
M S A = S → Ran S A

-- The rest of a block after what has run: it is skipped when that threw.
abbrev pub proceed_with :
    {S A B : Type 0} → Result Failure A → S → List Event → (A → M S B) → Ran S B
proceed_with (err e) s before f = record { out = err e; state = s; events = before }
proceed_with (ok a) s before f = record {
  out = (f a s).out;
  state = (f a s).state;
  events = before ++ (f a s).events;
}

infixl 5 ◌>>=◌ ◌>>◌
abbrev pub ◌>>=◌ : {S A B : Type 0} → M S A → (A → M S B) → M S B
◌>>=◌ m f s = proceed_with (m s).out (m s).state (m s).events f

abbrev pub ◌>>◌ : {S B : Type 0} → M S (Unit {0}) → M S B → M S B
m >> k = m >>= λ _. k

abbrev pub pure : {S A : Type 0} → A → M S A
pure a s = record { out = ok a; state = s; events = [] }

-- A synchronous check that may throw.
abbrev pub check_that : {S A : Type 0} → Result Failure A → M S A
check_that r s = record { out = r; state = s; events = [] }

abbrev pub emit : {S : Type 0} → Event → M S (Unit {0})
emit e s = record { out = ok tt; state = s; events = e ∷ [] }

-- A call of the port.
abbrev pub call : {W A : Type 0} → Call W A → M W A
call c w = record { out = (c w).0; state = (c w).1; events = [] }

abbrev pub clock : {W : Type 0} → Port W → M W String
clock port w = record { out = ok (port.now w).0; state = (port.now w).1; events = [] }
