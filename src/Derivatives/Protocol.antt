-- ===== src/Derivatives/Protocol.antt =====
-- packages/integrations/src/public-derivative-publication.ts, `publishPublicDerivative`: the calls of
-- the repository and of the store, in their order, with the recovery of a lost response.
use ubeeq.Common.{
  String, Bool, true, false, Option, none, some, List, [], ◌∷◌, ◌++◌, Result, ok, err,
}
use ubeeq.Derivatives.{Input, State, Publication, Failure, guard, prepare}

-- A call returns, or throws a value with the name of an `Error`.
abbrev pub Call : Type 0 → Type 0 → Type 0
Call W A = W → Result (Option String) A × W

-- What `completedReceipt` finds.
pub record Receipt : Type 0 where
  pub created_at : String
  pub published_at : String

-- The repository, the store and `admit`; the first method is optional, and so is `admit`.
pub record Port (W : Type 0) : Type 0 where
  pub completed_receipt : Option (Publication → Call W (Option Receipt))
  pub begin : Publication → Call W (Unit {0})
  pub complete : Publication → Call W (Unit {0})
  pub fail : Publication → String → Call W (Unit {0})
  pub copy : Publication → Call W (Unit {0})
  pub remove : Publication → Call W (Unit {0})
  pub admit : Option (Input → Call W Bool)

-- The calls in the order in which they end, with whether they returned; a receipt is looked up, and
-- found, not found, or the call threw.
pub data Event : Type 0 where
  begun copied completed fenced removed : Bool → Event
  looked_up : Option Bool → Event

pub record Ran (W A : Type 0) : Type 0 where
  pub out : Result Failure A
  pub world : W
  pub events : List Event

abbrev pub M : Type 0 → Type 0 → Type 0
M W A = W → Ran W A

abbrev pub pure : {W A : Type 0} → Result Failure A → M W A
pure r w = record { out = r; world = w; events = [] }

abbrev after :
    {W A B : Type 0} → Result Failure A → W → List Event → (A → M W B) → (Failure → M W B) → Ran W B
after (ok a) w before f g = record (f a w) { events = before ++ (f a w).events }
after (err e) w before f g = record (g e w) { events = before ++ (g e w).events }

-- `try { m } catch`, where the rest of a block is in the first continuation.
abbrev pub branch : {W A B : Type 0} → M W A → (A → M W B) → (Failure → M W B) → M W B
branch m f g w = after (m w).out (m w).world (m w).events f g

abbrev pub bind : {W A B : Type 0} → M W A → (A → M W B) → M W B
bind m f = branch m f (λ e. pure (err e))

abbrev returned : {W A : Type 0} → (Bool → Event) → Result (Option String) A → W → Ran W A
returned event (ok a) w = record { out = ok a; world = w; events = event true ∷ [] }
returned event (err name) w = record {
  out = err (Failure.thrown name);
  world = w;
  events = event false ∷ [];
}

abbrev pub call : {W A : Type 0} → (Bool → Event) → Call W A → M W A
call event c w = returned event (c w).0 (c w).1

abbrev looked : {W : Type 0} → Result (Option String) (Option Receipt) → W → Ran W (Option Receipt)
looked (ok none) w = record { out = ok none; world = w; events = Event.looked_up (some false) ∷ [] }
looked (ok (some r)) w = record {
  out = ok (some r);
  world = w;
  events = Event.looked_up (some true) ∷ [];
}
looked (err name) w = record {
  out = err (Failure.thrown name);
  world = w;
  events = Event.looked_up none ∷ [];
}

-- `recover`; a repository without the method finds nothing.
unfoldable pub recover : {W : Type 0} → Port W → Publication → M W (Option Receipt)
recover port p w = elim port.completed_receipt [
  | none ↦ looked (ok none) w
  | some find ↦ looked (find p w).0 (find p w).1
]

abbrev pub recovered : Publication → Receipt → Publication
recovered p r = record p {
  created_at = r.created_at;
  published_at = some r.published_at;
  state = State.published;
}

-- `if (completed) return completed`, and else the rest.
unfoldable pub recover_or : {W : Type 0} → Port W → Publication → M W Publication → M W Publication
recover_or port p rest =
    bind (recover port p) (λ found. elim found [ none ↦ rest | some r ↦ pure (ok (recovered p r)) ])

-- `error instanceof Error ? error.name : 'PublicationError'`; the errors here are those of calls.
abbrev pub reason : Failure → String
reason (Failure.thrown (some name)) = name
reason _ = "PublicationError"

abbrev pub published : Publication → String → Publication
published p now = record p { state = State.published; published_at = some now }

-- The end of the second `catch`: the fence before the cleanup.
unfoldable pub fence : {W : Type 0} → Port W → Publication → Failure → M W Publication
fence port p e =
    branch (call Event.fenced (port.fail p (reason e)))
      (λ _. bind (call Event.removed (port.remove p)) (λ _. pure (err e)))
      (λ failure. recover_or port p (pure (err failure)))

-- The second `try`.
unfoldable pub transfer : {W : Type 0} → Port W → String → Publication → M W Publication
transfer port now p =
    branch
      (bind (call Event.copied (port.copy p))
        (λ _. call Event.completed (port.complete (published p now))))
      (λ _. pure (ok (published p now))) (λ e. recover_or port p (fence port p e))

-- The first `try` and what follows it.
unfoldable pub run_publication : {W : Type 0} → Port W → String → Publication → M W Publication
run_publication port now p =
    branch (call Event.begun (port.begin p)) (λ _. transfer port now p)
      (λ e. recover_or port p (pure (err e)))

-- `await admit?.(input) !== true`; this call is not logged.
abbrev pub admitted : {W : Type 0} → Port W → Input → W → Result Failure Bool × W
admitted port i w = elim port.admit [
  | none ↦ (ok false, w)
  | some admit ↦ elim (admit i w).0 [
    | ok answer ↦ (ok answer, (admit i w).1)
    | err name ↦ (err (Failure.thrown name), (admit i w).1)
  ]
]

abbrev admit_then : {W A : Type 0} → Result Failure Bool → M W A → M W A
admit_then (ok true) rest = rest
admit_then (ok false) rest = pure (err Failure.not_admitted)
admit_then (err e) rest = pure (err e)

-- `publishPublicDerivative`
unfoldable pub publish :
    {W : Type 0} → Port W → (String → String) → String → Input → M W Publication
publish port sha256 now i w = elim (guard i) [
  | err e ↦ pure (err e) w
  | ok _ ↦
      admit_then (admitted port i w).0
        (bind (pure (prepare sha256 now i)) (run_publication port now)) (admitted port i w).1
]
