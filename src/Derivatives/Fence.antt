-- ===== src/Derivatives/Fence.antt =====
-- The order of the calls that publish a derivative: nothing is removed that may be committed.
use ubeeq.Common.{
  String, ◌≡◌, inl, inr, refl, ap, ◌∙◌, Bool, true, false, not, ◌||◌, none, some, List, [], ◌∷◌,
  ◌++◌, any, Result, ok, err, arith, Result-cases,
}
use ubeeq.Derivatives.{Input, Publication, Failure, prepare}
use ubeeq.Derivatives.Protocol.{
  Port, Event, Ran, recover, recover_or, fence, transfer, run_publication, publish, admitted,
}

-- How far a publication is.
pub data Phase : Type 0 where
  -- Nothing is recorded; the record could not be begun, and its receipt is sought or not found.
  idle refused : Phase
  -- The record is begun; the object is there; the record is complete, now or from before.
  opened stored committed : Phase
  -- The copy or the completion threw; no receipt was found then.
  unsure absent : Phase
  -- The record could not be fenced; it is fenced against completion; the object may be gone.
  contested fenced cleaned : Phase
  -- An event that has no place in this order.
  misplaced : Phase

-- The step of the protocol.
abbrev pub next : Phase → Event → Phase
next Phase.idle (Event.begun true) = Phase.opened
next Phase.idle (Event.begun false) = Phase.refused
next Phase.refused (Event.looked_up (some true)) = Phase.committed
next Phase.refused (Event.looked_up _) = Phase.refused
next Phase.opened (Event.copied true) = Phase.stored
next Phase.opened (Event.copied false) = Phase.unsure
next Phase.stored (Event.completed true) = Phase.committed
next Phase.stored (Event.completed false) = Phase.unsure
next Phase.unsure (Event.looked_up (some true)) = Phase.committed
next Phase.unsure (Event.looked_up (some false)) = Phase.absent
next Phase.unsure (Event.looked_up none) = Phase.contested
next Phase.absent (Event.fenced true) = Phase.fenced
next Phase.absent (Event.fenced false) = Phase.contested
next Phase.contested (Event.looked_up (some true)) = Phase.committed
next Phase.contested (Event.looked_up _) = Phase.contested
next Phase.fenced (Event.removed _) = Phase.cleaned
next _ _ = Phase.misplaced

abbrev pub follow : Phase → List Event → Phase
follow p [] = p
follow p (e ∷ es) = follow (next p e) es

abbrev pub is_misplaced : Phase → Bool
is_misplaced Phase.misplaced = true
is_misplaced _ = false

abbrev pub is_committed : Phase → Bool
is_committed Phase.committed = true
is_committed _ = false

abbrev pub returns : {E A : Type 0} → Result E A → Bool
returns (ok a) = true
returns (err e) = false

-- The run from a phase keeps to the protocol and returns exactly if it ends committed.
abbrev Keeps : {W : Type 0} → Phase → Ran W Publication → Type 0
Keeps phase r =
    (is_misplaced (follow phase r.events) ≡ false)
    × (is_committed (follow phase r.events) ≡ returns r.out)

module _ {W : Type 0} (port : Port W) (p : Publication) where
  fence-Keeps : (e : Failure) (w : W) → Keeps Phase.absent (fence port p e w)
  unfolding fence recover_or recover
  fence-Keeps e w = (ground arith, ground arith)

  transfer-Keeps : (now : String) (w : W) → Keeps Phase.opened (transfer port now p w)
  unfolding transfer recover_or recover fence
  transfer-Keeps now w = (ground arith, ground arith)

  run-Keeps : (now : String) (w : W) → Keeps Phase.idle (run_publication port now p w)
  unfolding run_publication recover_or recover transfer fence
  run-Keeps now w = (ground arith, ground arith)

-- Publishing a derivative keeps to the protocol: every call has its place in the order of the phases,
-- whatever the calls return or throw; and it returns a publication exactly if the record was completed,
-- by this run or, as its receipt says, before.
pub publish_keeps :
    {W : Type 0} (port : Port W) (sha256 : String → String) (now : String) (i : Input) (w : W)
    → (is_misplaced (follow Phase.idle (publish port sha256 now i w).events) ≡ false)
      × (is_committed (follow Phase.idle (publish port sha256 now i w).events)
          ≡ returns (publish port sha256 now i w).out)
unfolding publish
publish_keeps port sha256 now i w = elim (Result-cases (prepare sha256 now i)) [
  | inl (p, e) ↦
      let keeps = run-Keeps port p now (admitted port i w).1 in (ground arith, ground arith)
  | inr (f, e) ↦ (ground arith, ground arith)
]

misplaced_stays : (es : List Event) → follow Phase.misplaced es ≡ Phase.misplaced
misplaced_stays [] = refl
misplaced_stays (e ∷ es) = misplaced_stays es

follow-append : (p : Phase) (es fs : List Event) → follow p (es ++ fs) ≡ follow (follow p es) fs
follow-append p [] fs = refl
follow-append p (e ∷ es) fs = follow-append (next p e) es fs

removal_from :
    (p : Phase) (b : Bool) (es : List Event)
    → is_misplaced (follow p (Event.removed b ∷ es)) ≡ false
    → p ≡ Phase.fenced
removal_from Phase.fenced b es h = refl
removal_from Phase.idle b es h = cc (misplaced_stays es)
removal_from Phase.refused b es h = cc (misplaced_stays es)
removal_from Phase.opened b es h = cc (misplaced_stays es)
removal_from Phase.stored b es h = cc (misplaced_stays es)
removal_from Phase.committed b es h = cc (misplaced_stays es)
removal_from Phase.unsure b es h = cc (misplaced_stays es)
removal_from Phase.absent b es h = cc (misplaced_stays es)
removal_from Phase.contested b es h = cc (misplaced_stays es)
removal_from Phase.cleaned b es h = cc (misplaced_stays es)
removal_from Phase.misplaced b es h = cc (misplaced_stays es)

abbrev pub is_begin : Event → Bool
is_begin (Event.begun b) = b
is_begin _ = false

abbrev pub is_fence : Event → Bool
is_fence (Event.fenced b) = b
is_fence _ = false

abbrev pub is_completion : Event → Bool
is_completion (Event.completed b) = b
is_completion _ = false

abbrev pub finds_receipt : Event → Bool
finds_receipt (Event.looked_up (some b)) = b
finds_receipt _ = false

abbrev pub finds_none : Event → Bool
finds_none (Event.looked_up (some b)) = not b
finds_none _ = false

abbrev is_fenced : Phase → Bool
is_fenced Phase.fenced = true
is_fenced _ = false

-- What a run that is fenced now had before, from each phase.
abbrev Fenced : Phase → List Event → Type 0
Fenced p es =
    is_fenced (follow p es) ≡ true
    → (any is_completion es ≡ false)
      × (any finds_receipt es ≡ false)
      × ((is_fenced p || any is_fence es) ≡ true)

misplaced_ends : (es : List Event) → is_fenced (follow Phase.misplaced es) ≡ false
misplaced_ends es = ap is_fenced (misplaced_stays es)

committed_ends : (es : List Event) → is_fenced (follow Phase.committed es) ≡ false
committed_ends [] = refl
committed_ends (e ∷ es) = misplaced_ends es

fenced_lem : (p : Phase) (es : List Event) → Fenced p es
fenced_lem p [] h = (refl, refl, ground arith)
fenced_lem p (e ∷ es) h =
    ground (arith, fenced_lem (next p e) es, committed_ends es, misplaced_ends es)

cleaned_ends : (es : List Event) → is_committed (follow Phase.cleaned es) ≡ false
cleaned_ends [] = refl
cleaned_ends (e ∷ es) = ap is_committed (misplaced_stays es)

-- An object is removed only after the record was fenced against completion, when no completion had
-- returned and no receipt was found; and a run that removes an object throws.
pub removal_is_fenced :
    {W : Type 0} (port : Port W) (sha256 : String → String) (now : String) (i : Input) (w : W)
    (before : List Event) (b : Bool) (rest : List Event)
    → (publish port sha256 now i w).events ≡ before ++ Event.removed b ∷ rest
    → (any is_fence before ≡ true)
      × (any is_completion before ≡ false)
      × (any finds_receipt before ≡ false)
      × (returns (publish port sha256 now i w).out ≡ false)
removal_is_fenced port sha256 now i w before b rest split =
    let keeps = publish_keeps port sha256 now i w in
    let parts =
      ap (follow Phase.idle) split ∙ follow-append Phase.idle before (Event.removed b ∷ rest) in
    let at : follow Phase.idle before ≡ Phase.fenced =
      removal_from (follow Phase.idle before) b rest (ground arith) in
    let earlier = fenced_lem Phase.idle before (ap is_fenced at) in
    let last : is_committed (follow Phase.fenced (Event.removed b ∷ rest)) ≡ false =
      cleaned_ends rest in
    (earlier.2, earlier.0, earlier.1, ground arith)
