-- ===== src/Moderation/Review.antt =====
-- The life of a review case.
use ubeeq.Common.{
  ℕ, ◌+◌, ◌≤◌, String, ◌≡◌, refl, Bool, true, false, not, ◌&&◌, ◌||◌, Option, none, some, List, [],
  ◌∷◌, is_blank, is_blank-trim, is_some, Result, ok, err, arith, Result-cases, inl, inr,
}
use ubeeq.Moderation.{
  Status, Case, Verdict, ReviewError, is_decided, assign_review_case, decide_review_case,
}

-- A request to change a case.
pub data Request : Type 0 where
  assign : String → Request
  decide : Verdict → Request

abbrev pub apply : Case → Request → Result ReviewError Case
apply c (Request.assign reviewer) = assign_review_case c reviewer
apply c (Request.decide v) = decide_review_case c v

abbrev pub kept : Case → Result ReviewError Case → Case
kept c (ok next) = next
kept c (err e) = c

-- The requests in turn; one that throws leaves the case as it is.
abbrev pub after_all : Case → List Request → Case
after_all c [] = c
after_all c (r ∷ rs) = after_all (kept c (apply c r)) rs

abbrev pub decides : Request → Result ReviewError Case → ℕ
decides (Request.decide v) (ok next) = 1
decides _ _ = 0

-- How many decisions the case takes.
abbrev pub decisions : Case → List Request → ℕ
decisions c [] = 0
decisions c (r ∷ rs) = decides r (apply c r) + decisions (kept c (apply c r)) rs

abbrev is_named : Option String → Bool
is_named none = false
is_named (some s) = not (is_blank s)

-- An assigned case has a reviewer; a decided one has a reviewer, an outcome, a rationale and an instant,
-- and one that is not decided has none of the last three.
abbrev fields_of : Status → Case → Bool
fields_of Status.opened c = not (is_some c.outcome || is_some c.rationale || is_some c.decided_at)
fields_of Status.assigned c =
    is_named c.assigned_reviewer_id
    && not (is_some c.outcome || is_some c.rationale || is_some c.decided_at)
fields_of Status.decided c =
    is_named c.assigned_reviewer_id
    && is_some c.outcome
    && is_named c.rationale
    && is_some c.decided_at

abbrev pub WellFormed : Case → Type 0
WellFormed c = fields_of c.status c ≡ true

apply-WellFormed : (c : Case) (r : Request) → WellFormed c → WellFormed (kept c (apply c r))
unfolding assign_review_case decide_review_case
apply-WellFormed c (Request.assign reviewer) h = ground arith
apply-WellFormed c (Request.decide v) h = ground (arith, is_blank-trim v.rationale)

-- Whatever is requested of a well-formed case, it stays well-formed: a case that is decided has its
-- outcome, reviewer, rationale and instant, and no other case has an outcome.
pub after_all-WellFormed :
    (c : Case) (rs : List Request) → WellFormed c → WellFormed (after_all c rs)
after_all-WellFormed c [] h = h
after_all-WellFormed c (r ∷ rs) h =
    after_all-WellFormed (kept c (apply c r)) rs (apply-WellFormed c r h)

decided_lem :
    (c : Case) (r : Request)
    → is_decided c.status ≡ true
    → (kept c (apply c r) ≡ c) × (decides r (apply c r) ≡ 0)
unfolding assign_review_case decide_review_case
decided_lem c (Request.assign reviewer) h = rw h (refl, refl)
decided_lem c (Request.decide v) h = rw h (refl, refl)

decided_stays :
    (c : Case) (rs : List Request)
    → is_decided c.status ≡ true
    → (after_all c rs ≡ c) × (decisions c rs ≡ 0)
decided_stays c [] h = (refl, refl)
decided_stays c (r ∷ rs) h =
    let (same, none_now) = decided_lem c r h in
    let rest = decided_stays c rs h in rw (same, none_now) (rest.0, omega (arith, rest.1))

decide-decided :
    (c : Case) (v : Verdict) (next : Case)
    → decide_review_case c v ≡ ok next
    → is_decided next.status ≡ true
unfolding decide_review_case
decide-decided c v next h = ground arith

decisions-le : (c : Case) (rs : List Request) → decisions c rs ≤ 1
decisions-le c [] = omega arith
decisions-le c (Request.assign reviewer ∷ rs) =
    omega (arith, decisions-le (kept c (assign_review_case c reviewer)) rs)
decisions-le c (Request.decide v ∷ rs) = elim (Result-cases (decide_review_case c v)) [
  | inl (next, e) ↦
      let none_later : decisions next rs ≡ 0 =
        (decided_stays next rs (decide-decided c v next e)).1 in
      rw e (omega (arith, none_later))
  | inr (f, e) ↦ rw e (omega (arith, decisions-le c rs))
]

-- A case is decided at most once, in whatever order it is assigned and decided; and once it is decided
-- no request changes it.
pub decided_once :
    (c : Case) (rs : List Request)
    → (decisions c rs ≤ 1)
      × ((more : List Request)
          → is_decided (after_all c rs).status ≡ true
          → after_all (after_all c rs) more ≡ after_all c rs)
decided_once c rs = (decisions-le c rs, λ more h. (decided_stays (after_all c rs) more h).0)
