-- ===== src/CollectionPublications/Laws.antt =====
-- Which Works a release shows, that it loses none, and that planning again changes nothing.
use ubeeq.Common.{
  ℕ, ◌+◌, String, ◌≡◌, refl, ap, ◌∙◌, inl, inr, Bool, true, false, not, ◌&&◌, ◌||◌, Option, none,
  some, List, [], ◌∷◌, ◌==◌, eq_iff, any, contains, contains-append, count_if, length,
  length-append, leb, Dates, parse_optional, ok, arith, Bool-cases, Option-cases, if◌then◌else◌,
}
use ubeeq.CollectionPublications.{
  Publication, Eligibility, is_published, is_scheduled, is_released, PlanInput, bad_settings,
  decision, Found, exclude, decide, is_skipped, consider, consider_all, nothing_found, planned,
  plan_publication,
}

abbrev allowed : Option Eligibility → Bool
allowed none = false
allowed (some e) = e.allowed

-- The Work is in scope, in the release snapshot, and decided to be eligible.
abbrev pub is_shown : PlanInput → String → Bool
is_shown i work =
    not (is_skipped i work)
    && (contains i.publication.released_work_ids work && allowed (decision i work))

decide_lem :
    (f : Found) (work : String) (d : Option Eligibility) (id : String)
    → contains (decide f work d).included id ≡ (contains f.included id || (work == id && allowed d))
decide_lem f work none id = ground arith
decide_lem f work (some e) id = ground (arith, contains-append f.included (work ∷ []) id)

consider_lem :
    (i : PlanInput) (f : Found) (work id : String)
    → contains (consider i f work).included id
      ≡ (contains f.included id || (work == id && is_shown i work))
unfolding consider
consider_lem i f work id = ground (arith, decide_lem f work (decision i work) id)

consider_all_lem :
    (i : PlanInput) (f : Found) (works : List String) (id : String)
    → contains (consider_all i f works).included id
      ≡ (contains f.included id || any (λ work. work == id && is_shown i work) works)
unfolding consider_all
consider_all_lem i f [] id = ground arith
consider_all_lem i f (work ∷ works) id =
    ground (arith, consider_all_lem i (consider i f work) works id, consider_lem i f work id)

any-shown :
    (i : PlanInput) (works : List String) (id : String)
    → any (λ work. work == id && is_shown i work) works ≡ (contains works id && is_shown i id)
any-shown i [] id = refl
any-shown i (work ∷ works) id = elim (Bool-cases (work == id)) [
  | inl e ↦
      let same : is_shown i work ≡ is_shown i id = ap (is_shown i) ((eq_iff work id).0 e) in
      rw (e, same, any-shown i works id) (ground arith)
  | inr e ↦ rw (e, any-shown i works id) refl
]

counted : Found → ℕ
counted f = length f.included + length f.excluded

decide-counted :
    (f : Found) (work : String) (d : Option Eligibility) → counted (decide f work d) ≡ counted f + 1
unfolding counted
decide-counted f work none = grind (arith, length-append)
decide-counted f work (some e) = elim (Bool-cases e.allowed) [
  | inl a ↦ rw a (grind (arith, length-append))
  | inr a ↦ rw a (grind (arith, length-append))
]

consider-counted :
    (i : PlanInput) (f : Found) (work : String)
    → counted (consider i f work) ≡ (if is_skipped i work then counted f else counted f + 1)
unfolding consider
consider-counted i f work = ground (arith, decide-counted f work (decision i work), excluded_lem)
  where
    excluded_lem : counted (exclude f work "Not released for this destination.") ≡ counted f + 1
    excluded_lem = unfold counted in grind (arith, length-append)

consider_all-counted :
    (i : PlanInput) (f : Found) (works : List String)
    → counted (consider_all i f works)
      ≡ counted f + count_if (λ work. not (is_skipped i work)) works
unfolding consider_all
consider_all-counted i f [] = omega arith
consider_all-counted i f (work ∷ works) =
    ground (arith, consider_all-counted i (consider i f work) works, consider-counted i f work)

module _ (dates : Dates) (i : PlanInput) (p : Publication)
    (done : plan_publication dates i ≡ ok p) where
  is_planned : planned i ≡ p
  unfolding plan_publication
  is_planned = ground arith

  -- A release shows exactly the members of the collection that are in scope, in the release
  -- snapshot, and decided to be eligible; and every member in scope is either shown or has one entry
  -- that says why it is not.
  pub included_iff :
      ((id : String)
        → contains p.included_work_ids id ≡ (contains i.member_ids id && is_shown i id))
      × (length p.included_work_ids + length p.excluded
          ≡ count_if (λ work. not (is_skipped i work)) i.member_ids)
  unfolding planned counted
  included_iff = rw (← is_planned) (
    λ id. consider_all_lem i nothing_found i.member_ids id ∙ any-shown i i.member_ids id,
    omega (arith, consider_all-counted i nothing_found i.member_ids),
  )

  -- A planned publication is visible at the time of planning exactly if it is published, never if
  -- it is scheduled; a scheduled one is visible from the scheduled instant on.
  pub planned_visibility :
      (is_released dates p i.now ≡ is_published i.publication.release)
      × ((later : String) (t at : ℕ)
          → is_scheduled i.publication.release ≡ true
          → dates.parse later ≡ some t
          → parse_optional dates i.publication.scheduled_at ≡ some at
          → is_released dates p later ≡ leb at t)
  unfolding plan_publication planned is_released
  planned_visibility =
      let e = is_planned in rw (← e) (ground arith, λ later t at scheduled read due. ground arith)

-- The input of a second planning.
abbrev pub again : PlanInput → Publication → PlanInput
again i p = record i { publication = p }

consider_all-again :
    (i : PlanInput) (f : Found) (works : List String)
    → consider_all (again i (planned i)) f works ≡ consider_all i f works
unfolding consider_all consider planned decision
consider_all-again i f [] = refl
consider_all-again i f (work ∷ works) = consider_all-again i (consider i f work) works

planned-again : (i : PlanInput) → planned (again i (planned i)) ≡ planned i
unfolding planned
planned-again i =
    let same = consider_all-again i nothing_found i.member_ids in
    ground (arith, ap (λ (f : Found). f.included) same, ap (λ (f : Found). f.excluded) same)

settings-again :
    (i : PlanInput)
    → (bad_settings (again i (planned i)) ≡ bad_settings i)
      × ((planned i).release ≡ i.publication.release)
      × ((planned i).scheduled_at ≡ i.publication.scheduled_at)
unfolding bad_settings planned
settings-again i = (refl, refl, refl)

-- Planning a planned publication again at the same instant returns it as it is: the instant of the
-- first publication is kept.
pub plan_again :
    (dates : Dates) (i : PlanInput) (p : Publication)
    → plan_publication dates i ≡ ok p
    → plan_publication dates (again i p) ≡ ok p
unfolding plan_publication
plan_again dates i p done =
    let (settings, release, schedule) = settings-again i in
    rw (← is_planned dates i p done) (elim (Option-cases (dates.parse i.now)) [
      | inl e ↦ ground arith
      | inr (now, e) ↦
          rw (plan_publication, e, settings, release, schedule) (ground (arith, planned-again i))
    ])
