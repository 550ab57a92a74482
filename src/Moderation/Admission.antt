-- ===== src/Moderation/Admission.antt =====
-- Which operations a review hold blocks.
use ubeeq.Common.{
  String, ◌≡◌, refl, ◌∙◌, Bool, not, ◌&&◌, Option, List, [], ◌∷◌, map, ◌==◌, any, contains,
  contains-select, contains-sort, contains-unique, select, unique, sort, is_nil, is_empty, Distinct,
  Distinct-sort, Distinct-unique, IsSorted, sort-IsSorted, ok, err, arith, if◌then◌else◌,
}
use ubeeq.Moderation.{
  Hold, Target, target_ids, active_holds, evaluate_admission, require_admission, blocked_message,
}

-- A hold that is active on a target with an identifier.
abbrev pub holds_back : List Target → Hold → Bool
holds_back targets hold =
    hold.active
    && (not (is_empty hold.subject_id) && any (λ t. t.subject_id == hold.subject_id) targets)

contains-map {ℓ} :
    {A : Type ℓ} (f : A → String) (xs : List A) (id : String)
    → contains (map f xs) id ≡ any (λ x. f x == id) xs
contains-map f [] id = refl
contains-map f (x ∷ xs) id = ground (arith, contains-map f xs id)

any-active {ℓ} :
    {A : Type ℓ} (p q r : A → Bool) (xs : List A)
    → ((x : A) → p x ≡ r x)
    → any q (select p xs) ≡ any (λ x. r x && q x) xs
any-active p q r [] h = refl
any-active p q r (x ∷ xs) h = ground (arith, any-active p q r xs h, h x)

is_nil-active {ℓ} :
    {A : Type ℓ} (p r : A → Bool) (xs : List A)
    → ((x : A) → p x ≡ r x)
    → is_nil (select p xs) ≡ not (any r xs)
is_nil-active p r [] h = refl
is_nil-active p r (x ∷ xs) h = ground (arith, is_nil-active p r xs h, h x)

held_lem :
    (targets : List Target) (hold : Hold)
    → (hold.active && contains (target_ids targets) hold.subject_id) ≡ holds_back targets hold
held_lem targets hold =
    let id = hold.subject_id in
    let named = select (λ t. not (is_empty t)) (map (λ (t : Target). t.subject_id) targets) in
    ground (
      arith,
      contains-unique named id,
      contains-select (λ t. not (is_empty t)) (map (λ (t : Target). t.subject_id) targets) id,
      contains-map (λ (t : Target). t.subject_id) targets id,
    )

listed :
    (targets : List Target) (holds : List Hold) (f : Hold → String) (id : String)
    → contains (sort (unique (map f (active_holds targets holds)))) id
      ≡ any (λ hold. holds_back targets hold && f hold == id) holds
unfolding active_holds
listed targets holds f id =
    contains-sort (unique (map f (active_holds targets holds))) id
    ∙ contains-unique (map f (active_holds targets holds)) id
    ∙ contains-map f (active_holds targets holds) id
    ∙ any-active (λ hold. hold.active && contains (target_ids targets) hold.subject_id)
        (λ hold. f hold == id) (holds_back targets) holds (held_lem targets)

-- An operation is allowed exactly if no active hold is on one of its targets, and it is refused with
-- the decision otherwise; the decision names exactly the subjects and the reasons of those holds, each
-- once and in order. A target without an identifier is held by nothing.
pub admission_iff :
    (targets : List Target) (holds : List Hold) (operation : Option String)
    → let d = evaluate_admission targets holds in
      (d.allowed ≡ not (any (holds_back targets) holds))
      × (require_admission targets holds operation ≡ (
          if any (holds_back targets) holds
          then err (record { message = blocked_message operation; decision = d })
          else ok tt))
      × ((id : String)
          → contains d.blocked_subject_ids id
            ≡ any (λ hold. holds_back targets hold && hold.subject_id == id) holds)
      × ((code : String)
          → contains d.active_hold_reason_codes code
            ≡ any (λ hold. holds_back targets hold && hold.reason_code == code) holds)
      × Distinct d.blocked_subject_ids
      × IsSorted d.blocked_subject_ids
      × Distinct d.active_hold_reason_codes
      × IsSorted d.active_hold_reason_codes
unfolding evaluate_admission require_admission active_holds
admission_iff targets holds operation =
    let allowed =
      is_nil-active (λ hold. hold.active && contains (target_ids targets) hold.subject_id)
        (holds_back targets) holds (held_lem targets) in
    let subjects = map (λ (hold : Hold). hold.subject_id) (active_holds targets holds) in
    let codes = map (λ (hold : Hold). hold.reason_code) (active_holds targets holds) in
    (
      allowed,
      rw allowed (ground arith),
      λ id. listed targets holds (λ hold. hold.subject_id) id,
      λ code. listed targets holds (λ hold. hold.reason_code) code,
      Distinct-sort (unique subjects) (Distinct-unique subjects),
      sort-IsSorted (unique subjects),
      Distinct-sort (unique codes) (Distinct-unique codes),
      sort-IsSorted (unique codes),
    )
