-- ===== src/Destinations/Planning/Inbound.antt =====
-- Plans for a collection that mirrors a gallery: which Works come in, and which may go.
use ubeeq.Common.{
  String, ◌≡◌, refl, sym, ap, ◌∙◌, Bool, true, false, not, ◌&&◌, ◌||◌, List, [], ◌∷◌, ◌++◌, map,
  truthy, same, any, any-unique, select, contains, contains-append, contains-select,
  contains-unique, unique, is_nil, is_nil_lem, Dates, ok, arith, Bool-cases, Option-cases, inl, inr,
  ◌⊎◌,
}
use ubeeq.Destinations.{Comparison, Plan}
use ubeeq.Destinations.Planning.Members.{is_platform}
use ubeeq.Destinations.Planning.Inversion.{plan_destination-Built}
use ubeeq.Destinations.Planning.{
  PlanInput, fresh, complete, scan, remote, resolved, unresolved_blocks, blocked, source_ids,
  source_works, native_works, inbound_additions, inbound_removals, build, comparison,
  plan_destination,
}

-- The Work that a remote Publication was resolved to, if there is one.
abbrev pub resolves_to : PlanInput → String → String → Bool
resolves_to i work id = truthy (resolved i id) && same (resolved i id) work

contains-source_ids :
    (i : PlanInput) (ids : List String) (work : String)
    → contains (source_ids i ids) work ≡ any (resolves_to i work) ids
unfolding source_ids
contains-source_ids i [] work = refl
contains-source_ids i (id ∷ ids) work = elim (Option-cases (resolved i id)) [
  | inl e ↦ rw (e, source_ids) (contains-source_ids i ids work)
  | inr (w, e) ↦ rw (e, source_ids) (ground (arith, contains-source_ids i ids work))
]

-- Some remote Publication was resolved to the Work.
abbrev pub is_source : PlanInput → String → Bool
is_source i work = any (resolves_to i work) i.observation.publication_ids

contains-source_works :
    (i : PlanInput) (work : String) → contains (source_works i) work ≡ is_source i work
unfolding source_works remote
contains-source_works i work =
    contains-unique (source_ids i (unique i.observation.publication_ids)) work
    ∙ contains-source_ids i (unique i.observation.publication_ids) work
    ∙ any-unique (resolves_to i work) i.observation.publication_ids

-- The Work is a member of the collection.
abbrev pub is_member : PlanInput → String → Bool
is_member i work = contains (map (λ w. w.work_id) i.members) work

contains-native_works :
    (i : PlanInput) (work : String) → contains (native_works i) work ≡ is_member i work
unfolding native_works
contains-native_works i work = contains-unique (map (λ w. w.work_id) i.members) work

contains-inbound_additions :
    (i : PlanInput) (work : String)
    → contains (inbound_additions i) work
      ≡ (is_platform i.mapping.authority && (not (is_member i work) && is_source i work))
unfolding inbound_additions
contains-inbound_additions i work = elim (Bool-cases (is_platform i.mapping.authority)) [
  | inl e ↦
      rw
        (
          e,
          contains-select (λ id. not (contains (native_works i) id)) (source_works i) work,
          contains-native_works i work,
          contains-source_works i work,
        )
        refl
  | inr e ↦ rw e refl
]

contains-inbound_removals :
    (i : PlanInput) (seen : Bool) (work : String)
    → contains (inbound_removals i seen) work ≡ (
        is_platform i.mapping.authority
        && (seen && is_nil (blocked i))
        && (not (is_source i work) && is_member i work))
unfolding inbound_removals
contains-inbound_removals i seen work =
    elim (Bool-cases (is_platform i.mapping.authority && (seen && is_nil (blocked i)))) [
      | inl e ↦
          rw
            (
              e,
              contains-select (λ id. not (contains (source_works i) id)) (native_works i) work,
              contains-native_works i work,
              contains-source_works i work,
            )
            refl
      | inr e ↦ rw e refl
    ]

unresolved_blocks-nil :
    (i : PlanInput) (ids : List String)
    → is_nil (unresolved_blocks i ids) ≡ not (any (λ id. not (truthy (resolved i id))) ids)
unfolding unresolved_blocks
unresolved_blocks-nil i [] = refl
unresolved_blocks-nil i (id ∷ ids) = ground (arith, unresolved_blocks-nil i ids)

is_nil-append {ℓ} : {A : Type ℓ} (xs ys : List A) → is_nil (xs ++ ys) ≡ (is_nil xs && is_nil ys)
is_nil-append [] ys = refl
is_nil-append (x ∷ xs) ys = refl

-- A mirror with no blocker has every remote Publication resolved.
blocked-resolved :
    (i : PlanInput)
    → is_platform i.mapping.authority ≡ true
    → blocked i ≡ []
    → any (λ id. not (truthy (resolved i id))) i.observation.publication_ids ≡ false
unfolding blocked remote
blocked-resolved i mirror e =
    let ids = i.observation.publication_ids in
    ground (
      arith,
      ap is_nil e,
      is_nil-append (scan i).blocked (unresolved_blocks i (unique ids)),
      unresolved_blocks-nil i (unique ids),
      any-unique (λ id. not (truthy (resolved i id))) ids,
    )

-- The members of the collection after the inbound changes of a plan.
abbrev pub mirrored : Plan → List String → List String
mirrored p works = select (λ w. not (contains p.inbound_removals w)) works ++ p.inbound_additions

mirrored_lem :
    (p : Plan) (works : List String) (work : String)
    → contains (mirrored p works) work ≡ (
        (contains works work && not (contains p.inbound_removals work))
        || contains p.inbound_additions work)
mirrored_lem p works work =
    rw
      (
        contains-append (select (λ w. not (contains p.inbound_removals w)) works)
            p.inbound_additions work,
        contains-select (λ w. not (contains p.inbound_removals w)) works work,
      )
      (ground arith)

built-inbound :
    (i : PlanInput) (whole recent : Bool) (expires work : String)
    → let p = build i whole recent expires in
      (contains p.inbound_removals work ≡ contains (inbound_removals i (whole && recent)) work)
      × (contains p.inbound_additions work ≡ contains (inbound_additions i) work)
      × (p.blocked ≡ blocked i)
unfolding build
built-inbound i whole recent expires work = (refl, refl, refl)

built-seen :
    (i : PlanInput) (whole recent : Bool) (expires : String)
    → let p = build i whole recent expires in
      (p.comparison ≡ Comparison.changes_pending) ⊎ (p.comparison ≡ Comparison.up_to_date)
      → (whole ≡ true) × (recent ≡ true) × (is_nil (blocked i) ≡ true)
unfolding build comparison
built-seen i whole recent expires h = ground arith

module _ (dates : Dates) (i : PlanInput) (p : Plan)
    (planned : plan_destination dates i ≡ ok p) where
  -- A plan takes a Work out of the collection only if the mapping is an inbound mirror, the
  -- observation is complete, nothing is blocked, every remote Publication was resolved to a Work,
  -- and none of them to this member.
  pub inbound_removals_sound :
      (work : String)
      → contains p.inbound_removals work ≡ true
      → (is_platform i.mapping.authority ≡ true)
        × (complete i ≡ true)
        × (p.blocked ≡ [])
        × (any (λ id. not (truthy (resolved i id))) i.observation.publication_ids ≡ false)
        × (is_member i work ≡ true)
        × (is_source i work ≡ false)
  inbound_removals_sound work h =
      let b = plan_destination-Built dates i planned in
      let recent = fresh b.now b.observed b.freshness in
      let at = built-inbound i (complete i) recent b.expires work in
      let removed : contains (inbound_removals i (complete i && recent)) work ≡ true =
        sym at.0 ∙ ap (λ (q : Plan). contains q.inbound_removals work) (sym b.built) ∙ h in
      let e = contains-inbound_removals i (complete i && recent) work in
      let clear = is_nil_lem (blocked i) (ground arith) in
      (
        ground arith,
        ground arith,
        ap (λ (q : Plan). q.blocked) b.built ∙ at.2 ∙ clear,
        blocked-resolved i (ground arith) clear,
        ground arith,
        ground arith,
      )

  -- When the comparison of an inbound mirror is settled, applying the inbound changes makes the
  -- members exactly the Works to which the gallery's Publications were resolved.
  pub mirrored_exact :
      (work : String)
      → is_platform i.mapping.authority ≡ true
      → (p.comparison ≡ Comparison.changes_pending) ⊎ (p.comparison ≡ Comparison.up_to_date)
      → contains (mirrored p (map (λ w. w.work_id) i.members)) work ≡ is_source i work
  mirrored_exact work mirror settled =
      let b = plan_destination-Built dates i planned in
      let recent = fresh b.now b.observed b.freshness in
      let at = built-inbound i (complete i) recent b.expires work in
      let seen = built-seen i (complete i) recent b.expires (rw b.built at settled) in
      rw mirrored_lem (
        ground (
          arith,
          at.0,
          at.1,
          ap (λ (q : Plan). contains q.inbound_removals work) b.built,
          ap (λ (q : Plan). contains q.inbound_additions work) b.built,
          contains-inbound_removals i (complete i && recent) work,
          contains-inbound_additions i work,
        ))
