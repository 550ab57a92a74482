-- ===== src/Destinations/Validation/Exclusive.antt =====
-- The registry of mappings: galleries, inbound mirrors and native fields have one owner each.
use ubeeq.Common.{
  String, ◌≡◌, sym, ◌↔◌, ◌≢◌, Bool, true, false, not, ◌&&◌, List, [], ◌∷◌, ◌==◌, eq_iff, select,
  arith, ok, All, All-map, All-select, All-of, All-selected, any-eq-false, contains, Distinct,
  no_repeats_iff, map, Bool-cases, inl, inr,
}
use ubeeq.Destinations.{Mapping}
use ubeeq.Destinations.Validation.{
  is_platform, same_gallery, same_collection, share_field, others, check_exclusive, bad_settings,
  bad_selections, bad_field_rules, validate,
}

-- Two enabled mappings do not contend for a gallery, for the inbound side of a collection, or for a
-- native field of a collection.
pub record Compatible (a b : Mapping) : Type 0 where
  pub gallery : (a.account_id ≡ b.account_id) × (a.remote_gallery_id ≡ b.remote_gallery_id) → ⊥
  pub mirror :
      (a.collection_id ≡ b.collection_id)
        × (is_platform a.authority ≡ true)
        × (is_platform b.authority ≡ true)
      → ⊥
  pub field : (a.collection_id ≡ b.collection_id) × (share_field a b ≡ true) → ⊥

abbrev CompatibleIfBoth : Mapping → Mapping → Type 0
CompatibleIfBoth a b = a.enabled ≡ true → b.enabled ≡ true → a.id ≢ b.id → Compatible b a

-- Every two enabled mappings of different ids are compatible.
abbrev pub IsExclusive : List Mapping → Type 0
IsExclusive [] = Unit
IsExclusive (m ∷ ms) = All (CompatibleIfBoth m) ms × IsExclusive ms

-- The registry in which a mapping replaces the one of its id.
abbrev pub save : Mapping → List Mapping → List Mapping
save m existing = m ∷ select (λ o. not (o.id == m.id)) existing

clash : Mapping → Mapping → Bool
clash m o = same_gallery o m

Compatible-of-tests :
    (m o : Mapping)
    → same_gallery o m ≡ false
    → (is_platform m.authority && (same_collection o m && is_platform o.authority)) ≡ false
    → (same_collection o m && share_field o m) ≡ false
    → Compatible o m
Compatible-of-tests m o g p f = record {
  gallery = λ h.
      ground (
        arith,
        eq_iff o.account_id m.account_id,
        eq_iff o.remote_gallery_id m.remote_gallery_id,
        h,
      );
  mirror = λ h. ground (arith, eq_iff o.collection_id m.collection_id, h);
  field = λ h. ground (arith, eq_iff o.collection_id m.collection_id, h);
}

check_exclusive-Compatible :
    (m : Mapping) (os : List Mapping) → check_exclusive m os ≡ ok tt → All (λ o. Compatible o m) os
unfolding check_exclusive
check_exclusive-Compatible m [] h = tt
check_exclusive-Compatible m (o ∷ os) h = (
  Compatible-of-tests m o (ground arith) (ground arith) (ground arith),
  check_exclusive-Compatible m os (ground arith),
)

IsExclusive-select :
    (p : Mapping → Bool) (ms : List Mapping) → IsExclusive ms → IsExclusive (select p ms)
IsExclusive-select p [] h = tt
IsExclusive-select p (m ∷ ms) h = elim (Bool-cases (p m)) [
  | inl e ↦ rw e (All-selected (CompatibleIfBoth m) p ms h.0, IsExclusive-select p ms h.1)
  | inr e ↦ rw e (IsExclusive-select p ms h.1)
]

-- What the accepted mapping is compatible with, stated of the whole registry.
accepted-All :
    (m : Mapping) (existing : List Mapping) (members : List String)
    → m.enabled ≡ true
    → validate m existing members ≡ ok tt
    → All (λ o. (o.enabled && not (o.id == m.id)) ≡ true → Compatible o m) existing
unfolding validate
accepted-All m existing members on h =
    All-select (λ o. Compatible o m) _ existing
      (unfold others in check_exclusive-Compatible m (others m existing) (ground arith))

saved-CompatibleIfBoth :
    (m : Mapping) (existing : List Mapping) (members : List String)
    → validate m existing members ≡ ok tt
    → All (CompatibleIfBoth m) existing
saved-CompatibleIfBoth m existing members h = elim (Bool-cases m.enabled) [
  | inl on ↦
      All-map existing
        (λ o c _ o_on differ.
          c (ground (arith, eq_iff o.id m.id, λ (e : o.id ≡ m.id). differ (sym e))))
        (accepted-All m existing members on h)
  | inr off ↦ All-of (CompatibleIfBoth m) existing (λ o on. cc)
]

-- Saving a mapping that `validateCollectionMapping` accepts against the registry keeps every
-- gallery, every inbound mirror and every native field of a collection with one enabled mapping.
pub save-IsExclusive :
    (m : Mapping) (existing : List Mapping) (members : List String)
    → IsExclusive existing
    → validate m existing members ≡ ok tt
    → IsExclusive (save m existing)
save-IsExclusive m existing members h accepted = (
  All-selected (CompatibleIfBoth m) _ existing (saved-CompatibleIfBoth m existing members accepted),
  IsExclusive-select _ existing h,
)

Compatible-tests :
    (m o : Mapping)
    → Compatible o m
    → (same_gallery o m ≡ false)
      × ((is_platform m.authority && (same_collection o m && is_platform o.authority)) ≡ false)
      × ((same_collection o m && share_field o m) ≡ false)
Compatible-tests m o c = (
  ground (
    arith,
    eq_iff o.account_id m.account_id,
    eq_iff o.remote_gallery_id m.remote_gallery_id,
    c.gallery,
  ),
  ground (arith, eq_iff o.collection_id m.collection_id, c.mirror),
  ground (arith, eq_iff o.collection_id m.collection_id, c.field),
)

check_exclusive_complete :
    (m : Mapping) (os : List Mapping) → All (λ o. Compatible o m) os → check_exclusive m os ≡ ok tt
unfolding check_exclusive
check_exclusive_complete m [] h = ground arith
check_exclusive_complete m (o ∷ os) h =
    ground (arith, Compatible-tests m o h.0, check_exclusive_complete m os h.1)

-- `validateCollectionMapping` accepts exactly the mappings whose settings, selections and field
-- rules pass their guards and which, if enabled, are compatible with every enabled mapping of
-- another id.
pub validate_iff :
    (m : Mapping) (existing : List Mapping) (members : List String)
    → (validate m existing members ≡ ok tt) ↔ (
        (bad_settings m ≡ false)
        × (bad_selections m members ≡ false)
        × (bad_field_rules m ≡ false)
        × (m.enabled ≡ true → All (λ o. Compatible o m) (others m existing)))
unfolding validate
validate_iff m existing members = (
  λ h. (
    ground arith,
    ground arith,
    ground arith,
    λ on. check_exclusive-Compatible m (others m existing) (ground arith),
  ),
  λ (s, c, f, e). elim (Bool-cases m.enabled) [
    | inl on ↦ ground (arith, check_exclusive_complete m (others m existing) (e on))
    | inr off ↦ ground arith
  ],
)

-- Of the Works that pass the guard on selections each is selected once and is a member.
pub good_selections :
    (m : Mapping) (members : List String)
    → bad_selections m members ≡ false
    → Distinct (map (λ s. s.work_id) m.selections)
      × All (λ s. contains members s.work_id ≡ true) m.selections
unfolding bad_selections
good_selections m members h = (
  (no_repeats_iff (map (λ s. s.work_id) m.selections)).0 (ground arith),
  All-map m.selections (λ s e. ground arith)
      (any-eq-false (λ s. not (contains members s.work_id)) m.selections (ground arith)),
)
