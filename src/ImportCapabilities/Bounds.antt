-- ===== src/ImportCapabilities/Bounds.antt =====
-- What a scope and a preview that are accepted guarantee.
use ubeeq.Common.{
  ℕ, ◌+◌, ◌≤◌, ◌<◌, String, ◌≡◌, ◌≢◌, refl, true, false, not, some, List, [], any-eq-false, All,
  All-map, contains, is_nil, ap, length, no_repeats_iff, Distinct, eq_iff, Number, nat, Dates, ok,
  arith, Option-cases, inl, inr,
}
use ubeeq.ImportCapabilities.{
  Scope, Binding, Preview, Expected, max_range, bounded, valid_ids, validate_scope, other_binding,
  bad_selection, expired, require_preview,
}

valid_ids_lem :
    (values : List String) (maximum : ℕ)
    → valid_ids values maximum ≡ true
    → (0 < length values) × (length values ≤ maximum) × Distinct values
unfolding valid_ids
valid_ids_lem values maximum h =
    (ground arith, ground arith, (no_repeats_iff values).0 (ground arith))

-- An accepted scope covers a range of dates that is not empty and at most 366 days long, or 36600
-- with the newest-first cursor; it names 1 to 25 sources and 1 to 100 authors, each once.
pub validate_scope_bounds :
    (dates : Dates) (s : Scope)
    → validate_scope dates s ≡ ok tt
    → (from : ℕ) × (to : ℕ) × (dates.parse s.from ≡ some from)
      × (dates.parse s.to ≡ some to)
      × (from < to)
      × (to ≤ from + max_range s.pagination_order)
      × (0 < length s.source_ids)
      × (length s.source_ids ≤ 25)
      × (0 < length s.author_ids)
      × (length s.author_ids ≤ 100)
      × Distinct s.source_ids
      × Distinct s.author_ids
unfolding validate_scope
validate_scope_bounds dates s h = elim (Option-cases (dates.parse s.from)) [
  | inl e ↦ absurd (ground arith)
  | inr (from, e) ↦ elim (Option-cases (dates.parse s.to)) [
    | inl e' ↦ absurd (ground arith)
    | inr (to, e') ↦
        let sources = valid_ids_lem s.source_ids 25 (ground arith) in
        let authors = valid_ids_lem s.author_ids 100 (ground arith) in
        (
          from,
          to,
          e,
          e',
          ground arith,
          ground arith,
          sources.0,
          sources.1,
          authors.0,
          authors.1,
          sources.2,
          authors.2,
        )
  ]
]

scope_candidates :
    (dates : Dates) (s : Scope)
    → validate_scope dates s ≡ ok tt
    → (n : ℕ) × (s.limits.candidates ≡ nat n) × (n ≤ 1000)
unfolding validate_scope
scope_candidates dates s h = candidates s.limits.candidates (ground arith)
  where
    candidates : (c : Number) → bounded c 1000 ≡ true → (n : ℕ) × (c ≡ nat n) × (n ≤ 1000)
    candidates (nat n) e = (n, refl, ground arith)
    candidates (Number.negsuc n) e = cc
    candidates Number.infinity e = cc
    candidates Number.neg_infinity e = cc
    candidates Number.nan e = cc

same_binding : (a b : Binding) → other_binding a b ≡ false → a ≡ b
unfolding other_binding
same_binding a b h = ground (
  arith,
  eq_iff a.tenant_id b.tenant_id,
  eq_iff a.owner_id b.owner_id,
  eq_iff a.requested_by_user_id b.requested_by_user_id,
  eq_iff a.connection_id b.connection_id,
  eq_iff a.authorization_revision b.authorization_revision,
)

selection_lem :
    (p : Preview) (keys : List String) (n : ℕ)
    → bad_selection p keys ≡ false
    → p.scope.limits.candidates ≡ nat n
    → (length keys ≤ n)
      × Distinct keys
      × All (λ key. contains p.candidate_source_keys key ≡ true) keys
      × (keys ≢ [])
unfolding bad_selection
selection_lem p keys n h c = (
  ground arith,
  (no_repeats_iff keys).0 (ground arith),
  All-map keys (λ key e. ground arith)
      (any-eq-false (λ key. not (contains p.candidate_source_keys key)) keys (ground arith)),
  λ empty. cc (ap (λ (xs : List String). is_nil xs) empty, not_nil),
)
  where
    not_nil : is_nil keys ≡ false
    not_nil = ground arith

-- A preview that is accepted was made for the same tenant, owner, user, connection and authorization
-- revision, has not expired, and its scope is valid; the selected sources are distinct candidates of
-- the preview, at least one and at most 1000.
pub require_preview_sound :
    (dates : Dates) (p : Preview) (e : Expected)
    → require_preview dates p e ≡ ok tt
    → (validate_scope dates p.scope ≡ ok tt)
      × (p.binding ≡ e.binding)
      × (expired (dates.parse p.expires_at) e.now ≡ false)
      × (e.selected_source_keys ≢ [])
      × (length e.selected_source_keys ≤ 1000)
      × Distinct e.selected_source_keys
      × All (λ key. contains p.candidate_source_keys key ≡ true) e.selected_source_keys
unfolding require_preview
require_preview_sound dates p e h =
    let valid : validate_scope dates p.scope ≡ ok tt = ground arith in
    let (n, at, below) = scope_candidates dates p.scope valid in
    let keys = selection_lem p e.selected_source_keys n (ground arith) at in
    (
      valid,
      same_binding p.binding e.binding (ground arith),
      ground arith,
      keys.3,
      omega (arith, keys.0),
      keys.1,
      keys.2,
    )
