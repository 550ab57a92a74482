-- ===== src/Viewing/Sharing.antt =====
-- packages/core/src/shared-viewing.ts: one room that several clients control at once. A control reads the
-- room and prepares the next one; its swap is a later step, and others may come between them.
use ubeeq.Common.{
  ℕ, ◌+◌, ◌≤◌, ◌≡◌, ◌++◌, String, Bool, true, some, List, [], ◌∷◌, refl, ap, sym, ◌∙◌, arith, inl,
  inr, Bool-cases, Number, ok, All, All-map, nat_eq, if◌then◌else◌,
}
use ubeeq.Viewing.{Doubles, Room, Action, Answers, control_room}
use ubeeq.Viewing.Playback.{Fits}
use ubeeq.Viewing.Playback.Actions.{Acts}
use ubeeq.Viewing.Interleaving.{control-Controls}

-- A control between its read and its swap: the room that it read and the one it makes.
pub record Draft : Type 0 where
  pub base : Room
  pub next : Room

-- The room in the store, and the controls that are under way.
pub record Session : Type 0 where
  pub stored : Room
  pub pending : List Draft

-- What `compareAndSwap` promises, with the revision that the control read.
abbrev pub is_unchanged : Room → Draft → Bool
is_unchanged r d = nat_eq r.revision d.base.revision

abbrev pub compare_and_swap : Room → Draft → Room
compare_and_swap r d = if is_unchanged r d then d.next else r

-- The sessions of a room that was stored as `first`.
pub data Reach (fl : Doubles) (id : String) (first : Room) : Session → Type 0 where
  start : Reach fl id first (record { stored = first; pending = [] })
  prepare :
      (s : Session) (actor : String) (expected : Number) (action : Action) (a : Answers)
      (next : Room)
      → Reach fl id first s
      → control_room fl actor id expected action a (some s.stored) ≡ ok next
      → Reach fl id first (record {
        stored = s.stored;
        pending = record { base = s.stored; next = next } ∷ s.pending;
      })
  swap :
      (s : Session) (before : List Draft) (d : Draft) (after : List Draft)
      → Reach fl id first s
      → s.pending ≡ before ++ (d ∷ after)
      → Reach fl id first
          (record { stored = compare_and_swap s.stored d; pending = before ++ after })

-- What holds of a control that is under way.
pub record Follows (r : Room) (d : Draft) : Type 0 where
  pub acts : Acts d.base d.next
  pub succeeds : d.next.revision ≡ d.base.revision + 1
  pub behind : d.base.revision ≤ r.revision
  pub same : d.base.revision ≡ r.revision → d.base ≡ r

pub record Sound (first : Room) (s : Session) : Type 0 where
  pub fits : Fits s.stored
  pub host : s.stored.host_id ≡ first.host_id
  pub items : s.stored.items ≡ first.items
  pub expiry : s.stored.expires_at ≡ first.expires_at
  pub later : first.revision ≤ s.stored.revision
  pub follow : All (Follows s.stored) s.pending

All-parts :
    (P : Draft → Type 0) (xs : List Draft) (d : Draft) (ys : List Draft)
    → All P (xs ++ (d ∷ ys))
    → P d × All P (xs ++ ys)
All-parts P [] d ys h = h
All-parts P (x ∷ xs) d ys h = let rest = All-parts P xs d ys h.1 in (rest.0, (h.0, rest.1))

-- After a swap that is made, every other control that is under way has read an older room.
outdated :
    (r : Room) (d e : Draft)
    → r.revision ≡ d.base.revision
    → Follows r d
    → Follows r e
    → Follows d.next e
outdated r d e h f g = record {
  acts = g.acts;
  succeeds = g.succeeds;
  behind = omega (arith, h, f.succeeds, g.behind);
  same = λ k.
      absurd
        (past e.base.revision r.revision d.base.revision d.next.revision h f.succeeds g.behind k);
}
  where
    past : (a b c n : ℕ) → b ≡ c → n ≡ c + 1 → a ≤ b → ¬ (a ≡ n)
    past a b c n h f g k = omega arith

nat_eq_sound : (a b : ℕ) → nat_eq a b ≡ true → a ≡ b
nat_eq_sound a b h = ground arith

swap-Sound :
    (first : Room) (s : Session) (before : List Draft) (d : Draft) (after : List Draft)
    → Sound first s
    → s.pending ≡ before ++ (d ∷ after)
    → Sound first (record { stored = compare_and_swap s.stored d; pending = before ++ after })
swap-Sound first s before d after h e =
    let parts = All-parts (Follows s.stored) before d after (rw e at h.follow) in
    elim (Bool-cases (is_unchanged s.stored d)) [
      | inr stale ↦ rw stale (record {
        fits = h.fits;
        host = h.host;
        items = h.items;
        expiry = h.expiry;
        later = h.later;
        follow = parts.1;
      })
      | inl current ↦
          let eq = nat_eq_sound s.stored.revision d.base.revision current in
          let base : d.base ≡ s.stored = parts.0.same (sym eq) in
          rw current (record {
            fits = parts.0.acts.fits;
            host = parts.0.acts.host ∙ ap (λ (r : Room). r.host_id) base ∙ h.host;
            items = parts.0.acts.items ∙ ap (λ (r : Room). r.items) base ∙ h.items;
            expiry = parts.0.acts.expiry ∙ ap (λ (r : Room). r.expires_at) base ∙ h.expiry;
            later = omega (arith, eq, parts.0.succeeds, h.later);
            follow = All-map (before ++ after) (λ x f. outdated s.stored d x eq parts.0 f) parts.1;
          })
    ]

-- In every session that is reached the stored room is valid, has the host, items and expiry that the
-- room had at first and no smaller revision, and what is under way succeeds a room that was read.
pub reach-Sound :
    (fl : Doubles) (id : String) (first : Room) (s : Session)
    → Fits first
    → Reach fl id first s
    → Sound first s
reach-Sound fl id first s f start = record {
  fits = f;
  host = refl;
  items = refl;
  expiry = refl;
  later = omega arith;
  follow = tt;
}
reach-Sound fl id first s f (prepare t actor expected action a next past made) =
    let h = reach-Sound fl id first t f past in
    let c = control-Controls fl actor id expected action a t.stored next h.fits made in
    record {
      fits = h.fits;
      host = h.host;
      items = h.items;
      expiry = h.expiry;
      later = h.later;
      follow = (
        record { acts = c.acts; succeeds = c.next; behind = omega arith; same = λ e. refl },
        h.follow,
      );
    }
reach-Sound fl id first s f (swap t before d after past e) =
    swap-Sound first t before d after (reach-Sound fl id first t f past) e

-- However the controls of a room interleave, one whose swap is made has read the very room that is
-- stored then, so it takes the place of no change it did not see, and makes the next revision of it.
pub no_lost_update :
    (fl : Doubles) (id : String) (first : Room) (s : Session) (before : List Draft) (d : Draft)
    (after : List Draft)
    → Fits first
    → Reach fl id first s
    → s.pending ≡ before ++ (d ∷ after)
    → is_unchanged s.stored d ≡ true
    → (d.base ≡ s.stored)
      × ((compare_and_swap s.stored d).revision ≡ s.stored.revision + 1)
      × Acts s.stored (compare_and_swap s.stored d)
no_lost_update fl id first s before d after f past e current =
    let parts =
      All-parts (Follows s.stored) before d after
        (rw e at (reach-Sound fl id first s f past).follow) in
    let base : d.base ≡ s.stored =
      parts.0.same (sym (nat_eq_sound s.stored.revision d.base.revision current)) in
    rw current
      (base, parts.0.succeeds ∙ ap (λ (r : Room). r.revision + 1) base, rw base at parts.0.acts)
