-- ===== src/Viewing/Interleaving.antt =====
-- packages/core/src/shared-viewing.ts: several clients control a room at once. The store's
-- `compareAndSwap` is one step; between the read of a room and the swap anything may happen.
use ubeeq.Common.{
  ◌+◌, ◌≡◌, String, Bool, true, false, not, ◌||◌, Option, none, some, refl, ap, arith, ◌==◌, eq_iff,
  Number, nat, num_eq, Result, ok, err, refuse_if-ok, >>=_parts, leb, if◌then◌else◌, is_safe_from,
}
use ubeeq.Viewing.{
  Doubles, Room, Action, ViewingError, Answers, viewing_position, acted, admitted, control_room,
  control_admitted, clock, is_known, valid_id,
}
use ubeeq.Viewing.Playback.{Fits, position_within}
use ubeeq.Viewing.Playback.Actions.{Acts, acted-Acts}

-- What a control that is prepared has read and made of it.
pub record Controls (actor id : String) (r r' : Room) : Type 0 where
  pub acts : Acts r r'
  pub next : r'.revision ≡ r.revision + 1
  pub open_room : r.closed ≡ false
  pub host : r.host_id ≡ actor
  pub place : r.room_id ≡ id

admitted_parts :
    (actor id : String) (a : Answers) (stored : Option Room) (r : Room)
    → admitted actor id a stored ≡ ok r
    → (stored ≡ some r) × (r.room_id ≡ id) × (r.closed ≡ false)
unfolding admitted
admitted_parts actor id a none r h = cc (nothing _ h)
  where
    nothing :
        (b : Bool)
        → ◌≡◌ {A = Result ViewingError Room}
            (if b then err ViewingError.denied else err ViewingError.denied)
            (ok r)
        → true ≡ false
    nothing true e = cc
    nothing false e = cc
admitted_parts actor id a (some s) r h =
    let p = else_ok (not (valid_id actor) || not (valid_id id)) _ h in
    let q = else_ok (not (s.room_id == id)) _ p.1 in
    let t = else_ok s.closed _ q.1 in
    let c = >>=_parts (clock a.first_time) _ t.1 in
    let u = else_ok (leb s.expires_at c.0 || not a.can_view) _ c.2 in
    let same : s ≡ r = given u.1 in
    (ap (λ x. some x) same, rw (← same) ((eq_iff _ _).0 (flip q.0)), rw (← same) t.0)
  where
    else_ok :
        (b : Bool) (k : Result ViewingError Room)
        → (if b then err ViewingError.denied else k) ≡ ok r
        → (b ≡ false) × (k ≡ ok r)
    else_ok true k e = cc
    else_ok false k e = (refl, e)

    flip : {b : Bool} → not b ≡ false → b ≡ true
    flip e = ground arith

    given : {x : Room} → ◌≡◌ {A = Result ViewingError Room} (ok x) (ok r) → x ≡ r
    given e = cc

-- A control that is prepared is by the host of an open room, and makes the next revision of it.
pub control-Controls :
    (fl : Doubles) (actor id : String) (expected : Number) (action : Action) (a : Answers)
    (stored r' : Room)
    → Fits stored
    → control_room fl actor id expected action a (some stored) ≡ ok r'
    → Controls actor id stored r'
unfolding control_room
control-Controls fl actor id expected action a stored r' f h =
    let p =
      refuse_if-ok (not (is_safe_from 0 expected) || not (is_known action)) ViewingError.invalid _
        h in
    let q = >>=_parts (admitted actor id a (some stored)) _ p.1 in
    let g = admitted_parts actor id a (some stored) q.0 q.1 in
    let same : q.0 ≡ stored = cc g.0 in
    let c : control_admitted fl actor expected action a stored ≡ ok r' = rw same at q.2 in
    let t =
      refuse_if-ok (not (stored.host_id == actor) || not a.can_host) ViewingError.denied _ c in
    let u =
      refuse_if-ok (not (num_eq (nat stored.revision) expected)) ViewingError.conflict _ t.1 in
    let now = >>=_parts (clock a.second_time) _ u.1 in
    let v = refuse_if-ok (leb stored.expires_at now.0) ViewingError.denied _ now.2 in
    let w = >>=_parts (viewing_position fl stored now.0) _ v.1 in
    let x = >>=_parts (acted action (record stored { position = w.0 })) _ w.2 in
    let moved : Fits (record stored { position = w.0 }) = record {
      item = f.item;
      shown = f.shown;
      within = position_within fl stored now.0 w.0 f w.1;
      playable = f.playable;
    } in
    let acts = acted-Acts action (record stored { position = w.0 }) x.0 moved x.1 in
    let made : record (x.0) { updated_at = now.0; revision = stored.revision + 1 } ≡ r' =
      given x.2 in
    rw (← made) (record {
      acts = record {
        fits = record {
          item = acts.fits.item;
          shown = acts.fits.shown;
          within = acts.fits.within;
          playable = acts.fits.playable;
        };
        room = acts.room;
        host = acts.host;
        items = acts.items;
        expiry = acts.expiry;
      };
      next = refl;
      open_room = rw same at g.2;
      host = (eq_iff _ _).0 (first (stored.host_id == actor) a.can_host t.0);
      place = rw same at g.1;
    })
  where
    given : {x : Room} → ◌≡◌ {A = Result ViewingError Room} (ok x) (ok r') → x ≡ r'
    given e = cc

    first : (b c : Bool) → (not b || not c) ≡ false → b ≡ true
    first b c e = ground arith
