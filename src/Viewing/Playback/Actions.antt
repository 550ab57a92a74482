-- ===== src/Viewing/Playback/Actions.antt =====
-- packages/core/src/shared-viewing.ts: what the actions on a room keep.
use ubeeq.Common.{
  ℕ, ◌≤◌, ◌<◌, ◌≡◌, Bool, true, false, ◌||◌, refl, ap, sym, ◌∙◌, arith, Number, nat, length, ltb,
  leb, ok, err, if◌then◌else◌,
}
use ubeeq.Viewing.Rounding.{}
use ubeeq.Viewing.{
  Room, Action, play, pause, close, seek, select, ViewingError, item_at, image_at, duration_at,
  acted,
}
use ubeeq.Viewing.Playback.{Fits, item_at-some}

-- Every action that is allowed keeps a room valid, and changes only what is shown and how.
pub record Acts (r r' : Room) : Type 0 where
  pub fits : Fits r'
  pub room : r'.room_id ≡ r.room_id
  pub host : r'.host_id ≡ r.host_id
  pub items : r'.items ≡ r.items
  pub expiry : r'.expires_at ≡ r.expires_at

allowed :
    (b : Bool) (r r' : Room)
    → (if b then err ViewingError.invalid else ok r) ≡ ok r'
    → (b ≡ false) × (r ≡ r')
allowed true r r' h = cc
allowed false r r' h = (refl, cc)

pub acted-Acts : (action : Action) (r r' : Room) → Fits r → acted action r ≡ ok r' → Acts r r'
acted-Acts play r r' f h =
    let p = allowed (image_at (item_at r.items r.index)) (record r { playing = true }) r' h in
    rw (← p.1) (record {
      fits = record {
        item = f.item;
        shown = f.shown;
        within = f.within;
        playable = sym (ap image_at f.shown) ∙ p.0;
      };
      room = refl;
      host = refl;
      items = refl;
      expiry = refl;
    })
acted-Acts pause r r' f h =
    let same : record r { playing = false } ≡ r' = cc h in
    rw (← same) (record {
      fits = record { item = f.item; shown = f.shown; within = f.within; playable = refl };
      room = refl;
      host = refl;
      items = refl;
      expiry = refl;
    })
acted-Acts close r r' f h =
    let same : record r { playing = false; closed = true } ≡ r' = cc h in
    rw (← same) (record {
      fits = record { item = f.item; shown = f.shown; within = f.within; playable = refl };
      room = refl;
      host = refl;
      items = refl;
      expiry = refl;
    })
acted-Acts Action.other r r' f h = cc
acted-Acts (seek (nat n)) r r' f h =
    let p =
      allowed (image_at (item_at r.items r.index) || ltb (duration_at (item_at r.items r.index)) n)
        (record r { position = n }) r' h in
    let within : n ≤ duration_at (item_at r.items r.index) =
      at_most (image_at (item_at r.items r.index)) (duration_at (item_at r.items r.index)) n p.0 in
    rw (← p.1) (record {
      fits = record {
        item = f.item;
        shown = f.shown;
        within = rw f.shown at within;
        playable = f.playable;
      };
      room = refl;
      host = refl;
      items = refl;
      expiry = refl;
    })
  where
    at_most : (b : Bool) (d n : ℕ) → (b || ltb d n) ≡ false → n ≤ d
    at_most b d n h = ground arith
acted-Acts (seek (Number.negsuc n)) r r' f h = cc
acted-Acts (seek Number.infinity) r r' f h = cc
acted-Acts (seek Number.neg_infinity) r r' f h = cc
acted-Acts (seek Number.nan) r r' f h = cc
acted-Acts (select (nat n)) r r' f h =
    let p =
      allowed (leb (length r.items) n) (record r { index = n; position = 0; playing = false }) r'
        h in
    let x = item_at-some r.items n (below (length r.items) n p.0) in
    rw (← p.1) (record {
      fits = record { item = x.0; shown = x.1; within = omega arith; playable = refl };
      room = refl;
      host = refl;
      items = refl;
      expiry = refl;
    })
  where
    below : (d n : ℕ) → leb d n ≡ false → n < d
    below d n h = ground arith
acted-Acts (select (Number.negsuc n)) r r' f h = cc
acted-Acts (select Number.infinity) r r' f h = cc
acted-Acts (select Number.neg_infinity) r r' f h = cc
acted-Acts (select Number.nan) r r' f h = cc
