-- ===== src/Viewing/Playback/Creation.antt =====
-- packages/core/src/shared-viewing.ts: a room that is created is valid.
use ubeeq.Common.{
  ℕ, suc, ◌≤◌, ◌≡◌, String, Bool, false, not, ◌||◌, Option, none, some, List, [], ◌∷◌, refl, ap,
  arith, Number, length, ltb, Result, ok, refuse_if-ok, >>=_parts,
}
use ubeeq.Viewing.{
  Doubles, ItemInput, Item, Room, ViewingError, create_room, checked_items, added, checked_item,
  clock, new_room, bad_creation, seconds_of, valid_id, is_ttl,
}
use ubeeq.Viewing.Playback.{Fits, item_at-some}

one_more :
    (o : Option Item) (k : Result ViewingError (List Item)) (n : ℕ) (out : List Item)
    → ((ys : List Item) → k ≡ ok ys → length ys ≡ n)
    → added o k ≡ ok out
    → length out ≡ suc n
one_more none k n out rest h = cc
one_more (some y) k n out rest h =
    let p = >>=_parts k _ h in
    let same : y ∷ p.0 ≡ out = given p.2 in rw (← same) (ap (λ m. suc m) (rest p.0 p.1))
  where
    given : {a : List Item} → ◌≡◌ {A = Result ViewingError (List Item)} (ok a) (ok out) → a ≡ out
    given q = cc

some_item :
    (fl : Doubles) (xs : List ItemInput) (out : List Item)
    → checked_items fl xs ≡ ok out
    → length out ≡ length xs
some_item fl [] out h = let same : ◌≡◌ {A = List Item} [] out = cc h in rw (← same) refl
some_item fl (x ∷ xs) out h =
    one_more (checked_item fl x) (checked_items fl xs) (length xs) out
      (λ ys e. some_item fl xs ys e) h

-- A room that is created shows its first item, paused at its beginning.
pub create_room-Fits :
    (fl : Doubles) (actor id : String) (xs : List ItemInput) (ttl : Number) (can_host : Bool)
    (time : Number) (r : Room)
    → create_room fl actor id xs ttl can_host time ≡ ok r
    → Fits r × (r.room_id ≡ id) × (r.host_id ≡ actor) × (r.revision ≡ 0)
unfolding create_room
create_room-Fits fl actor id xs ttl can_host time r h =
    let p = refuse_if-ok (bad_creation actor id xs ttl) ViewingError.invalid _ h in
    let items = >>=_parts (checked_items fl xs) _ p.1 in
    let q = refuse_if-ok (not can_host) ViewingError.denied _ items.2 in
    let now = >>=_parts (clock time) _ q.1 in
    let made : new_room actor id items.0 now.0 (seconds_of ttl) ≡ r = given now.2 in
    let some_given =
      third (not (valid_id actor)) (not (valid_id id)) (length xs) (ltb 100 (length xs))
        (not (is_ttl ttl)) p.0 in
    let x = item_at-some items.0 0 (omega (arith, some_item fl xs items.0 items.1, some_given)) in
    rw (← made)
      (record { item = x.0; shown = x.1; within = omega arith; playable = refl }, refl, refl, refl)
  where
    given : {a : Room} → ◌≡◌ {A = Result ViewingError Room} (ok a) (ok r) → a ≡ r
    given e = cc

    third : (a b : Bool) (n : ℕ) (d e : Bool) → (a || b || ltb n 1 || d || e) ≡ false → 1 ≤ n
    third a b n d e h = ground arith
