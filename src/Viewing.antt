-- ===== src/Viewing.antt =====
-- packages/core/src/shared-viewing.ts: rooms in which several people view the same items. A time is
-- in milliseconds. A position or duration is a double of seconds, and so a number of times the smallest
-- double; a `Number` for one counts the same. What the ports answer in a call is an argument of it.
pub mod Rounding
pub mod Playback
pub mod Interleaving
pub mod Sharing
mod Tests
use Prim.Native.Nat.{min}
use ubeeq.Common.{
  ℕ, zero, suc, ◌+◌, ◌-◌, ◌*◌, String, Bool, true, false, not, ◌&&◌, ◌||◌, Option, none, some, List,
  [], ◌∷◌, ◌==◌, Number, nat, num_eq, is_safe_from, is_blank, utf16_length, length, ltb, leb,
  nat_eq, Result, ok, err, ◌>>=◌, ◌>>◌, refuse_if, if◌then◌else◌,
}

-- The arithmetic of doubles that are not negative: which multiples of the smallest double are doubles,
-- what 1 is, `a + b`, and `ms / 1000`. Both operations round.
pub record Doubles : Type 0 where
  pub is_double : ℕ → Bool
  pub second : ℕ
  pub sum : ℕ → ℕ → ℕ
  pub thousandth : ℕ → ℕ

pub data ItemKind : Type 0 where
  image audio video other : ItemKind

-- `ViewingItem`, as a caller gives it.
pub record ItemInput : Type 0 where
  pub work_id : String
  pub kind : ItemKind
  pub duration : Option Number

-- `ViewingItem`, in a room: an image has no duration.
pub record Item : Type 0 where
  pub work_id : String
  pub kind : ItemKind
  pub duration : ℕ

-- `ViewingRoom`
pub record Room : Type 0 where
  pub room_id : String
  pub host_id : String
  pub revision : ℕ
  pub items : List Item
  pub index : ℕ
  pub playing : Bool
  pub position : ℕ
  pub updated_at : ℕ
  pub expires_at : ℕ
  pub closed : Bool

-- `ViewingAction`
pub data Action : Type 0 where
  play pause close other : Action
  seek : Number → Action
  select : Number → Action

-- The `code` of a `ViewingError`; `fault` is the `TypeError` for an index that is no place of the items.
pub data ViewingError : Type 0 where
  denied invalid conflict fault : ViewingError

-- `validId`
abbrev pub valid_id : String → Bool
valid_id s = not (is_blank s) && leb (utf16_length s) 256

abbrev pub is_image : ItemKind → Bool
is_image ItemKind.image = true
is_image _ = false

abbrev pub item_at : List Item → ℕ → Option Item
item_at [] i = none
item_at (x ∷ xs) zero = some x
item_at (x ∷ xs) (suc i) = item_at xs i

abbrev pub elapsed : Doubles → Room → ℕ → ℕ
elapsed fl r now =
    if r.playing && not r.closed then fl.thousandth (min now r.expires_at - r.updated_at) else 0

abbrev pub position_in : Doubles → Room → ℕ → Option Item → Result ViewingError ℕ
position_in fl r now none = err ViewingError.fault
position_in fl r now (some x) = ok (min x.duration (fl.sum r.position (elapsed fl r now)))

-- `viewingPosition`, at a time that is finite.
unfoldable pub viewing_position : Doubles → Room → ℕ → Result ViewingError ℕ
viewing_position fl r now = position_in fl r now (item_at r.items r.index)

-- `clock`
abbrev pub clock : Number → Result ViewingError ℕ
clock (nat n) = if is_safe_from 0 (nat n) then ok n else err ViewingError.invalid
clock _ = err ViewingError.invalid

abbrev timed : Doubles → String → ItemKind → Option Number → Option Item
timed fl id kind (some (nat n)) =
    if ltb 0 n && leb n (86400 * fl.second)
    then some (record { work_id = id; kind = kind; duration = n })
    else none
timed fl id kind _ = none

abbrev checked_kind : Doubles → String → ItemKind → Option Number → Option Item
checked_kind fl id ItemKind.image none =
    some (record { work_id = id; kind = ItemKind.image; duration = 0 })
checked_kind fl id ItemKind.image (some n) = none
checked_kind fl id ItemKind.other n = none
checked_kind fl id kind n = timed fl id kind n

-- An item that `create` accepts.
abbrev pub checked_item : Doubles → ItemInput → Option Item
checked_item fl x = if valid_id x.work_id then checked_kind fl x.work_id x.kind x.duration else none

abbrev pub added : Option Item → Result ViewingError (List Item) → Result ViewingError (List Item)
added none rest = err ViewingError.invalid
added (some x) rest = rest >>= λ xs. ok (x ∷ xs)

-- The loop over the items.
abbrev pub checked_items : Doubles → List ItemInput → Result ViewingError (List Item)
checked_items fl [] = ok []
checked_items fl (x ∷ xs) = added (checked_item fl x) (checked_items fl xs)

abbrev pub is_ttl : Number → Bool
is_ttl (nat n) = leb 60 n && leb n 86400
is_ttl _ = false

abbrev pub seconds_of : Number → ℕ
seconds_of (nat n) = n
seconds_of _ = 0

-- Whether the input of `create` is refused before its items; `ttl` is in whole seconds.
abbrev pub bad_creation : String → String → List ItemInput → Number → Bool
bad_creation actor room xs ttl =
    not (valid_id actor)
    || not (valid_id room)
    || ltb (length xs) 1
    || ltb 100 (length xs)
    || not (is_ttl ttl)

abbrev pub new_room : String → String → List Item → ℕ → ℕ → Room
new_room actor room items now ttl = record {
  room_id = room;
  host_id = actor;
  revision = 0;
  items = items;
  index = 0;
  playing = false;
  position = 0;
  updated_at = now;
  expires_at = now + ttl * 1000;
  closed = false;
}

-- `create`, up to the call of the store, with the answers of `canHost` and the clock.
unfoldable pub create_room :
    Doubles → String → String → List ItemInput → Number → Bool → Number → Result ViewingError Room
create_room fl actor room xs ttl can_host time = do
  refuse_if (bad_creation actor room xs ttl) ViewingError.invalid
  items ← checked_items fl xs
  refuse_if (not can_host) ViewingError.denied
  now ← clock time
  ok (new_room actor room items now (seconds_of ttl))

-- What the ports answer during a call: the clock at each of its readings, and the access.
pub record Answers : Type 0 where
  pub first_time : Number
  pub can_view : Bool
  pub can_host : Bool
  pub second_time : Number

abbrev pub admitted_room : String → Answers → Option Room → Result ViewingError Room
admitted_room id a none = err ViewingError.denied
admitted_room id a (some r) =
    if not (r.room_id == id)
    then err ViewingError.denied
    else if r.closed
    then err ViewingError.denied
    else clock a.first_time >>= λ now.
        if leb r.expires_at now || not a.can_view then err ViewingError.denied else ok r

-- `admitted`, for the room that the store gives.
unfoldable pub admitted : String → String → Answers → Option Room → Result ViewingError Room
admitted actor id a stored =
    if not (valid_id actor) || not (valid_id id)
    then err ViewingError.denied
    else admitted_room id a stored

-- What `read` returns.
pub record Reading : Type 0 where
  pub room : Room
  pub now : ℕ
  pub position : ℕ

-- `read`
unfoldable pub read_room :
    Doubles → String → String → Answers → Option Room → Result ViewingError Reading
read_room fl actor id a stored = do
  r ← admitted actor id a stored
  now ← clock a.second_time
  refuse_if (leb r.expires_at now) ViewingError.denied
  position ← viewing_position fl r now
  ok (record { room = r; now = now; position = position })

abbrev pub is_known : Action → Bool
is_known Action.other = false
is_known _ = true

abbrev pub image_at : Option Item → Bool
image_at none = false
image_at (some x) = is_image x.kind

abbrev pub duration_at : Option Item → ℕ
duration_at none = 0
duration_at (some x) = x.duration

-- The change of a room whose position is that of the time.
abbrev pub acted : Action → Room → Result ViewingError Room
acted Action.play r =
    if image_at (item_at r.items r.index)
    then err ViewingError.invalid
    else ok (record r { playing = true })
acted Action.pause r = ok (record r { playing = false })
acted Action.close r = ok (record r { playing = false; closed = true })
acted Action.other r = err ViewingError.invalid
acted (Action.seek (nat n)) r =
    if image_at (item_at r.items r.index) || ltb (duration_at (item_at r.items r.index)) n
    then err ViewingError.invalid
    else ok (record r { position = n })
acted (Action.seek _) r = err ViewingError.invalid
acted (Action.select (nat n)) r =
    if leb (length r.items) n
    then err ViewingError.invalid
    else ok (record r { index = n; position = 0; playing = false })
acted (Action.select _) r = err ViewingError.invalid

-- The part of `control` for a room that is admitted and a time.
abbrev pub control_at : Doubles → Action → Room → ℕ → Result ViewingError Room
control_at fl action r now = viewing_position fl r now >>= λ position.
    acted action (record r { position = position }) >>= λ acting.
    ok (record acting { updated_at = now; revision = r.revision + 1 })

abbrev pub control_admitted :
    Doubles → String → Number → Action → Answers → Room → Result ViewingError Room
control_admitted fl actor expected action a r =
    refuse_if (not (r.host_id == actor) || not a.can_host) ViewingError.denied
    >> (refuse_if (not (num_eq (nat r.revision) expected)) ViewingError.conflict
        >> (clock a.second_time >>= λ now.
            refuse_if (leb r.expires_at now) ViewingError.denied >> control_at fl action r now))

-- `control`, up to the call of `compareAndSwap`, for the room that the store gave.
unfoldable pub control_room :
    Doubles → String → String → Number → Action → Answers → Option Room → Result ViewingError Room
control_room fl actor id expected action a stored = do
  refuse_if (not (is_safe_from 0 expected) || not (is_known action)) ViewingError.invalid
  r ← admitted actor id a stored
  control_admitted fl actor expected action a r
