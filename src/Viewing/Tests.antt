-- ===== src/Viewing/Tests.antt =====
-- Runs of the code of packages/core/src/shared-viewing.ts at given inputs.
use Prim.Native.Nat.{◌%◌}
use ubeeq.Common.{
  ℕ, ◌*◌, nat_eq, ◌≡◌, ◌≤◌, true, false, some, none, [], ◌∷◌, nat, refl, arith, ok, err, ◌+◌,
}
use ubeeq.Viewing.Rounding.{Rounds, distance}
use ubeeq.Viewing.{
  Doubles, ItemInput, ItemKind, Room, Action, ViewingError, Answers, create_room, control_room,
  viewing_position, admitted,
}
use ubeeq.Viewing.Playback.{Fits, position_progress, playback_ends}
use ubeeq.Viewing.Playback.Actions.{Acts}
use ubeeq.Viewing.Playback.Creation.{create_room-Fits}
use ubeeq.Viewing.Interleaving.{control-Controls}
use ubeeq.Viewing.Sharing.{Draft, Session, Reach, start, prepare, swap, no_lost_update}

-- Of the numbers only the even ones are doubles here, and 2000 of them make a second; an odd sum is
-- rounded up.
abbrev even : Doubles
even = record {
  is_double = λ n. nat_eq (n % 2) 0;
  second = 2000;
  sum = λ a b. a + b + (a + b) % 2;
  thousandth = λ ms. 2 * ms;
}

even-Rounds : Rounds even
even-Rounds = record {
  second_positive = omega arith;
  sum_is_double = λ a b. ground arith;
  sum_is_nearest = λ a b d e. nearest a b d e;
  thousandth_is_double = λ ms. ground arith;
  thousandth_is_nearest = λ ms d e. omega arith;
}
  where
    nearest :
        (a b d : ℕ)
        → nat_eq (d % 2) 0 ≡ true
        → distance (a + b + (a + b) % 2) (a + b) ≤ distance d (a + b)
    nearest a b d e = ground arith

sum_rounds_test : even.sum 3 4 ≡ 8
sum_rounds_test = refl

abbrev song : ItemInput
song = record { work_id = "song"; kind = ItemKind.audio; duration = some (nat 10000) }

abbrev picture : ItemInput
picture = record { work_id = "picture"; kind = ItemKind.image; duration = none }

-- A room that was created at time 1000, for an hour.
abbrev room : Room
room = record {
  room_id = "room";
  host_id = "ann";
  revision = 0;
  items =
      record { work_id = "song"; kind = ItemKind.audio; duration = 10000 }
      ∷ record { work_id = "picture"; kind = ItemKind.image; duration = 0 }
      ∷ [];
  index = 0;
  playing = false;
  position = 0;
  updated_at = 1000;
  expires_at = 3601000;
  closed = false;
}

abbrev answers : Answers
answers = record { first_time = nat 2000; can_view = true; can_host = true; second_time = nat 2000 }

abbrev played : Room
played = record room { playing = true; updated_at = 2000; revision = 1 }

abbrev sought : Room
sought = record room { position = 6000; updated_at = 2000; revision = 1 }

create_room_test :
    create_room even "ann" "room" (song ∷ picture ∷ []) (nat 3600) true (nat 1000) ≡ ok room
unfolding create_room
create_room_test = refl

control_room_test :
    control_room even "ann" "room" (nat 0) Action.play answers (some room) ≡ ok played
unfolding control_room admitted viewing_position
control_room_test = refl

stale_control_test :
    control_room even "ann" "room" (nat 0) Action.pause answers (some played)
    ≡ err ViewingError.conflict
unfolding control_room admitted viewing_position
stale_control_test = refl

seek_test :
    control_room even "ann" "room" (nat 0) (Action.seek (nat 6000)) answers (some room) ≡ ok sought
unfolding control_room admitted viewing_position
seek_test = refl

seek_past_end_test :
    control_room even "ann" "room" (nat 0) (Action.seek (nat 10001)) answers (some room)
    ≡ err ViewingError.invalid
unfolding control_room admitted viewing_position
seek_past_end_test = refl

room-Fits : Fits room
room-Fits =
    (create_room-Fits even "ann" "room" (song ∷ picture ∷ []) (nat 3600) true (nat 1000) room
      create_room_test).0

played-Fits : Fits played
played-Fits =
    (control-Controls even "ann" "room" (nat 0) Action.play answers room played room-Fits
      control_room_test).acts.fits

at_two : viewing_position even played 4000 ≡ ok 4000
unfolding viewing_position
at_two = refl

at_end : viewing_position even played 9000 ≡ ok 10000
unfolding viewing_position
at_end = refl

position_progress_example : (0 ≤ 4000) × (4000 ≤ 10000) × (10000 ≤ 10000)
position_progress_example =
    position_progress even played 4000 9000 4000 10000 even-Rounds refl played-Fits (omega arith)
      at_two at_end

playback_ends_example : viewing_position even played 7000 ≡ ok 10000
playback_ends_example =
    playback_ends even played 7000 10000 even-Rounds played-Fits refl refl refl refl (omega arith)
      (omega arith) (omega arith)

abbrev play_draft : Draft
play_draft = record { base = room; next = played }

abbrev seek_draft : Draft
seek_draft = record { base = room; next = sought }

abbrev both_pending : Session
both_pending = record { stored = room; pending = play_draft ∷ seek_draft ∷ [] }

both_reached : Reach even "room" room both_pending
both_reached =
    prepare (record { stored = room; pending = seek_draft ∷ [] }) "ann" (nat 0) Action.play answers
      played
      (prepare (record { stored = room; pending = [] }) "ann" (nat 0) (Action.seek (nat 6000))
        answers sought start seek_test)
      control_room_test

one_swapped : Reach even "room" room (record { stored = played; pending = seek_draft ∷ [] })
one_swapped = swap both_pending [] play_draft (seek_draft ∷ []) both_reached refl

-- The second swap is refused.
both_swapped : Reach even "room" room (record { stored = played; pending = [] })
both_swapped =
    swap (record { stored = played; pending = seek_draft ∷ [] }) [] seek_draft [] one_swapped refl

no_lost_update_example : (room ≡ room) × (1 ≡ 0 + 1) × Acts room sought
no_lost_update_example =
    no_lost_update even "room" room both_pending (play_draft ∷ []) seek_draft [] room-Fits
      both_reached refl refl
