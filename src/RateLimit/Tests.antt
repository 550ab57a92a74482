-- ===== src/RateLimit/Tests.antt =====
-- Runs of the code of packages/auth/src/local-rate-limit.ts at given inputs.
use ubeeq.Common.{◌≤◌, ◌≡◌, true, false, [], ◌∷◌, Number, nat, refl, arith, ok, err, length, select}
use ubeeq.RateLimit.{LimitError, Attempts, check, is_recent}
use ubeeq.RateLimit.Window.Runs.{
  Reach, start, admit, refuse, check_other, window_bound, refused_full,
}

abbrev one_attempt : Attempts
one_attempt = ("ann", 100 ∷ []) ∷ []

abbrev other_attempt : Attempts
other_attempt = ("ann", 100 ∷ []) ∷ ("bob", 110 ∷ []) ∷ []

abbrev refused_attempt : Attempts
refused_attempt = ("ann", 100 ∷ []) ∷ ("bob", 110 ∷ []) ∷ ("ann", 100 ∷ []) ∷ []

admit_test : check "ann" (nat 50) (nat 1) (nat 100) [] ≡ ok (true, one_attempt)
unfolding check
admit_test = refl

other_test : check "bob" (nat 20) (nat 3) (nat 110) one_attempt ≡ ok (true, other_attempt)
unfolding check
other_test = refl

refuse_test : check "ann" (nat 50) (nat 1) (nat 149) other_attempt ≡ ok (false, refused_attempt)
unfolding check
refuse_test = refl

-- The window has passed.
admit_again_test :
    check "ann" (nat 50) (nat 1) (nat 150) other_attempt
    ≡ ok (true, ("ann", 100 ∷ []) ∷ ("bob", 110 ∷ []) ∷ ("ann", 150 ∷ []) ∷ [])
unfolding check
admit_again_test = refl

infinite_window_test :
    check "ann" Number.infinity (nat 1) (nat 100) [] ≡ err LimitError.configuration
unfolding check
infinite_window_test = refl

bad_clock_test : check "ann" (nat 50) (nat 1) Number.nan [] ≡ err LimitError.clock
unfolding check
bad_clock_test = refl

reached : Reach "ann" 50 1 110 other_attempt (100 ∷ [])
reached =
    check_other 100 110 20 3 "bob" true one_attempt other_attempt (100 ∷ [])
      (admit 0 100 [] one_attempt [] (start 0) (omega arith) admit_test) (omega arith) refl
      other_test

window_bound_example : 1 ≤ 1
window_bound_example =
    window_bound "ann" 50 1 149 refused_attempt (100 ∷ [])
      (refuse 110 149 other_attempt refused_attempt (100 ∷ []) reached (omega arith) refuse_test)

refused_full_example : length (select (is_recent 149 50) (100 ∷ [])) ≡ 1
refused_full_example =
    refused_full "ann" 50 1 110 149 other_attempt refused_attempt (100 ∷ []) reached (omega arith)
      refuse_test
