-- ===== src/Destinations/Tests/Plans.antt =====
-- Plans for the sample gallery.
use ubeeq.Common.{◌≡◌, refl, inl, true, false, [], ◌∷◌, contains, ok}
use ubeeq.Common.Samples.{unary}
use ubeeq.Destinations.{Mapping, Plan, Verification, Comparison}
use ubeeq.Destinations.Samples.{native_mapping, mirror_mapping, custom_mapping, input_for}
use ubeeq.Destinations.Validation.{
  bad_settings, bad_selections, bad_field_rules, others, check_exclusive, validate,
}
use ubeeq.Destinations.Validation.Exclusive.{IsExclusive, save, save-IsExclusive}
use ubeeq.Destinations.Planning.Members.{selection, is_platform}
use ubeeq.Destinations.Planning.{
  PlanInput, fresh, complete, mismatch, additions, removals, blocked, inbound_additions,
  inbound_removals, verification, comparison, differences, build, is_exact, plan_destination,
}
use ubeeq.Destinations.Planning.Outbound.{wanted, applied, removals_sound, IsFresh, applied_exact}
use ubeeq.Destinations.Planning.Outcome.{after, applied_settles}
use ubeeq.Destinations.Planning.Inbound.{is_source, mirrored, mirrored_exact}

abbrev plan_for : PlanInput → Plan
plan_for i = build i (complete i) (fresh 1 0 5) "TTTTTT"

abbrev native_input : PlanInput
native_input = input_for native_mapping

native_planned : plan_destination unary native_input ≡ ok (plan_for native_input)
unfolding plan_destination mismatch
native_planned = refl

-- What is wanted and missing is added, what is there and not wanted is removed.
native_changes :
    ((plan_for native_input).additions ≡ "p1" ∷ []) × ((plan_for native_input).removals ≡ "p9" ∷ [])
unfolding build complete additions selection removals
native_changes = (refl, refl)

native_verified : (plan_for native_input).verification ≡ Verification.api_verified
unfolding build complete verification
native_verified = refl

removals_sound_example :
    (is_platform native_mapping.authority ≡ false)
    × (is_exact native_mapping.reconciliation ≡ true)
    × (complete native_input ≡ true)
    × (contains ("p3" ∷ "p9" ∷ []) "p9" ≡ true)
    × (wanted native_input "p9" ≡ false)
    × IsFresh unary native_input
unfolding build complete additions selection removals
removals_sound_example =
    removals_sound unary native_input (plan_for native_input) native_planned "p9" refl

applied_exact_example :
    contains (applied (plan_for native_input) ("p3" ∷ "p9" ∷ [])) "p1" ≡ wanted native_input "p1"
applied_exact_example =
    applied_exact unary native_input (plan_for native_input) native_planned "p1" refl refl
      native_verified

abbrev custom_input : PlanInput
custom_input = input_for custom_mapping

custom_planned : plan_destination unary custom_input ≡ ok (plan_for custom_input)
unfolding plan_destination mismatch
custom_planned = refl

-- The gallery as the plan leaves it.
abbrev settled_input : PlanInput
settled_input = after unary native_input (plan_for native_input) native_planned

settled_planned : plan_destination unary settled_input ≡ ok (plan_for settled_input)
unfolding plan_destination mismatch
settled_planned = refl

applied_settles_example :
    ((plan_for settled_input).additions ≡ []) × ((plan_for settled_input).removals ≡ [])
applied_settles_example =
    applied_settles unary native_input (plan_for native_input) native_planned
      (plan_for settled_input) settled_planned refl refl native_verified

settled_up_to_date : (plan_for settled_input).comparison ≡ Comparison.up_to_date
unfolding build complete comparison differences additions selection removals blocked
settled_up_to_date = refl

abbrev mirror_input : PlanInput
mirror_input = input_for mirror_mapping

mirror_planned : plan_destination unary mirror_input ≡ ok (plan_for mirror_input)
unfolding plan_destination mismatch
mirror_planned = refl

mirrored_exact_example :
    contains (mirrored (plan_for mirror_input) ("w1" ∷ "w2" ∷ "w3" ∷ [])) "w9"
    ≡ is_source mirror_input "w9"
unfolding build complete comparison differences inbound_additions inbound_removals blocked selection
mirrored_exact_example =
    mirrored_exact unary mirror_input (plan_for mirror_input) mirror_planned "w9" refl (inl refl)

-- A second mapping, for another gallery.
abbrev second_mapping : Mapping
second_mapping = record native_mapping { id = "second"; remote_gallery_id = "other" }

save-IsExclusive_example : IsExclusive (save second_mapping (native_mapping ∷ []))
unfolding validate bad_settings bad_selections bad_field_rules check_exclusive others
save-IsExclusive_example = save-IsExclusive second_mapping (native_mapping ∷ []) [] (tt, tt) refl
