-- ===== src/Destinations/Planning/Members/Intended.antt =====
-- What the loop over the members finds: which Publications it intends, and that it loses no Work.
use ubeeq.Common.{
  ℕ, ◌+◌, String, ◌≡◌, refl, Bool, not, ◌&&◌, ◌||◌, Option, none, some, List, [], ◌∷◌, truthy, same,
  any, contains, contains-set_add, count_if, length, length-append, if◌then◌else◌, arith,
}
use ubeeq.Destinations.{Mapping, Member}
use ubeeq.Destinations.Planning.Members.{
  Scan, publication, is_skipped, exclude, lacks_publication, intend, unless_excluded, scan_member,
  scan_members,
}

-- The member's Work may be shown at the destination: it is in scope, released, and not excluded.
abbrev pub is_eligible : Mapping → Member → Bool
is_eligible m w = not (is_skipped m w) && (w.released && not (truthy w.exclusion))

-- The member is eligible and `id` is its Publication there.
abbrev pub contributes : Mapping → Member → String → Bool
contributes m w id = is_eligible m w && (truthy (publication m w) && same (publication m w) id)

intend_lem :
    (s : Scan) (w : Member) (found : Option String) (id : String)
    → contains (intend s w found).intended id
      ≡ (contains s.intended id || (truthy found && same found id))
unfolding intend
intend_lem s w none id = ground arith
intend_lem s w (some p) id = ground (arith, contains-set_add s.intended p id)

scan_member_lem :
    (m : Mapping) (s : Scan) (w : Member) (id : String)
    → contains (scan_member m s w).intended id ≡ (contains s.intended id || contributes m w id)
unfolding scan_member unless_excluded
scan_member_lem m s w id = ground (arith, intend_lem s w (publication m w) id)

-- The Publications that the loop intends are those of the eligible members, and no others.
pub scan_members_lem :
    (m : Mapping) (s : Scan) (ws : List Member) (id : String)
    → contains (scan_members m s ws).intended id
      ≡ (contains s.intended id || any (λ w. contributes m w id) ws)
unfolding scan_members
scan_members_lem m s [] id = ground arith
scan_members_lem m s (w ∷ ws) id =
    ground (arith, scan_members_lem m (scan_member m s w) ws id, scan_member_lem m s w id)

abbrev pub noted : Scan → ℕ
noted s = length s.excluded + length s.blocked

abbrev pub has_publication : Mapping → Member → Bool
has_publication m w = is_eligible m w && truthy (publication m w)

exclude-noted : (s : Scan) (w : Member) (why : String) → noted (exclude s w why) ≡ noted s + 1
exclude-noted s w why = grind (arith, length-append)

lacks_publication-noted : (s : Scan) (w : Member) → noted (lacks_publication s w) ≡ noted s + 1
lacks_publication-noted s w = grind (arith, length-append)

intend-noted :
    (s : Scan) (w : Member) (found : Option String)
    → noted (intend s w found) ≡ (if truthy found then noted s else noted s + 1)
unfolding intend
intend-noted s w none = lacks_publication-noted s w
intend-noted s w (some p) = ground (arith, lacks_publication-noted s w)

unless_excluded-noted :
    (m : Mapping) (s : Scan) (w : Member) (why : Option String)
    → noted (unless_excluded m s w why)
      ≡ (if not (truthy why) && truthy (publication m w) then noted s else noted s + 1)
unfolding unless_excluded
unless_excluded-noted m s w none = intend-noted s w (publication m w)
unless_excluded-noted m s w (some why) =
    ground (arith, intend-noted s w (publication m w), exclude-noted s w why)

scan_member-noted :
    (m : Mapping) (s : Scan) (w : Member)
    → noted (scan_member m s w)
      ≡ (if is_skipped m w || has_publication m w then noted s else noted s + 1)
unfolding scan_member
scan_member-noted m s w = ground (
  arith,
  unless_excluded-noted m s w w.exclusion,
  exclude-noted s w "Not released for this destination.",
)

-- Every member that is in scope is accounted for, once: the plan has its Publication, or one entry
-- that says why it is excluded or blocked.
pub scan_members-noted :
    (m : Mapping) (s : Scan) (ws : List Member)
    → noted (scan_members m s ws) + count_if (has_publication m) ws
      ≡ noted s + count_if (λ w. not (is_skipped m w)) ws
unfolding scan_members
scan_members-noted m s [] = refl
scan_members-noted m s (w ∷ ws) =
    ground (arith, scan_members-noted m (scan_member m s w) ws, scan_member-noted m s w)
