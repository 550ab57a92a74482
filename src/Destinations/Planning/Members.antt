-- ===== src/Destinations/Planning/Members.antt =====
-- packages/core/src/collection-destinations.ts, the loops of `planCollectionDestination` over the
-- selections and over the members of the collection.
pub mod Intended
use ubeeq.Common.{
  String, Bool, true, false, not, ◌&&◌, Option, none, some, List, [], ◌∷◌, ◌++◌, map, ◌==◌,
  is_empty, or_else, is_some, any, set_add, map_get, if◌then◌else◌,
}
use ubeeq.Destinations.{Authority, Scope, Selection, Mapping, Member, Excluded, Blocked}

-- `intended`, `excluded` and `blocked`.
pub record Scan : Type 0 where
  pub intended : List String
  pub excluded : List Excluded
  pub blocked : List Blocked

abbrev pub is_platform : Authority → Bool
is_platform Authority.platform = true
is_platform _ = false

abbrev pub is_selected : Scope → Bool
is_selected Scope.selected = true
is_selected _ = false

-- `selection.get(workId)`
unfoldable pub selection : Mapping → String → Option Selection
selection m work = map_get (map (λ s. (s.work_id, s)) m.selections) work

unfoldable pub missing_selections : List Selection → List Member → List Blocked
missing_selections [] members = []
missing_selections (s ∷ ss) members =
    let rest = missing_selections ss members in
    if not (any (λ w. w.work_id == s.work_id) members)
    then record {
      work_id = some s.work_id;
      reason = "Selected Work is no longer a collection member.";
    }
      ∷ rest
    else rest

-- The state before the loop over the members.
unfoldable pub scan_start : Mapping → List Member → Scan
unfolding missing_selections
scan_start m members = record {
  intended = [];
  excluded = [];
  blocked = if is_selected m.scope then missing_selections m.selections members else [];
}

-- `selection.get(member.workId)?.publicationId ?? member.publicationId`
unfoldable pub publication : Mapping → Member → Option String
publication m w = elim (selection m w.work_id) [
  | none ↦ w.publication_id
  | some s ↦ or_else s.publication_id w.publication_id
]

-- `excluded.push({ workId, reason })`
abbrev pub exclude : Scan → Member → String → Scan
exclude s w why = record s {
  excluded = s.excluded ++ record { work_id = w.work_id; reason = why } ∷ [];
}

-- `blocked.push(…)` where the Work has no Publication.
abbrev pub lacks_publication : Scan → Member → Scan
lacks_publication s w = record s {
  blocked =
      s.blocked
      ++ record {
        work_id = some w.work_id;
        reason = "Required Publication is missing; review publication separately.";
      }
        ∷ [];
}

-- The end of a round, for the Publication that was found.
unfoldable pub intend : Scan → Member → Option String → Scan
intend s w none = lacks_publication s w
intend s w (some id) =
    if is_empty id then lacks_publication s w else record s { intended = set_add s.intended id }

-- A round from its test of `member.exclusion` on.
unfoldable pub unless_excluded : Mapping → Scan → Member → Option String → Scan
unfolding intend publication
unless_excluded m s w none = intend s w (publication m w)
unless_excluded m s w (some why) =
    if is_empty why then intend s w (publication m w) else exclude s w why

-- `m.scope === "selected" && !selection.has(member.workId)`
abbrev pub is_skipped : Mapping → Member → Bool
is_skipped m w = is_selected m.scope && not (is_some (selection m w.work_id))

-- One round of the loop over the members.
unfoldable pub scan_member : Mapping → Scan → Member → Scan
unfolding unless_excluded
scan_member m s w =
    if is_skipped m w
    then s
    else if not w.released
    then exclude s w "Not released for this destination."
    else unless_excluded m s w w.exclusion

unfoldable pub scan_members : Mapping → Scan → List Member → Scan
unfolding scan_member
scan_members m s [] = s
scan_members m s (w ∷ ws) = scan_members m (scan_member m s w) ws
