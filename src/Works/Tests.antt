-- ===== src/Works/Tests.antt =====
-- Runs of the code of packages/core/src/creator-works.ts at given inputs.
use ubeeq.Common.{
  ◌+◌, String, true, false, ◌≡◌, some, none, [], ◌∷◌, contains, refl, ok, err, lower_ascii,
}
use ubeeq.Works.{
  Work, Authorize, Collation, Edit, WorkError, get, get_work, list, create, revise,
  require_available_slug, aliases,
}
use ubeeq.Works.Ownership.{IsUnique}
use ubeeq.Works.Runs.{Reach, empty, after_create, after_revise, aliases-IsUnique}
use ubeeq.Works.Runs.Revision.{revision_keeps}

abbrev anyone : Authorize
anyone scope = some true

abbrev never_behind : Collation
never_behind s t = false

abbrev input : String → String → Work
input id slug = record {
  tenant_id = "t";
  creator_id = "c";
  work_id = id;
  title = "Dunes";
  description = none;
  tags = [];
  slug = slug;
  slug_history = [];
  status = "new";
  revision = 0;
  created_at = "1";
  updated_at = "1";
  archived_at = none;
  deleted_at = none;
}

abbrev first_work : Work
first_work = record (input "1" "dunes") {
  status = "draft";
  revision = 1;
  slug_history = "dunes" ∷ [];
}

abbrev second_work : Work
second_work = record (input "2" "sand") {
  status = "draft";
  revision = 1;
  slug_history = "sand" ∷ [];
}

abbrev slug_edit : String → Edit
slug_edit slug w at = some (record w { slug = slug })

abbrev status_edit : String → Edit
status_edit status w at = some (record w { status = status })

abbrev moved_work : Work
moved_work = record first_work {
  slug = "hills";
  slug_history = "dunes" ∷ "hills" ∷ [];
  revision = 2;
  updated_at = "2";
}

created_first : create anyone never_behind (input "1" "dunes") [] ≡ ok (first_work, first_work ∷ [])
unfolding create require_available_slug
created_first = refl

created_second :
    create anyone never_behind (input "2" "sand") (first_work ∷ [])
    ≡ ok (second_work, first_work ∷ second_work ∷ [])
unfolding create require_available_slug
created_second = refl

moved_first :
    revise anyone never_behind (slug_edit "hills") "2" "t" "1" (first_work ∷ second_work ∷ [])
    ≡ ok (moved_work, moved_work ∷ second_work ∷ [])
unfolding revise get require_available_slug
moved_first = refl

-- A former slug is still taken.
taken_test :
    revise anyone never_behind (slug_edit "dunes") "3" "t" "2" (moved_work ∷ second_work ∷ [])
    ≡ err WorkError.slug_conflict
unfolding revise get require_available_slug
taken_test = refl

thrown_test :
    revise anyone never_behind (λ w at. none) "3" "t" "2" (moved_work ∷ second_work ∷ [])
    ≡ err WorkError.thrown
unfolding revise get require_available_slug
thrown_test = refl

moved_creator_test :
    revise anyone never_behind
      (λ w at. some (record w { creator_id = "d" }))
      "3"
      "t"
      "2"
      (second_work ∷ [])
    ≡ err WorkError.immutable_identity
unfolding revise get require_available_slug
moved_creator_test = refl

-- A deleted Work lets go of its aliases, and is not restored while one of them is taken.
abbrev gone : Work
gone = record moved_work {
  status = "deleted";
  revision = 3;
  updated_at = "3";
  deleted_at = some "3";
}

deleted_test :
    revise anyone never_behind (status_edit "deleted") "3" "t" "1" (moved_work ∷ [])
    ≡ ok (gone, gone ∷ [])
unfolding revise get require_available_slug
deleted_test = refl

restored_test :
    revise anyone never_behind
      (status_edit "draft")
      "4"
      "t"
      "1"
      (gone ∷ second_work ∷ record second_work { work_id = "3"; slug = "dunes" } ∷ [])
    ≡ err WorkError.slug_conflict
unfolding revise get require_available_slug
restored_test = refl

listed_test :
    list anyone never_behind lower_ascii
      (record { tenant_id = "t"; creator_id = "c" })
      " DUNE "
      false
      (gone ∷ second_work ∷ [])
    ≡ ok (second_work ∷ [])
unfolding list
listed_test = refl

reached : Reach never_behind (moved_work ∷ second_work ∷ [])
reached =
    after_revise anyone (slug_edit "hills") "2" "t" "1" moved_work (first_work ∷ second_work ∷ [])
      (moved_work ∷ second_work ∷ [])
      (after_create anyone (input "2" "sand") second_work (first_work ∷ [])
        (first_work ∷ second_work ∷ [])
        (after_create anyone (input "1" "dunes") first_work [] (first_work ∷ []) empty
          created_first)
        created_second)
      moved_first

aliases-IsUnique_example : IsUnique (moved_work ∷ second_work ∷ [])
aliases-IsUnique_example = aliases-IsUnique never_behind (moved_work ∷ second_work ∷ []) reached

revision_keeps_example :
    (get_work "t" "1" (moved_work ∷ second_work ∷ []) ≡ some moved_work)
    × (2 ≡ 1 + 1)
    × (◌≡◌ {A = String} "c" "c")
    × (◌≡◌ {A = String} "1" "1")
    × ((alias : String)
        → contains (aliases first_work) alias ≡ true
        → contains (aliases moved_work) alias ≡ true)
revision_keeps_example =
    revision_keeps anyone never_behind (slug_edit "hills") "2" "t" "1" moved_work first_work
      (first_work ∷ second_work ∷ []) (moved_work ∷ second_work ∷ []) refl moved_first
