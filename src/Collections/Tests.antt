-- ===== src/Collections/Tests.antt =====
-- Runs of the code of packages/core/src/creator-collections.ts at given inputs.
use ubeeq.Common.{
  String, Bool, true, false, not, ◌&&◌, ◌≡◌, Option, some, none, List, [], ◌∷◌, map, ◌==◌, nat, any,
  contains, Distinct, All, refl, ok, err,
}
use ubeeq.Collections.{
  Collection, Membership, Port, CollectionError, create, update, remove, replace_works, aliases,
  takes, selected_works,
}
use ubeeq.Collections.Contents.{Owned, replaced_works, update_keeps}

abbrev album : Collection
album = record {
  tenant_id = "t";
  creator_id = "c";
  collection_id = "1";
  slug = "dunes";
  slug_history = "sand" ∷ "dunes" ∷ [];
  status = "active";
  updated_at = "1";
  revision = none;
  cover_asset_id = none;
  deleted_at = none;
}

abbrev port : Port
port = record {
  supports_order = false;
  supports_status = true;
  supports_revision = true;
  supports_cover = true;
  asset = some (λ t id. some (record {
    tenant_id = "t";
    creator_id = "c";
    asset_id = id;
    status = "ready";
    scope = "public";
  }));
  collections = λ t c. album ∷ [];
  collection = λ t id. some album;
  work = λ t id. some (record { tenant_id = t; creator_id = "c"; work_id = id; status = "draft" });
  authorize = λ t c. true;
  now = "2";
}

abbrev members : List Membership
members =
    record { collection_id = "1"; work_id = "b"; position = 0; added_at = "2" }
    ∷ record { collection_id = "1"; work_id = "a"; position = 1; added_at = "2" }
    ∷ []

replace_test : replace_works port "t" "1" (" b" ∷ "a" ∷ "" ∷ "b" ∷ []) none ≡ ok members
unfolding replace_works
replace_test = refl

order_test : replace_works port "t" "1" ("a" ∷ []) (some []) ≡ err CollectionError.invalid_works
unfolding replace_works
order_test = refl

cover_test :
    create port (record album { collection_id = "2"; cover_asset_id = some "x" })
    ≡ err CollectionError.invalid_cover
unfolding create
cover_test = refl

taken_test :
    create port (record album { collection_id = "2"; slug = "sand"; slug_history = [] })
    ≡ err CollectionError.slug_conflict
unfolding create
taken_test = refl

remove_test :
    remove port "t" "1" (some (nat 9007199254740991)) ≡ err CollectionError.revision_conflict
unfolding remove
remove_test = refl

abbrev hills : Collection
hills = record album { slug = "hills"; slug_history = "sand" ∷ "dunes" ∷ "hills" ∷ [] }

update_test : update port (record album { slug = "hills"; slug_history = [] }) none none ≡ ok hills
unfolding update
update_test = refl

replaced_works_example :
    (c : Collection) × (◌≡◌ {A = Option Collection} (some album) (some c))
    × (◌≡◌ {A = Bool} true true)
    × ((c.status == "deleted") ≡ false)
    × (map (λ (m : Membership). m.work_id) members ≡ selected_works (" b" ∷ "a" ∷ "" ∷ "b" ∷ []))
    × Distinct (selected_works (" b" ∷ "a" ∷ "" ∷ "b" ∷ []))
    × All (λ work. Owned port "t" c.creator_id work) (selected_works (" b" ∷ "a" ∷ "" ∷ "b" ∷ []))
replaced_works_example =
    replaced_works port "t" "1" (" b" ∷ "a" ∷ "" ∷ "b" ∷ []) none members replace_test

update_keeps_example :
    (hills.creator_id ≡ album.creator_id)
    × ((alias : String)
        → contains (aliases album) alias ≡ true
        → contains (aliases hills) alias ≡ true)
    × ((not (hills.status == "deleted") && any (takes hills) (album ∷ [])) ≡ false)
update_keeps_example =
    update_keeps port (record album { slug = "hills"; slug_history = [] }) album hills none none
      refl update_test
