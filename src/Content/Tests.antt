-- ===== src/Content/Tests.antt =====
-- The theorems on content at concrete inputs.
use ubeeq.Common.{String, ◌≡◌, ◌↔◌, true, none, some, List, [], ◌∷◌, All, Distinct, nat, ok}
use ubeeq.Content.{OriginType, Origin, AssetStatus, StorageMode, Value, Asset}
use ubeeq.Content.Blocks.{
  BlockType, Block, Blocks, in_order, is_good, ids_of, validate_content_blocks,
  validate_content_blocks_iff,
}

abbrev heading : String → Blocks → Block
heading id children =
    Block.block (record { id = id; type = BlockType.heading; level = some (nat 2) }) children

abbrev tree : Blocks
tree =
    Blocks.next (heading "a" (Blocks.next (heading "b" Blocks.done) Blocks.done))
      (Blocks.next (heading "c" Blocks.done) Blocks.done)

validate_content_blocks_iff_example :
    (validate_content_blocks tree ≡ ok tt)
    ↔ (All (λ f. is_good f ≡ true) (in_order tree) × Distinct (ids_of (in_order tree)))
validate_content_blocks_iff_example = validate_content_blocks_iff tree

abbrev origin : Origin
origin = record {
  type = OriginType.imported;
  provider_id = some "site";
  connection_id = none;
  remote_id = some "r1";
  remote_url = none;
  imported_at = none;
}

abbrev assets : List Asset
assets =
    record {
      status = AssetStatus.ready;
      storage = record {
        mode = StorageMode.hosted;
        object_key = some "k";
        thumbnail_object_key = none;
        external_url = none;
      };
      metadata = ("sourceCopyQuality", Value.text "display_copy") ∷ [];
    }
    ∷ []
