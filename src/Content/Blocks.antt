-- ===== src/Content/Blocks.antt =====
-- packages/core/src/index.ts: content blocks, which are trees, and `validateContentBlocks`. The fields
-- that are for rendering only are left out.
use ubeeq.Common.{
  String, ◌≡◌, ◌↔◌, refl, sym, ◌∙◌, Bool, true, false, not, ◌&&◌, Option, none, some, List, [], ◌∷◌,
  ◌++◌, map, is_blank, leb, contains, contains_same, contains-set_add, set_add, All, Distinct,
  Number, nat, Result, ok, err, ◌>>=◌, arith, Bool-cases, ==_self, Result-cases, inl, inr,
  if◌then◌else◌,
}

-- `ContentBlockType`
pub data BlockType : Type 0 where
  section heading paragraph image video audio quote divider embed file link credit : BlockType
  grouping carousel pdf_preview html_fragment gallery_preview premium_promotion : BlockType
  selected_portfolio gallery_list update_list page_link : BlockType

-- The fields of `ContentBlock` besides `children`.
pub record Fields : Type 0 where
  pub id : String
  pub type : BlockType
  pub level : Option Number

-- `ContentBlock`, and a list of blocks; absent children are no blocks.
mutual
  pub data Block : Type 0 where
    block : Fields → Blocks → Block

  pub data Blocks : Type 0 where
    done : Blocks
    next : Block → Blocks → Blocks

-- The errors of `validateContentBlocks`; the second has the id.
pub data BlockError : Type 0 where
  id_required : BlockError
  duplicated : String → BlockError
  invalid_level : String → BlockError

-- `Number.isInteger(level) && level >= 1`, or no level.
abbrev pub valid_level : Option Number → Bool
valid_level none = true
valid_level (some (nat n)) = leb 1 n
valid_level (some _) = false

-- The tests of one block, and the set `ids` after it.
unfoldable pub check_block : Fields → List String → Result BlockError (List String)
check_block f ids =
    if is_blank f.id
    then err BlockError.id_required
    else if contains ids f.id
    then err (BlockError.duplicated f.id)
    else if not (valid_level f.level)
    then err (BlockError.invalid_level f.id)
    else ok (set_add ids f.id)

-- `visit`
unfoldable pub visit : Blocks → List String → Result BlockError (List String)
visit done ids = ok ids
visit (next (block f children) rest) ids =
    check_block f ids >>= λ seen. visit children seen >>= λ below. visit rest below

-- `validateContentBlocks`
unfoldable pub validate_content_blocks : Blocks → Result BlockError (Unit {0})
validate_content_blocks blocks = visit blocks [] >>= λ ids. ok tt

-- The blocks of the tree, each before its children.
abbrev pub in_order : Blocks → List Fields
in_order done = []
in_order (next (block f children) rest) = f ∷ in_order children ++ in_order rest

check_all : List Fields → List String → Result BlockError (List String)
check_all [] ids = ok ids
check_all (f ∷ fs) ids = check_block f ids >>= λ seen. check_all fs seen

check_all-append :
    (fs gs : List Fields) (ids : List String)
    → check_all (fs ++ gs) ids ≡ (check_all fs ids >>= λ seen. check_all gs seen)
unfolding check_all
check_all-append [] gs ids = refl
check_all-append (f ∷ fs) gs ids = elim (Result-cases (check_block f ids)) [
  | inl (seen, e) ↦ rw e (check_all-append fs gs seen)
  | inr (failure, e) ↦ rw e refl
]

-- The traversal is that of the list.
visit-eq-check_all :
    (blocks : Blocks) (ids : List String) → visit blocks ids ≡ check_all (in_order blocks) ids
unfolding visit check_all
visit-eq-check_all done ids = refl
visit-eq-check_all (next (block f children) rest) ids = elim (Result-cases (check_block f ids)) [
  | inr (failure, e) ↦ rw e refl
  | inl (seen, e) ↦
      rw
        (
          e,
          visit-eq-check_all children seen,
          check_all-append (in_order children) (in_order rest) seen,
        )
        (elim (Result-cases (check_all (in_order children) seen)) [
          | inl (below, k) ↦ rw k (visit-eq-check_all rest below)
          | inr (failure, k) ↦ rw k refl
        ])
]

-- A block that stands by itself.
abbrev pub is_good : Fields → Bool
is_good f = not (is_blank f.id) && valid_level f.level

abbrev pub ids_of : List Fields → List String
ids_of fs = map (λ f. f.id) fs

-- What the blocks satisfy that are accepted after the ids.
abbrev Accepted : List Fields → List String → Type 0
Accepted fs ids =
    All (λ f. is_good f ≡ true) fs
    × Distinct (ids_of fs)
    × ((id : String) → contains ids id ≡ true → contains (ids_of fs) id ≡ false)

check_block_ok :
    (f : Fields) (ids seen : List String)
    → check_block f ids ≡ ok seen
    → (seen ≡ set_add ids f.id) × (is_good f ≡ true) × (contains ids f.id ≡ false)
unfolding check_block
check_block_ok f ids seen h = (ground arith, ground arith, ground arith)

check_block_good :
    (f : Fields) (ids : List String)
    → is_good f ≡ true
    → contains ids f.id ≡ false
    → check_block f ids ≡ ok (set_add ids f.id)
unfolding check_block
check_block_good f ids good new = ground arith

check_all_sound :
    (fs : List Fields) (ids seen : List String) → check_all fs ids ≡ ok seen → Accepted fs ids
unfolding check_all
check_all_sound [] ids seen h = (tt, tt, λ id c. refl)
check_all_sound (f ∷ fs) ids seen h = elim (Result-cases (check_block f ids)) [
  | inr (failure, e) ↦ absurd (let stuck : err failure ≡ ok seen = rw e at h in ground arith)
  | inl (later, e) ↦
      let (added, good, new) = check_block_ok f ids later e in
      let rest : check_all fs (set_add ids f.id) ≡ ok seen = rw (e, added) at h in
      let ih = check_all_sound fs (set_add ids f.id) seen rest in
      (
        (good, ih.0),
        (ih.2 f.id (ground (arith, contains-set_add ids f.id f.id, ==_self f.id)), ih.1),
        λ id c. ground (arith, ih.2 id, contains-set_add ids f.id id, contains_same ids f.id id),
      )
]

check_all_complete :
    (fs : List Fields) (ids : List String)
    → Accepted fs ids
    → (seen : List String) × (check_all fs ids ≡ ok seen)
unfolding check_all
check_all_complete [] ids h = (ids, refl)
check_all_complete (f ∷ fs) ids h =
    let new : contains ids f.id ≡ false = (elim (Bool-cases (contains ids f.id)) [
      | inl e ↦ cc (h.2 f.id e, ==_self f.id)
      | inr e ↦ e
    ]) in
    let rest = check_all_complete fs (set_add ids f.id) (
      h.0.1,
      h.1.1,
      λ id c.
          ground
            (arith, h.2 id, contains-set_add ids f.id id, contains_same (ids_of fs) f.id id, h.1.0),
    ) in
    rw (check_block_good f ids h.0.0 new) rest

-- A tree of blocks is accepted exactly if each block in it, at whatever depth, has an id that is not
-- blank and a level, if any, that is a positive integer, and no two blocks in it have the same id.
pub validate_content_blocks_iff :
    (blocks : Blocks)
    → (validate_content_blocks blocks ≡ ok tt)
      ↔ (All (λ f. is_good f ≡ true) (in_order blocks) × Distinct (ids_of (in_order blocks)))
unfolding validate_content_blocks
validate_content_blocks_iff blocks = (
  λ h. elim (Result-cases (visit blocks [])) [
    | inl (seen, e) ↦
        let sound =
          check_all_sound (in_order blocks) [] seen (sym (visit-eq-check_all blocks []) ∙ e) in
        (sound.0, sound.1)
    | inr (failure, e) ↦ absurd (ground arith)
  ],
  λ h.
      let (seen, e) = check_all_complete (in_order blocks) [] (h.0, h.1, λ id c. cc) in
      let visited : visit blocks [] ≡ ok seen = visit-eq-check_all blocks [] ∙ e in ground arith,
)
