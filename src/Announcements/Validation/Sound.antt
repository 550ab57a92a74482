-- ===== src/Announcements/Validation/Sound.antt =====
-- packages/core/src/historical-announcements.ts: what a valid snapshot guarantees to those who show it.
use ubeeq.Common.{
  ℕ, ◌≤◌, ◌<◌, ◌≡◌, String, Bool, true, false, not, ◌&&◌, ◌||◌, List, [], ◌∷◌, map, refl, sym, ◌∙◌,
  arith, inl, inr, Bool-cases, ◌==◌, eq_iff, if◌then◌else◌, ==_self, any, any-eq-false, length,
  contains, Distinct, All, All-map, Number, nat, num_lt, Option, none, some, Result, ok, err,
  refuse_if-ok, refuse_if-last, ltb, ◌>>=◌, ◌>>◌, refuse_if,
}
use ubeeq.Announcements.{Attachment, Block, Format, Row, Snapshot, HistoryError, Host}
use ubeeq.Announcements.Validation.{given, safe_url, has_text}
use ubeeq.Announcements.Validation.Snapshots.{
  validate_snapshot, check_attachments, bad_attachment, bad_block, bad_formatting, bad_format,
  bad_rest, bad_row, bad_index, exceeds_bounds, text_size, is_integer, longer_than, known_block,
  bad_indent, unknown_syntax, is_attachment, names_nothing, is_unsupported, known_row,
  bad_source_data,
}

pub attachment_ids : List Attachment → List String
attachment_ids as' = map (λ a. a.id) as'

check_step :
    (b : Bool) (r : Result HistoryError (List String)) (out : List String)
    → (if b then err HistoryError.invalid_attachment else r) ≡ ok out
    → (b ≡ false) × (r ≡ ok out)
check_step true r out h = cc
check_step false r out h = (refl, h)

-- The ids that the loop returns are those of the attachments, behind the ones that it began with.
ids_kept :
    (host : Host) (ids : List String) (ps : List Number) (as' : List Attachment) (out : List String)
    (x : String)
    → check_attachments host ids ps as' ≡ ok out
    → contains out x ≡ (contains ids x || contains (attachment_ids as') x)
unfolding attachment_ids
ids_kept host ids ps [] out x h = let same : ids ≡ out = cc h in rw (← same) (ground arith)
ids_kept host ids ps (a ∷ as') out x h =
    ids_kept host (a.id ∷ ids) (a.position ∷ ps) as' out x
      (check_step (bad_attachment host ids ps a) _ out h).1
    ∙ moved (a.id == x) (contains ids x) (contains (attachment_ids as') x)
  where
    moved : (b c d : Bool) → ((b || c) || d) ≡ (c || (b || d))
    moved b c d = ground arith

-- An attachment that passes has an id that none before it has.
fresh_id :
    (host : Host) (ids : List String) (ps : List Number) (a : Attachment)
    → bad_attachment host ids ps a ≡ false
    → contains ids a.id ≡ false
fresh_id host ids ps a h = second _ _ _ _ _ _ _ _ _ _ h
  where
    second :
        (a b c d e f g k m n : Bool)
        → (a || b || c || d || e || f || g || k || m || n) ≡ false
        → b ≡ false
    second a b c d e f g k m n h = ground arith

ids_Distinct :
    (host : Host) (ids : List String) (ps : List Number) (as' : List Attachment) (out : List String)
    → check_attachments host ids ps as' ≡ ok out
    → Distinct (attachment_ids as')
      × ((x : String) → contains ids x ≡ true → contains (attachment_ids as') x ≡ false)
unfolding attachment_ids
ids_Distinct host ids ps [] out h = (tt, λ x c. refl)
ids_Distinct host ids ps (a ∷ as') out h =
    let p = check_step (bad_attachment host ids ps a) _ out h in
    let ih = ids_Distinct host (a.id ∷ ids) (a.position ∷ ps) as' out p.1 in
    let new = fresh_id host ids ps a p.0 in
    (
      (ih.1 a.id (first (contains ids a.id) (==_self a.id)), ih.0),
      λ x c. neither (apart (a.id) x new c) (ih.1 x (later (a.id == x) c)),
    )
  where
    first : {b : Bool} (c : Bool) → b ≡ true → (b || c) ≡ true
    first c e = ground arith

    later : {c : Bool} (b : Bool) → c ≡ true → (b || c) ≡ true
    later b e = ground arith

    neither : {b c : Bool} → b ≡ false → c ≡ false → (b || c) ≡ false
    neither p q = ground arith

    apart : (y x : String) → contains ids y ≡ false → contains ids x ≡ true → (y == x) ≡ false
    apart y x n c = elim (Bool-cases (y == x)) [ inl e ↦ cc ((eq_iff y x).0 e) | inr e ↦ e ]

-- The attachment that a block names is one of the snapshot's.
abbrev pub Resolves : List String → Option String → Type 0
Resolves ids none = Unit
Resolves ids (some id) = contains ids id ≡ true

-- A range of characters within a text of this size.
abbrev pub Within : ℕ → Format → Type 0
Within size f = (a : ℕ) × (b : ℕ) × (f.start ≡ nat a) × (f.stop ≡ nat b) × (a < b) × (b ≤ size)

abbrev pub FormatsWithin : ℕ → Option (List Format) → Type 0
FormatsWithin size none = Unit
FormatsWithin size (some fs) = All (Within size) fs

abbrev pub Place : ℕ → Number → Type 0
Place size i = (n : ℕ) × (i ≡ nat n) × (n < size)

abbrev IsShown : List String → Block → Type 0
IsShown ids b = Resolves ids b.attachment_id × FormatsWithin (text_size b.text) b.formatting

range_of :
    (size : ℕ) (start stop : Number)
    → not (is_integer start) ≡ false
    → num_lt start (nat 0) ≡ false
    → not (num_lt start stop) ≡ false
    → num_lt (nat size) stop ≡ false
    → (a : ℕ) × (b : ℕ) × (start ≡ nat a) × (stop ≡ nat b) × (a < b) × (b ≤ size)
range_of size (nat a) (nat b) i z l e = (a, b, refl, refl, ground arith, ground arith)
range_of size (nat a) (Number.negsuc b) i z l e = cc
range_of size (nat a) Number.infinity i z l e = cc
range_of size (nat a) Number.neg_infinity i z l e = cc
range_of size (nat a) Number.nan i z l e = cc
range_of size (Number.negsuc a) stop i z l e = cc
range_of size Number.infinity stop i z l e = cc
range_of size Number.neg_infinity stop i z l e = cc
range_of size Number.nan stop i z l e = cc

format-Within :
    (host : Host) (size : ℕ) (f : Format) → bad_format host size f ≡ false → Within size f
format-Within host size f h =
    let p = parts _ _ _ _ _ _ _ _ h in range_of size f.start f.stop p.0 p.1 p.2 p.3
  where
    parts :
        (a b c d e g k m : Bool)
        → (a || b || c || d || e || g || k || m) ≡ false
        → (b ≡ false) × (d ≡ false) × (e ≡ false) × (g ≡ false)
    parts a b c d e g k m h = ground arith

block-IsShown :
    (host : Host) (ids : List String) (b : Block) → bad_block host ids b ≡ false → IsShown ids b
block-IsShown host ids b h =
    let p =
      parts (not (known_block b.kind)) (given (longer_than 100000) b.text)
        (given (λ u. not (safe_url host u)) b.url) (given (longer_than 100) b.subtype)
        (given bad_indent b.indent) (given unknown_syntax b.syntax)
        (given (bad_formatting host (text_size b.text)) b.formatting)
        (given (λ id. not (contains ids id)) b.attachment_id)
        (is_attachment b.kind && names_nothing b.attachment_id)
        (is_unsupported b.kind && not (has_text b.reason)) h in
    (resolves b.attachment_id p.1, formats b.formatting p.0)
  where
    parts :
        (a b c d e f g k m n : Bool)
        → (a || b || c || d || e || f || g || k || m || n) ≡ false
        → (g ≡ false) × (k ≡ false)
    parts a b c d e f g k m n h = ground arith

    resolves : (id : Option String) → given (λ x. not (contains ids x)) id ≡ false → Resolves ids id
    resolves none e = tt
    resolves (some x) e = ground arith

    formats :
        (fs : Option (List Format))
        → given (bad_formatting host (text_size b.text)) fs ≡ false
        → FormatsWithin (text_size b.text) fs
    formats none e = tt
    formats (some fs) e =
        All-map fs (λ f. format-Within host (text_size b.text) f)
          (any-eq-false (bad_format host (text_size b.text)) fs
            (last (ltb 1000 (length fs)) (any (bad_format host (text_size b.text)) fs) e))
      where
        last : (x y : Bool) → (x || y) ≡ false → y ≡ false
        last x y e = ground arith

index_placed : (size : ℕ) (i : Number) → bad_index size i ≡ false → Place size i
index_placed size (nat n) h = (n, refl, ground arith)
index_placed size (Number.negsuc n) h = cc
index_placed size Number.infinity h = cc
index_placed size Number.neg_infinity h = cc
index_placed size Number.nan h = cc

row_placed : (size : ℕ) (r : Row) → bad_row size r ≡ false → All (Place size) r.block_indexes
row_placed size r h =
    All-map r.block_indexes (λ i. index_placed size i)
      (any-eq-false (bad_index size) r.block_indexes (
        third (not (known_row r.kind)) (ltb 100 (length r.block_indexes))
          (any (bad_index size) r.block_indexes) h))
  where
    third : (a b c : Bool) → (a || b || c) ≡ false → c ≡ false
    third a b c h = ground arith

-- In a snapshot that `validateHistoricalSnapshot` accepts, no two attachments have one id, every block
-- that names an attachment names one of the snapshot's, every formatted range is a range of
-- characters of its block's text, and every place of the layout is the place of a block.
pub valid_snapshot :
    (host : Host) (s : Snapshot)
    → validate_snapshot host s ≡ ok tt
    → Distinct (attachment_ids s.attachments)
      × All (λ (b : Block). Resolves (attachment_ids s.attachments) b.attachment_id) s.blocks
      × All (λ (b : Block). FormatsWithin (text_size b.text) b.formatting) s.blocks
      × All (λ (r : Row). All (Place (length s.blocks)) r.block_indexes) s.layout
unfolding validate_snapshot
valid_snapshot host s h =
    let p =
      refuse_if-ok (ltb 2097152 (host.snapshot_bytes s)) HistoryError.unbounded_snapshot _ h in
    let q = refuse_if-ok (exceeds_bounds s) HistoryError.snapshot_bounds _ p.1 in
    let r =
      refuse_if-ok (given (bad_source_data host) s.source_data) HistoryError.invalid_source_data _
        q.1 in
    let c = checked (check_attachments host [] [] s.attachments) r.1 in
    let d = refuse_if-ok (any (bad_block host c.0) s.blocks) HistoryError.invalid_block _ c.2 in
    let rest = refuse_if-last (bad_rest host s) HistoryError.invalid_layout d.1 in
    let shown =
      All-map s.blocks (λ b e. block-IsShown host c.0 b e)
        (any-eq-false (bad_block host c.0) s.blocks d.0) in
    (
      (ids_Distinct host [] [] s.attachments c.0 c.1).0,
      All-map s.blocks (λ b e. same_ids c.0 c.1 b.attachment_id e.0) shown,
      All-map s.blocks (λ b e. e.1) shown,
      All-map s.layout (λ row e. row_placed (length s.blocks) row e)
          (any-eq-false (bad_row (length s.blocks)) s.layout (
            third (any (λ u. not (safe_url host u)) s.links) (any (longer_than 200) s.tags)
              (any (bad_row (length s.blocks)) s.layout) rest)),
    )
  where
    checked :
        (ids : Result HistoryError (List String))
        → (ids >>= λ out.
            refuse_if (any (bad_block host out) s.blocks) HistoryError.invalid_block
            >> refuse_if (bad_rest host s) HistoryError.invalid_layout)
          ≡ ok tt
        → (out : List String) × (ids ≡ ok out)
          × ((refuse_if (any (bad_block host out) s.blocks) HistoryError.invalid_block
                >> refuse_if (bad_rest host s) HistoryError.invalid_layout)
              ≡ ok tt)
    checked (ok out) h = (out, refl, h)
    checked (err f) h = cc

    third : (a b c : Bool) → (a || b || c) ≡ false → c ≡ false
    third a b c h = ground arith

    same_ids :
        (out : List String)
        → check_attachments host [] [] s.attachments ≡ ok out
        → (id : Option String) → Resolves out id
        → Resolves (attachment_ids s.attachments) id
    same_ids out e none r = tt
    same_ids out e (some x) r = sym (ids_kept host [] [] s.attachments out x e) ∙ r
