-- ===== src/Recovery/Checkpoint.antt =====
-- What a sync's checkpoint keeps.
use Prim.Native.Nat.{max}
use ubeeq.Common.{
  ℕ, zero, suc, ◌≤◌, String, ◌≡◌, refl, ap, subst, true, false, ◌||◌, none, some, List, [], ◌∷◌,
  ◌++◌, ◌==◌, contains, contains-append, contains-unique, unique, length, Distinct, Distinct-unique,
  truthy, text_le, text_total, text_refl, eq_iff, text_trans, Number, nat, ok, arith, Bool-cases,
  Option-cases, inl, inr,
}
use ubeeq.Recovery.{
  Page, Progress, take, limited, greatest, remote_ids, instants, advance_checkpoint,
}

contains-take :
    (n : ℕ) (xs : List String) (id : String)
    → contains (take n xs) id ≡ true
    → contains xs id ≡ true
contains-take zero xs id c = cc
contains-take (suc n) [] id c = cc
contains-take (suc n) (x ∷ xs) id c = ground (arith, contains-take n xs id)

Distinct-take : (n : ℕ) (xs : List String) → Distinct xs → Distinct (take n xs)
Distinct-take zero xs d = tt
Distinct-take (suc n) [] d = tt
Distinct-take (suc n) (x ∷ xs) d =
    (ground (arith, contains-take n xs x, d.0), Distinct-take n xs d.1)

length-take-le : (n : ℕ) (xs : List String) → length (take n xs) ≤ n
length-take-le zero xs = omega arith
length-take-le (suc n) [] = omega arith
length-take-le (suc n) (x ∷ xs) = omega (arith, length-take-le n xs)

contains-limited :
    (limit : Number) (xs : List String) (id : String)
    → contains (limited limit xs) id ≡ true
    → contains xs id ≡ true
contains-limited (nat zero) xs id c = contains-take 1 xs id c
contains-limited (nat (suc n)) xs id c = contains-take (suc n) xs id c
contains-limited (Number.negsuc n) xs id c = contains-take 1 xs id c
contains-limited Number.infinity xs id c = c
contains-limited Number.neg_infinity xs id c = contains-take 1 xs id c
contains-limited Number.nan xs id c = cc

Distinct-limited : (limit : Number) (xs : List String) → Distinct xs → Distinct (limited limit xs)
Distinct-limited (nat zero) xs d = Distinct-take 1 xs d
Distinct-limited (nat (suc n)) xs d = Distinct-take (suc n) xs d
Distinct-limited (Number.negsuc n) xs d = Distinct-take 1 xs d
Distinct-limited Number.infinity xs d = d
Distinct-limited Number.neg_infinity xs d = Distinct-take 1 xs d
Distinct-limited Number.nan xs d = tt

length-limited-le : (n : ℕ) (xs : List String) → length (limited (nat n) xs) ≤ max 1 n
length-limited-le zero xs = length-take-le 1 xs
length-limited-le (suc n) xs = omega (arith, length-take-le (suc n) xs)

greatest-none : (xs : List String) → greatest xs ≡ none → xs ≡ []
greatest-none [] h = refl
greatest-none (x ∷ xs) h = elim (Option-cases (greatest xs)) [
  | inl e ↦ absurd (ground arith)
  | inr (g, e) ↦ absurd (ground arith)
]

-- No text in the list is above its greatest one.
greatest_lem :
    (xs : List String) (x : String)
    → contains xs x ≡ true
    → (g : String) × (greatest xs ≡ some g) × (text_le x g ≡ true)
greatest_lem [] x c = cc
greatest_lem (y ∷ ys) x c = elim (Option-cases (greatest ys)) [
  | inl e ↦
      let last : ys ≡ [] = greatest-none ys e in
      let only : contains ys x ≡ false = ap (λ zs. contains zs x) last in
      let same : y ≡ x = (eq_iff y x).0 (ground arith) in
      rw e (y, refl, subst (λ z. text_le z y ≡ true) same (text_refl y))
  | inr (g, e) ↦
      let upto : (y == x) ≡ false → text_le x g ≡ true = (λ other.
        let (h, k, le) = greatest_lem ys x (ground arith) in
        let same : h ≡ g = ground arith in subst (λ z. text_le x z ≡ true) same le) in
      rw e (elim (Bool-cases (text_le y g)) [
        | inl le ↦ rw le (
          g,
          refl,
          elim (Bool-cases (y == x)) [
            | inl here ↦ subst (λ z. text_le z g ≡ true) ((eq_iff y x).0 here) le
            | inr other ↦ upto other
          ],
        )
        | inr above ↦ rw above (
          y,
          refl,
          elim (Bool-cases (y == x)) [
            | inl here ↦ subst (λ z. text_le z y ≡ true) ((eq_iff y x).0 here) (text_refl y)
            | inr other ↦ text_trans x g y (upto other) (text_total y g above)
          ],
        )
      ])
]

-- After a page the recent identifiers are distinct, come from the page or from before, and are at most
-- as many as the limit, or one; the high watermark is present where there is any instant to compare,
-- and not before the old one or before an instant of the page; and a page that is not the last one
-- leaves a cursor to go on from.
pub advance_checkpoint_lem :
    (p : Progress) (page : Page) (now : String) (limit : Number) (next : Progress)
    → advance_checkpoint p page now limit ≡ ok next
    → Distinct next.recent_remote_ids
      × ((id : String)
          → contains next.recent_remote_ids id ≡ true
          → (contains (remote_ids page) id || contains p.recent_remote_ids id) ≡ true)
      × ((n : ℕ) → limit ≡ nat n → length next.recent_remote_ids ≤ max 1 n)
      × ((t : String)
          → contains (instants p page) t ≡ true
          → (g : String) × (next.high_watermark_at ≡ some g) × (text_le t g ≡ true))
      × ((page.complete || truthy next.cursor) ≡ true)
unfolding advance_checkpoint
advance_checkpoint_lem p page now limit next h =
    let ids = remote_ids page ++ p.recent_remote_ids in
    let recent : limited limit (unique ids) ≡ next.recent_remote_ids = ground arith in
    let high : greatest (instants p page) ≡ next.high_watermark_at = ground arith in
    rw (← recent, ← high)
      (
        Distinct-limited limit (unique ids) (Distinct-unique ids),
        λ id c. ground (
          arith,
          contains-limited limit (unique ids) id c,
          contains-unique ids id,
          contains-append (remote_ids page) p.recent_remote_ids id,
        ),
        λ n e. rw e (length-limited-le n (unique ids)),
        greatest_lem (instants p page),
        ground arith,
      )
