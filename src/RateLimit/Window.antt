-- ===== src/RateLimit/Window.antt =====
-- packages/auth/src/local-rate-limit.ts: how many attempts a window admits.
pub mod Runs
use ubeeq.Common.{
  ℕ, ◌≤◌, ◌<◌, ◌≡◌, String, Bool, true, false, not, ◌||◌, ◌==◌, ==_self, some, List, [], ◌∷◌, ◌++◌,
  refl, sym, ap, ◌∙◌, arith, Bool-cases, inl, inr, nat, is_safe_from, is_empty, length,
  length-append, select, ltb, leb, map_get, Result, ok, refuse_if-ok,
}
use ubeeq.RateLimit.{
  LimitError, Attempts, or_nil, attempts_of, is_recent, answered, attempted, check,
}

-- A check that returns is one attempt under its key.
pub record Checks (key : String) (window maximum now : ℕ) (m : Attempts) (b : Bool)
    (after : Attempts) : Type 0 where
  pub kept : List ℕ
  pub attempt : attempted now window maximum (attempts_of m key) ≡ (b, kept)
  pub change : after ≡ m ++ (key, kept) ∷ []
  pub open_window : 1 ≤ window

pub check-Checks :
    (key : String) (window maximum now : ℕ) (m : Attempts) (b : Bool) (after : Attempts)
    → check key (nat window) (nat maximum) (nat now) m ≡ ok (b, after)
    → Checks key window maximum now m b after
unfolding check
check-Checks key window maximum now m b after h =
    let p = refuse_if-ok (is_empty key) LimitError.configuration _ h in
    let q =
      refuse_if-ok (ltb window 1 || not (is_safe_from 0 (nat maximum))) LimitError.configuration _
        p.1 in
    let r = attempted now window maximum (attempts_of m key) in
    let e = given q.1 in
    record {
      kept = r.1;
      attempt = ap (λ c. (c, r.1)) e.0;
      change = sym e.1;
      open_window = opened window _ q.0;
    }
  where
    given :
        {c : Bool} {n : Attempts}
        → ◌≡◌ {A = Result LimitError (Bool × Attempts)} (ok (c, n)) (ok (b, after))
        → (c ≡ b) × (n ≡ after)
    given e = (cc, cc)

    opened : (w : ℕ) (c : Bool) → (ltb w 1 || c) ≡ false → 1 ≤ w
    opened w c e = ground arith

pub set_same :
    (m : Attempts) (key : String) (ts : List ℕ) → map_get (m ++ (key, ts) ∷ []) key ≡ some ts
set_same [] key ts = rw (==_self key) refl
set_same ((j, v) ∷ m) key ts = rw (set_same m key ts) refl

pub set_other :
    (m : Attempts) (key other : String) (ts : List ℕ)
    → (other == key) ≡ false
    → map_get (m ++ (other, ts) ∷ []) key ≡ map_get m key
set_other [] key other ts h = rw h refl
set_other ((j, v) ∷ m) key other ts h = rw (set_other m key other ts h) refl

pub select-append :
    (p : ℕ → Bool) (xs ys : List ℕ) → select p (xs ++ ys) ≡ select p xs ++ select p ys
select-append p [] ys = refl
select-append p (x ∷ xs) ys = elim (Bool-cases (p x)) [
  | inl e ↦ rw (e, select-append p xs ys) refl
  | inr e ↦ rw (e, select-append p xs ys) refl
]

later_recent :
    (now later window t : ℕ)
    → now ≤ later
    → is_recent later window t ≡ true
    → is_recent now window t ≡ true
later_recent now later window t le h = ground arith

-- What is recent later is recent now.
pub select_later :
    (now later window : ℕ) (ts : List ℕ)
    → now ≤ later
    → select (is_recent later window) (select (is_recent now window) ts)
      ≡ select (is_recent later window) ts
select_later now later window [] le = refl
select_later now later window (t ∷ ts) le = elim (Bool-cases (is_recent now window t)) [
  | inl e ↦ elim (Bool-cases (is_recent later window t)) [
    | inl f ↦ rw (e, f, select_later now later window ts le) refl
    | inr f ↦ rw (e, f, select_later now later window ts le) refl
  ]
  | inr e ↦ elim (Bool-cases (is_recent later window t)) [
    | inl f ↦ cc (later_recent now later window t le f, e)
    | inr f ↦ rw (e, f, select_later now later window ts le) refl
  ]
]

pub length-select_later :
    (now later window : ℕ) (ts : List ℕ)
    → now ≤ later
    → length (select (is_recent later window) ts) ≤ length (select (is_recent now window) ts)
length-select_later now later window [] le = omega arith
length-select_later now later window (t ∷ ts) le = elim (Bool-cases (is_recent later window t)) [
  | inl f ↦
      rw (f, later_recent now later window t le f)
        (omega (arith, length-select_later now later window ts le))
  | inr f ↦ rw f (ground (arith, length-select_later now later window ts le))
]
