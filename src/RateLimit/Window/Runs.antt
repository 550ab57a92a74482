-- ===== src/RateLimit/Window/Runs.antt =====
-- packages/auth/src/local-rate-limit.ts: the limiter after any checks.
use ubeeq.Common.{
  ℕ, ◌≤◌, ◌<◌, ◌≡◌, String, Bool, true, false, ◌==◌, List, [], ◌∷◌, ◌++◌, refl, sym, ap, ◌∙◌, arith,
  Bool-cases, inl, inr, nat, length, length-append, select, leb, ok,
}
use ubeeq.RateLimit.{Attempts, or_nil, attempts_of, is_recent, answered, attempted, check}
use ubeeq.RateLimit.Window.{
  check-Checks, length-select_later, select-append, select_later, set_other, set_same,
}

-- A limiter with the latest time of a check and the times at which attempts under `key` were admitted, in
-- their order. The clock does not go back, and a key has always the same window and maximum.
pub data Reach (key : String) (window maximum : ℕ) : ℕ → Attempts → List ℕ → Type 0 where
  start : (now : ℕ) → Reach key window maximum now [] []
  admit :
      (before now : ℕ) (m after : Attempts) (log : List ℕ)
      → Reach key window maximum before m log
      → before ≤ now
      → check key (nat window) (nat maximum) (nat now) m ≡ ok (true, after)
      → Reach key window maximum now after (log ++ now ∷ [])
  refuse :
      (before now : ℕ) (m after : Attempts) (log : List ℕ)
      → Reach key window maximum before m log
      → before ≤ now
      → check key (nat window) (nat maximum) (nat now) m ≡ ok (false, after)
      → Reach key window maximum now after log
  check_other :
      (before now w most : ℕ) (other : String) (b : Bool) (m after : Attempts) (log : List ℕ)
      → Reach key window maximum before m log
      → before ≤ now
      → (other == key) ≡ false
      → check other (nat w) (nat most) (nat now) m ≡ ok (b, after)
      → Reach key window maximum now after log

-- What is stored agrees with the log, as far as it is recent.
pub record Agrees (window maximum now : ℕ) (stored log : List ℕ) : Type 0 where
  pub agree :
      (later : ℕ)
      → now ≤ later
      → select (is_recent later window) stored ≡ select (is_recent later window) log
  pub bound : length (select (is_recent now window) log) ≤ maximum

passed :
    (window maximum before now : ℕ) (stored log : List ℕ)
    → before ≤ now
    → Agrees window maximum before stored log
    → Agrees window maximum now stored log
passed window maximum before now stored log le h = record {
  agree = λ later k. h.agree later (omega arith);
  bound = omega (arith, length-select_later before now window log le, h.bound);
}

refused :
    (now maximum : ℕ) (valid kept : List ℕ)
    → answered now maximum valid ≡ (false, kept)
    → kept ≡ valid
refused now maximum valid kept h = elim (Bool-cases (leb maximum (length valid))) [
  | inl e ↦
      let k : ◌≡◌ {A = Bool × List ℕ} (false, valid) (false, kept) = rw e at h in
      sym (ap (λ (p : Bool × List ℕ). p.1) k)
  | inr e ↦
      let k : ◌≡◌ {A = Bool × List ℕ} (true, valid ++ now ∷ []) (false, kept) = rw e at h in
      cc (ap (λ (p : Bool × List ℕ). p.0) k)
]

admitted :
    (now maximum : ℕ) (valid kept : List ℕ)
    → answered now maximum valid ≡ (true, kept)
    → (kept ≡ valid ++ now ∷ []) × (length valid < maximum)
admitted now maximum valid kept h = elim (Bool-cases (leb maximum (length valid))) [
  | inl e ↦
      let k : ◌≡◌ {A = Bool × List ℕ} (false, valid) (true, kept) = rw e at h in
      cc (ap (λ (p : Bool × List ℕ). p.0) k)
  | inr e ↦
      let k : ◌≡◌ {A = Bool × List ℕ} (true, valid ++ now ∷ []) (true, kept) = rw e at h in
      (sym (ap (λ (p : Bool × List ℕ). p.1) k), ground arith)
]

refused-Agrees :
    (window maximum now : ℕ) (stored kept log : List ℕ)
    → Agrees window maximum now stored log
    → attempted now window maximum stored ≡ (false, kept)
    → Agrees window maximum now kept log
refused-Agrees window maximum now stored kept log h e =
    let same = refused now maximum (select (is_recent now window) stored) kept e in
    record {
      agree = λ later k.
          ap (λ ts. select (is_recent later window) ts) same
          ∙ select_later now later window stored k
          ∙ h.agree later k;
      bound = h.bound;
    }

admitted-Agrees :
    (window maximum now : ℕ) (stored kept log : List ℕ)
    → Agrees window maximum now stored log
    → attempted now window maximum stored ≡ (true, kept)
    → 1 ≤ window
    → Agrees window maximum now kept (log ++ now ∷ [])
admitted-Agrees window maximum now stored kept log h e open_window =
    let p = admitted now maximum (select (is_recent now window) stored) kept e in
    let room : length (select (is_recent now window) log) < maximum =
      rw (h.agree now (omega arith)) at p.1 in
    record {
      agree = λ later k.
          ap (λ ts. select (is_recent later window) ts) p.0
          ∙ select-append (is_recent later window) (select (is_recent now window) stored) (now ∷ [])
          ∙ ap (λ ts. ts ++ select (is_recent later window) (now ∷ []))
              (select_later now later window stored k ∙ h.agree later k)
          ∙ sym (select-append (is_recent later window) log (now ∷ []));
      bound =
          rw
            (
              select-append (is_recent now window) log (now ∷ []),
              length-append (select (is_recent now window) log)
                  (select (is_recent now window) (now ∷ [])),
            )
            (omega (arith, room, one));
    }
  where
    one : length (select (is_recent now window) (now ∷ [])) ≤ 1
    one = ground arith

stored_same :
    (m : Attempts) (key : String) (ts : List ℕ) → attempts_of (m ++ (key, ts) ∷ []) key ≡ ts
stored_same m key ts = ap or_nil (set_same m key ts)

reach-Agrees :
    (key : String) (window maximum now : ℕ) (m : Attempts) (log : List ℕ)
    → Reach key window maximum now m log
    → Agrees window maximum now (attempts_of m key) log
reach-Agrees key window maximum now m log (start t) = record {
  agree = λ later k. refl;
  bound = omega arith;
}
reach-Agrees key window maximum now m log (admit before t n after old past le e) =
    let c = check-Checks key window maximum now n true m e in
    let h =
      passed window maximum before now (attempts_of n key) old le
        (reach-Agrees key window maximum before n old past) in
    rw (c.change, stored_same n key c.kept)
      (admitted-Agrees window maximum now (attempts_of n key) c.kept old h c.attempt c.open_window)
reach-Agrees key window maximum now m log (refuse before t n after old past le e) =
    let c = check-Checks key window maximum now n false m e in
    let h =
      passed window maximum before now (attempts_of n key) log le
        (reach-Agrees key window maximum before n log past) in
    rw (c.change, stored_same n key c.kept)
      (refused-Agrees window maximum now (attempts_of n key) c.kept log h c.attempt)
reach-Agrees key window maximum now m log
      (check_other before t w most other b n after old past le distinct e) =
    let c = check-Checks other w most now n b m e in
    let h =
      passed window maximum before now (attempts_of n key) log le
        (reach-Agrees key window maximum before n log past) in
    rw (c.change, set_other n key other c.kept distinct) h

-- Whatever checks of this and of other keys were made, at times that do not go back, no more attempts
-- under a key are admitted within the window that ends at the latest check than its maximum, where the
-- key has always the same window and maximum.
pub window_bound :
    (key : String) (window maximum now : ℕ) (m : Attempts) (log : List ℕ)
    → Reach key window maximum now m log
    → length (select (is_recent now window) log) ≤ maximum
window_bound key window maximum now m log past =
    (reach-Agrees key window maximum now m log past).bound

full :
    (now maximum : ℕ) (valid kept : List ℕ)
    → answered now maximum valid ≡ (false, kept)
    → maximum ≤ length valid
full now maximum valid kept h = elim (Bool-cases (leb maximum (length valid))) [
  | inl e ↦ ground arith
  | inr e ↦
      let k : ◌≡◌ {A = Bool × List ℕ} (true, valid ++ now ∷ []) (false, kept) = rw e at h in
      cc (ap (λ (p : Bool × List ℕ). p.0) k)
]

-- After any such checks, an attempt is refused only if the window that ends with it holds exactly as many
-- admitted attempts as the maximum: none is refused too early.
pub refused_full :
    (key : String) (window maximum before now : ℕ) (m after : Attempts) (log : List ℕ)
    → Reach key window maximum before m log
    → before ≤ now
    → check key (nat window) (nat maximum) (nat now) m ≡ ok (false, after)
    → length (select (is_recent now window) log) ≡ maximum
refused_full key window maximum before now m after log past le e =
    let c = check-Checks key window maximum now m false after e in
    let h =
      passed window maximum before now (attempts_of m key) log le
        (reach-Agrees key window maximum before m log past) in
    let k = full now maximum (select (is_recent now window) (attempts_of m key)) c.kept c.attempt in
    let same = ap (λ (ts : List ℕ). length ts) (h.agree now (omega arith)) in
    omega (arith, k, same, h.bound)
