-- ===== src/Gateway/Limiter/Bound.antt =====
-- How many requests the limiter allows within one window.
use mathlib.Core.List.{append-nil, append_assoc}
use stablecoin_infrastructur.Base.{
  ℕ, ◌+◌, ◌≤◌, ◌≡◌, sym, ap, subst, ◌∙◌, String, Bool, true, false, ◌&&◌, List, [], ◌∷◌, ◌++◌, inl,
  inr, arith, ltb, leb, ltb→lt, str_eq, eq_iff, if◌then◌else◌, length, select, Bool-cases,
  length-append,
}
use stablecoin_infrastructur.Gateway.Limiter.{is_recent, answers}
use stablecoin_infrastructur.Gateway.Limiter.Window.{
  times_of, times_of_none, log_allows, log_answers, InOrder, fresh, answers-log_answers,
  times_of_one, times_of_other, times_of-append, select-append,
}

-- The requests that got the answer yes.
unfoldable pub passed : List Bool → List (String × ℕ) → List (String × ℕ)
passed (true ∷ bs) (r ∷ rs) = r ∷ passed bs rs
passed (false ∷ bs) (r ∷ rs) = passed bs rs
passed _ _ = []

-- A window may start at any time, not only at a multiple of its length.
abbrev pub in_window : (window start : ℕ) → ℕ → Bool
in_window w start t = leb start t && ltb t (start + w)

module _ (w n start : ℕ) (i : String) where
  abbrev count : List (String × ℕ) → ℕ
  count log = length (select (in_window w start) (times_of i log))

  -- What lies in a window that holds `now` is recent at `now`.
  window-recent :
      (now : ℕ) (ts : List ℕ)
      → in_window w start now ≡ true
      → length (select (in_window w start) ts) ≤ length (select (is_recent w now) ts)
  window-recent now [] h = omega arith
  window-recent now (t ∷ ts) h = ground (arith, window-recent now ts h)

  count-append : (log more : List (String × ℕ)) → count (log ++ more) ≡ count log + count more
  count-append log more =
      ap (λ ts. length (select (in_window w start) ts)) (times_of-append i log more)
      ∙ ap length (select-append (in_window w start) (times_of i log) (times_of i more))
      ∙ length-append (select (in_window w start) (times_of i log))
          (select (in_window w start) (times_of i more))

  count-one : (now : ℕ) → count ((i, now) ∷ []) ≡ (if in_window w start now then 1 else 0)
  count-one now = rw (times_of_one i now) (ground arith)

  count_own :
      (now : ℕ) (log : List (String × ℕ))
      → log_allows w n i now log ≡ true
      → count log ≤ n
      → count (log ++ ((i, now) ∷ [])) ≤ n
  unfolding log_allows
  count_own now log h le = elim (Bool-cases (in_window w start now)) [
    | inl in_ ↦ omega (
      arith,
      count-append log ((i, now) ∷ []),
      count-one now ∙ ap (λ b. if b then 1 else 0) in_,
      window-recent now (times_of i log) in_,
      ltb→lt (length (select (is_recent w now) (times_of i log))) n h,
    )
    | inr out ↦ omega (
      arith,
      le,
      count-append log ((i, now) ∷ []),
      count-one now ∙ ap (λ b. if b then 1 else 0) out,
    )
  ]

  count-allowed :
      (k : String) (now : ℕ) (log : List (String × ℕ))
      → log_allows w n k now log ≡ true
      → count log ≤ n
      → count (log ++ ((k, now) ∷ [])) ≤ n
  count-allowed k now log h le = elim (Bool-cases (str_eq k i)) [
    | inl e ↦
        let same : k ≡ i = (eq_iff k i).0 e in
        subst (λ j. count (log ++ ((j, now) ∷ [])) ≤ n) (sym same)
          (count_own now log (subst (λ j. log_allows w n j now log ≡ true) same h) le)
    | inr d ↦ omega (
      arith,
      le,
      count-append log ((k, now) ∷ []),
      ap (λ ts. length (select (in_window w start) ts)) (times_of_other k i now d),
    )
  ]

  count-passed :
      (reqs log : List (String × ℕ))
      → count log ≤ n
      → count (log ++ passed (log_answers w n reqs log) reqs) ≤ n
  unfolding log_answers passed
  count-passed [] log le = rw (append-nil log) le
  count-passed ((k, now) ∷ rest) log le = elim (Bool-cases (log_allows w n k now log)) [
    | inl yes_ ↦
        rw
          (
            yes_,
            ← append_assoc log ((k, now) ∷ [])
                (passed (log_answers w n rest (log ++ ((k, now) ∷ []))) rest),
          )
          (count-passed rest (log ++ ((k, now) ∷ [])) (count-allowed k now log yes_ le))
    | inr no_ ↦ rw no_ (count-passed rest log le)
  ]

-- If the clock does not go back, a new limiter allows no key more than `max_req` requests within any
-- stretch of time as long as the window, wherever it starts.
pub answers_bounded :
    (w n start : ℕ) (i : String) (reqs : List (String × ℕ))
    → InOrder 0 reqs
    → length (select (in_window w start) (times_of i (passed (answers reqs (fresh w n)) reqs))) ≤ n
answers_bounded w n start i reqs o =
    rw (answers-log_answers w n reqs o)
      (count-passed w n start i reqs [] (rw (times_of_none i) (omega arith)))
