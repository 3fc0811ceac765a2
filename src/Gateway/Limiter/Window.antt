-- ===== src/Gateway/Limiter/Window.antt =====
-- The limiter against a log of all requests that were allowed, which forgets nothing.
use stablecoin_infrastructur.Base.{
  ℕ, ◌≤◌, ◌≡◌, refl, sym, ap, subst, ◌∙◌, String, Bool, true, false, List, [], ◌∷◌, ◌++◌, inl, inr,
  arith, ltb, leb, str_eq, eq_iff, if◌then◌else◌, length, select, Bool-cases,
}
use mathlib.Core.List.{append-nil}
use stablecoin_infrastructur.Gateway.Limiter.{
  Buckets, bucket, put, SimpleRateLimiter, is_recent, purged, is_allowed, answers,
}

-- The times at which a key was allowed.
unfoldable pub times_of : String → List (String × ℕ) → List ℕ
times_of k [] = []
times_of k ((j, t) ∷ log) = if str_eq j k then t ∷ times_of k log else times_of k log

-- A request is allowed if fewer than the limit were allowed to its key within the window before it.
unfoldable pub log_allows : (window max_req : ℕ) → String → ℕ → List (String × ℕ) → Bool
unfolding times_of
log_allows w n k now log = ltb (length (select (is_recent w now) (times_of k log))) n

unfoldable pub log_answers :
    (window max_req : ℕ) → List (String × ℕ) → (log : List (String × ℕ)) → List Bool
unfolding log_allows
log_answers w n [] log = []
log_answers w n ((k, now) ∷ rest) log =
    let yes_ = log_answers w n rest (log ++ ((k, now) ∷ [])) in
    let no_ = log_answers w n rest log in
    if log_allows w n k now log then true ∷ yes_ else false ∷ no_

-- The clock does not go back.
abbrev pub InOrder : ℕ → List (String × ℕ) → Type 0
InOrder last [] = Unit {0}
InOrder last ((k, now) ∷ rest) = (last ≤ now) × InOrder now rest

bucket_self : (k : String) (ts : List ℕ) (b : Buckets) → bucket k (put k ts b) ≡ ts
unfolding put
bucket_self k ts [] = ground (arith, eq_iff k k)
bucket_self k ts ((j, us) ∷ b) = ground (arith, eq_iff k k, eq_iff j k, bucket_self k ts b)

bucket_other :
    (k i : String) (ts : List ℕ) (b : Buckets)
    → str_eq k i ≡ false
    → bucket i (put k ts b) ≡ bucket i b
unfolding put
bucket_other k i ts [] n = ground arith
bucket_other k i ts ((j, us) ∷ b) n =
    ground (arith, eq_iff k i, eq_iff j k, eq_iff j i, bucket_other k i ts b)

pub times_of_none : (k : String) → times_of k [] ≡ []
unfolding times_of
times_of_none k = refl

pub times_of_one : (k : String) (t : ℕ) → times_of k ((k, t) ∷ []) ≡ t ∷ []
unfolding times_of
times_of_one k t = ground (arith, eq_iff k k)

pub times_of_other : (k i : String) (t : ℕ) → str_eq k i ≡ false → times_of i ((k, t) ∷ []) ≡ []
unfolding times_of
times_of_other k i t n = ground arith

pub times_of-append :
    (k : String) (log more : List (String × ℕ))
    → times_of k (log ++ more) ≡ times_of k log ++ times_of k more
unfolding times_of
times_of-append k [] more = refl
times_of-append k ((j, t) ∷ log) more = ground (arith, times_of-append k log more)

pub select-append :
    (p : ℕ → Bool) (xs ys : List ℕ) → select p (xs ++ ys) ≡ select p xs ++ select p ys
select-append p [] ys = refl
select-append p (x ∷ xs) ys = ground (arith, select-append p xs ys)

-- What is recent later is recent now.
select-select :
    (w now later : ℕ) (ts : List ℕ)
    → now ≤ later
    → select (is_recent w later) (select (is_recent w now) ts) ≡ select (is_recent w later) ts
select-select w now later [] h = refl
select-select w now later (t ∷ ts) h = ground (arith, select-select w now later ts)

-- The buckets agree with the log on what is recent, from some time on.
abbrev pub Agree : ℕ → SimpleRateLimiter → List (String × ℕ) → Type 0
Agree last l log =
    (k : String) (now : ℕ)
    → last ≤ now
    → select (is_recent l.window now) (bucket k l.buckets)
      ≡ select (is_recent l.window now) (times_of k log)

-- The bucket of the key that is served, and those of the others, stay in step with the log.
module _ (k : String) (now : ℕ) (added : List ℕ) (more : List (String × ℕ)) (last : ℕ)
    (l : SimpleRateLimiter) (log : List (String × ℕ)) (h : Agree last l log) where
  Agree-served :
      (later : ℕ)
      → last ≤ now
      → now ≤ later
      → times_of k more ≡ added
      → select (is_recent l.window later) (purged k now l ++ added)
        ≡ select (is_recent l.window later) (times_of k (log ++ more))
  Agree-served later le q own =
      select-append (is_recent l.window later) (purged k now l) added
      ∙ ap (λ ts. ts ++ select (is_recent l.window later) added)
          (select-select l.window now later (bucket k l.buckets) q
            ∙ h k later (omega (arith, le, q)))
      ∙ sym (select-append (is_recent l.window later) (times_of k log) added)
      ∙ ap (λ ts. select (is_recent l.window later) (times_of k log ++ ts)) (sym own)
      ∙ ap (select (is_recent l.window later)) (sym (times_of-append k log more))

  Agree-put :
      last ≤ now
      → times_of k more ≡ added
      → ((i : String) → str_eq k i ≡ false → times_of i more ≡ [])
      → Agree now (record l { buckets = put k (purged k now l ++ added) l.buckets }) (log ++ more)
  Agree-put le own others i later q = elim (Bool-cases (str_eq k i)) [
    | inl e ↦
        subst
          (λ j.
            select (is_recent l.window later) (bucket j (put k (purged k now l ++ added) l.buckets))
            ≡ select (is_recent l.window later) (times_of j (log ++ more)))
          ((eq_iff k i).0 e)
          (ap (select (is_recent l.window later))
              (bucket_self k (purged k now l ++ added) l.buckets)
            ∙ Agree-served later le q own)
    | inr n ↦
        ap (select (is_recent l.window later))
          (bucket_other k i (purged k now l ++ added) l.buckets n)
        ∙ h i later (omega (arith, le, q))
        ∙ ap (select (is_recent l.window later)) (
            sym (
              times_of-append i log more
              ∙ ap (λ ts. times_of i log ++ ts) (others i n)
              ∙ append-nil (times_of i log)))
  ]

refused :
    (k : String) (now : ℕ) (l : SimpleRateLimiter)
    → leb l.max_req (length (purged k now l)) ≡ true
    → is_allowed k now l ≡ (false, record l { buckets = put k (purged k now l ++ []) l.buckets })
unfolding is_allowed
refused k now l h =
    ground arith
    ∙ ap {A = List ℕ} (λ ts. (false, record l { buckets = put k ts l.buckets }))
        (sym (append-nil (purged k now l)))

served :
    (k : String) (now : ℕ) (l : SimpleRateLimiter)
    → leb l.max_req (length (purged k now l)) ≡ false
    → is_allowed k now l
      ≡ (true, record l { buckets = put k (purged k now l ++ (now ∷ [])) l.buckets })
unfolding is_allowed
served k now l h = ground arith

-- What the limiter answers is what the log allows.
Agree-answers :
    (last : ℕ) (l : SimpleRateLimiter) (log reqs : List (String × ℕ))
    → InOrder last reqs
    → Agree last l log
    → answers reqs l ≡ log_answers l.window l.max_req reqs log
unfolding answers log_answers
Agree-answers last l log [] o h = refl
Agree-answers last l log ((k, now) ∷ rest) (le, o) h =
    let same : length (purged k now l) ≡ length (select (is_recent l.window now) (times_of k log)) =
      ap length (h k now le) in
    elim (Bool-cases (leb l.max_req (length (purged k now l)))) [
      | inl full ↦ ground (
        arith,
        same,
        refused k now l full,
        Agree-answers now (record l { buckets = put k (purged k now l ++ []) l.buckets }) log rest o
            (subst (Agree now (record l { buckets = put k (purged k now l ++ []) l.buckets }))
              (append-nil log)
              (Agree-put k now [] [] last l log h le (times_of_none k) (λ i n. times_of_none i))),
      )
      | inr free ↦ ground (
        arith,
        same,
        served k now l free,
        Agree-answers now (record l { buckets = put k (purged k now l ++ (now ∷ [])) l.buckets })
            (log ++ ((k, now) ∷ [])) rest o
            (Agree-put k now (now ∷ []) ((k, now) ∷ []) last l log h le (times_of_one k now)
              (λ i n. times_of_other k i now n)),
      )
    ]

abbrev pub fresh : (window max_req : ℕ) → SimpleRateLimiter
fresh w n = record { window = w; max_req = n; buckets = [] }

-- If the clock does not go back, a new limiter gives to every sequence of requests, of any keys, the
-- answers of the unbounded log: a request is allowed exactly when fewer than `max_req` requests of its
-- key were allowed in the window before it. So what the limiter forgets does not matter, and refused
-- requests do not count.
pub answers-log_answers :
    (w n : ℕ) (reqs : List (String × ℕ))
    → InOrder 0 reqs
    → answers reqs (fresh w n) ≡ log_answers w n reqs []
answers-log_answers w n reqs o =
    Agree-answers 0 (fresh w n) [] reqs o
      (λ k now q. ap (select (is_recent w now)) (sym (times_of_none k)))
