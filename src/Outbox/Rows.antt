-- ===== src/Outbox/Rows.antt =====
-- The rows that a batch takes are rows of the table.
use stablecoin_infrastructur.Base.{
  ℕ, ◌≡◌, ◌⊎◌, inl, inr, ap, subst, Bool, List, [], ◌∷◌, ◌++◌, if◌then◌else◌, select, take,
  Bool-cases, zero, suc,
}
use stablecoin_infrastructur.Models.Rows.{OutboxEvent}
use stablecoin_infrastructur.Outbox.{is_unpublished, oldest_first, pending, fetch, batch_size}

abbrev pub In : {A : Type 0} → A → List A → Type 0
In a [] = ⊥
In a (x ∷ xs) = (x ≡ a) ⊎ In a xs

pub In-left : {A : Type 0} (a : A) (xs ys : List A) → In a xs → In a (xs ++ ys)
In-left a [] ys h = absurd h
In-left a (x ∷ xs) ys (inl e) = inl e
In-left a (x ∷ xs) ys (inr h) = inr (In-left a xs ys h)

pub In-right : {A : Type 0} (a : A) (xs ys : List A) → In a ys → In a (xs ++ ys)
In-right a [] ys h = h
In-right a (x ∷ xs) ys h = inr (In-right a xs ys h)

In-append : {A : Type 0} (a : A) (xs ys : List A) → In a (xs ++ ys) → In a xs ⊎ In a ys
In-append a [] ys h = inr h
In-append a (x ∷ xs) ys (inl e) = inl (inl e)
In-append a (x ∷ xs) ys (inr h) = elim (In-append a xs ys h) [ inl l ↦ inl (inr l) | inr r ↦ inr r ]

In-select :
    (p : OutboxEvent → Bool) (a : OutboxEvent) (xs : List OutboxEvent)
    → In a (select p xs)
    → In a xs
In-select p a [] h = h
In-select p a (x ∷ xs) h = elim (Bool-cases (p x)) [
  | inl y ↦ elim (subst (λ l. In a l) (ap (λ b. if b then x ∷ select p xs else select p xs) y) h) [
    | inl e ↦ inl e
    | inr l ↦ inr (In-select p a xs l)
  ]
  | inr n ↦ inr (
      In-select p a xs
        (subst (λ l. In a l) (ap (λ b. if b then x ∷ select p xs else select p xs) n) h))
]

In-oldest_first : (a : OutboxEvent) (xs : List OutboxEvent) → In a (oldest_first xs) → In a xs
unfolding oldest_first
In-oldest_first a [] h = h
In-oldest_first a (x ∷ xs) h = elim (In-append a (oldest_first xs) (x ∷ []) h) [
  | inl l ↦ inr (In-oldest_first a xs l)
  | inr (inl e) ↦ inl e
  | inr (inr no_) ↦ absurd no_
]

In-take : (n : ℕ) (a : OutboxEvent) (xs : List OutboxEvent) → In a (take n xs) → In a xs
In-take zero a xs h = absurd h
In-take (suc n) a [] h = h
In-take (suc n) a (x ∷ xs) (inl e) = inl e
In-take (suc n) a (x ∷ xs) (inr h) = inr (In-take n a xs h)

pub In-fetch : (a : OutboxEvent) (rows : List OutboxEvent) → In a (fetch rows) → In a rows
In-fetch a rows h =
    In-select is_unpublished a rows
      (In-oldest_first a (select is_unpublished rows) (In-take batch_size a (pending rows) h))
