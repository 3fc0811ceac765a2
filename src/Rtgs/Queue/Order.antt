-- ===== src/Rtgs/Queue/Order.antt =====
-- The order in which the worker takes signed settlements.
use stablecoin_infrastructur.Base.{
  ℕ, ◌≡◌, ◌≢◌, refl, List, [], ◌∷◌, ◌++◌, true, false, zero, suc, ap, subst, arith, Bool-cases, inl,
  inr, take, select,
}
use stablecoin_infrastructur.Models.Enums.{SettlementStatus, is_settlement}
use stablecoin_infrastructur.Models.Rows.{RtgsSettlement}
use stablecoin_infrastructur.Models.Database.{Database}
use stablecoin_infrastructur.Rtgs.Queue.{
  codes, codes_le, comes_before, insert_sorted, sort, dequeue,
}

abbrev pub All {ℓ} : {A : Type ℓ} → (A → Type 0) → List A → Type 0
All P [] = Unit {0}
All P (x ∷ xs) = P x × All P xs

-- Each settlement comes before all that follow it.
abbrev pub IsSorted : List RtgsSettlement → Type 0
IsSorted [] = Unit {0}
IsSorted (s ∷ ss) = All (λ r. comes_before s r ≡ true) ss × IsSorted ss

pub codes_le-total : (s t : List ℕ) → codes_le s t ≡ false → codes_le t s ≡ true
codes_le-total [] t h = cc
codes_le-total (a ∷ s) [] h = refl
codes_le-total (a ∷ s) (b ∷ t) h = ground (arith, codes_le-total s t)

pub codes_le_trans :
    (s t u : List ℕ) → codes_le s t ≡ true → codes_le t u ≡ true → codes_le s u ≡ true
codes_le_trans [] t u h k = refl
codes_le_trans (a ∷ s) [] u h k = cc
codes_le_trans (a ∷ s) (b ∷ t) [] h k = cc
codes_le_trans (a ∷ s) (b ∷ t) (c ∷ u) h k = ground (arith, codes_le_trans s t u)

comes_before-total : (a b : RtgsSettlement) → comes_before a b ≡ false → comes_before b a ≡ true
unfolding comes_before
comes_before-total a b h = ground (arith, codes_le-total (codes a.priority) (codes b.priority))

comes_before_trans :
    (a b c : RtgsSettlement)
    → comes_before a b ≡ true
    → comes_before b c ≡ true
    → comes_before a c ≡ true
unfolding comes_before
comes_before_trans a b c h k =
    let (p, q, r) =
      let t : List ℕ × List ℕ × List ℕ = (codes a.priority, codes b.priority, codes c.priority) in
      t in
    ground (
      arith,
      codes_le_trans p q r,
      codes_le_trans r q p,
      codes_le_trans q r p,
      codes_le_trans r p q,
    )

All-after :
    (s r : RtgsSettlement) (rs : List RtgsSettlement)
    → comes_before s r ≡ true
    → All (λ t. comes_before r t ≡ true) rs
    → All (λ t. comes_before s t ≡ true) rs
All-after s r [] h k = tt
All-after s r (t ∷ ts) h k = (comes_before_trans s r t h k.0, All-after s r ts h k.1)

All-insert_sorted :
    (P : RtgsSettlement → Type 0) (s : RtgsSettlement) (rs : List RtgsSettlement)
    → P s
    → All P rs
    → All P (insert_sorted s rs)
unfolding insert_sorted
All-insert_sorted P s [] h k = (h, tt)
All-insert_sorted P s (r ∷ rs) h k = elim (Bool-cases (comes_before s r)) [
  | inl e ↦ rw e (h, k)
  | inr e ↦ rw e (k.0, All-insert_sorted P s rs h k.1)
]

insert_sorted-IsSorted :
    (s : RtgsSettlement) (rs : List RtgsSettlement) → IsSorted rs → IsSorted (insert_sorted s rs)
unfolding insert_sorted
insert_sorted-IsSorted s [] h = (tt, tt)
insert_sorted-IsSorted s (r ∷ rs) h = elim (Bool-cases (comes_before s r)) [
  | inl e ↦ rw e ((e, All-after s r rs e h.0), h)
  | inr e ↦ rw e (
    All-insert_sorted (λ t. comes_before r t ≡ true) s rs (comes_before-total s r e) h.0,
    insert_sorted-IsSorted s rs h.1,
  )
]

sort-IsSorted : (ss : List RtgsSettlement) → IsSorted (sort ss)
unfolding sort
sort-IsSorted [] = tt
sort-IsSorted (s ∷ ss) = insert_sorted-IsSorted s (sort ss) (sort-IsSorted ss)

take-All :
    (P : RtgsSettlement → Type 0) (n : ℕ) (ss : List RtgsSettlement) → All P ss → All P (take n ss)
take-All P zero ss h = tt
take-All P (suc n) [] h = tt
take-All P (suc n) (s ∷ ss) h = (h.0, take-All P n ss h.1)

take-IsSorted : (n : ℕ) (ss : List RtgsSettlement) → IsSorted ss → IsSorted (take n ss)
take-IsSorted zero ss h = tt
take-IsSorted (suc n) [] h = tt
take-IsSorted (suc n) (s ∷ ss) h =
    (take-All (λ r. comes_before s r ≡ true) n ss h.0, take-IsSorted n ss h.1)

abbrev pub IsSigned : RtgsSettlement → Type 0
IsSigned s = is_settlement s.status SettlementStatus.signed ≡ true

sort-All : (P : RtgsSettlement → Type 0) (ss : List RtgsSettlement) → All P ss → All P (sort ss)
unfolding sort
sort-All P [] h = tt
sort-All P (s ∷ ss) h = All-insert_sorted P s (sort ss) h.0 (sort-All P ss h.1)

abbrev pub signed_rows : List RtgsSettlement → List RtgsSettlement
signed_rows = select (λ s. is_settlement s.status SettlementStatus.signed)

signed_rows-All : (ss : List RtgsSettlement) → All IsSigned (signed_rows ss)
signed_rows-All [] = tt
signed_rows-All (s ∷ ss) = elim (Bool-cases (is_settlement s.status SettlementStatus.signed)) [
  | inl e ↦ rw e (e, signed_rows-All ss)
  | inr e ↦ rw e (signed_rows-All ss)
]

-- What holds of all signed rows holds of the batch.
pub dequeue-All :
    (P : RtgsSettlement → Type 0) (db : Database)
    → All P (signed_rows db.rtgs_settlements)
    → All P (dequeue db)
unfolding dequeue
dequeue-All P db h =
    take-All P 10 (sort (signed_rows db.rtgs_settlements))
      (sort-All P (signed_rows db.rtgs_settlements) h)

-- A batch holds signed settlements only, in the order of their priorities' texts and then of arrival.
pub dequeue-IsSorted : (db : Database) → IsSorted (dequeue db) × All IsSigned (dequeue db)
unfolding dequeue
dequeue-IsSorted db = (
  take-IsSorted 10 (sort (signed_rows db.rtgs_settlements))
      (sort-IsSorted (signed_rows db.rtgs_settlements)),
  dequeue-All IsSigned db (signed_rows-All db.rtgs_settlements),
)

tail-IsSorted : (xs ys : List RtgsSettlement) → IsSorted (xs ++ ys) → IsSorted ys
tail-IsSorted [] ys h = h
tail-IsSorted (x ∷ xs) ys h = tail-IsSorted xs ys h.1

not_before_urgent :
    (b : RtgsSettlement) (ys : List RtgsSettlement)
    → b.priority ≡ "urgent"
    → All (λ r. comes_before b r ≡ true) ys
    → All (λ a. (a.priority ≢ "high") × (a.priority ≢ "normal") × (a.priority ≢ "low")) ys
unfolding comes_before
not_before_urgent b [] e h = tt
not_before_urgent b (a ∷ ys) e h = (
  (
    λ f. cc (h.0, ap codes e, ap codes f),
    λ f. cc (h.0, ap codes e, ap codes f),
    λ f. cc (h.0, ap codes e, ap codes f),
  ),
  not_before_urgent b ys e h.1,
)

-- What a batch takes after an urgent settlement is neither high nor normal nor low: the texts sort
-- "high", "low", "normal", "urgent", so urgent settlements are taken last.
pub dequeue-urgent_last :
    (db : Database) (xs ys : List RtgsSettlement) (b : RtgsSettlement)
    → dequeue db ≡ xs ++ (b ∷ ys)
    → b.priority ≡ "urgent"
    → All (λ a. (a.priority ≢ "high") × (a.priority ≢ "normal") × (a.priority ≢ "low")) ys
dequeue-urgent_last db xs ys b e u =
    not_before_urgent b ys u
      (tail-IsSorted xs (b ∷ ys) (subst IsSorted e (dequeue-IsSorted db).0)).0
