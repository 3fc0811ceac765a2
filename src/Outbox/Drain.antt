-- ===== src/Outbox/Drain.antt =====
-- Batches whose sends all succeed.
use mathlib.Core.List.{append-nil, append_assoc}
use stablecoin_infrastructur.Base.{
  ℕ, ◌+◌, ◌*◌, ◌≤◌, ◌≡◌, inl, inr, refl, sym, ap, subst, ◌∙◌, Bool, true, false, not, ◌||◌, List,
  [], ◌∷◌, ◌++◌, map, arith, ◌==◌, if◌then◌else◌, length, select, take, Bool-cases, zero, suc,
}
use stablecoin_infrastructur.Models.Rows.{OutboxEvent}
use stablecoin_infrastructur.Outbox.{
  Message, message_of, SendOutcome, acknowledged, Outbox, is_unpublished, oldest_first, pending,
  fetch, send_all, is_among, mark_published, publish_batch, batch_size,
}
use stablecoin_infrastructur.Outbox.Delivery.{send_all_next}

abbrev steady : OutboxEvent → SendOutcome
steady r = acknowledged

abbrev pub drop : ℕ → List OutboxEvent → List OutboxEvent
drop zero xs = xs
drop (suc n) [] = []
drop (suc n) (x ∷ xs) = drop n xs

-- No two of the rows have one id.
abbrev pub DistinctIds : List OutboxEvent → Type 0
DistinctIds [] = Unit {0}
DistinctIds (r ∷ rs) = (is_among rs r ≡ false) × DistinctIds rs

send_all-steady :
    (rs : List OutboxEvent) (broker : List Message)
    → send_all steady rs broker ≡ (true, broker ++ map message_of rs)
send_all-steady [] broker = unfold send_all in ap (λ l. (true, l)) (sym (append-nil broker))
send_all-steady (r ∷ rs) broker =
    send_all_next steady r rs broker refl
    ∙ send_all-steady rs (broker ++ (message_of r ∷ []))
    ∙ ap (λ l. (true, l)) (append_assoc broker (message_of r ∷ []) (map message_of rs))

-- Marking takes the batch out of what is unpublished.
select-mark_published :
    (now : ℕ) (batch rows : List OutboxEvent)
    → select is_unpublished (mark_published now batch rows)
      ≡ select (λ r. not (is_among batch r)) (select is_unpublished rows)
select-mark_published now batch [] = refl
select-mark_published now batch (r ∷ rows) = elim (Bool-cases (is_among batch r)) [
  | inl y ↦ elim (Bool-cases (is_unpublished r)) [
    | inl u ↦ rw (y, u, y) (select-mark_published now batch rows)
    | inr v ↦ rw (y, v) (select-mark_published now batch rows)
  ]
  | inr n ↦ elim (Bool-cases (is_unpublished r)) [
    | inl u ↦ rw (n, u, n) (ap (λ l. r ∷ l) (select-mark_published now batch rows))
    | inr v ↦ rw (n, v) (select-mark_published now batch rows)
  ]
]

select-append :
    (p : OutboxEvent → Bool) (xs ys : List OutboxEvent)
    → select p (xs ++ ys) ≡ select p xs ++ select p ys
select-append p [] ys = refl
select-append p (x ∷ xs) ys = elim (Bool-cases (p x)) [
  | inl y ↦ rw y (ap (λ l. x ∷ l) (select-append p xs ys))
  | inr n ↦ rw n (select-append p xs ys)
]

select-oldest_first :
    (p : OutboxEvent → Bool) (rows : List OutboxEvent)
    → oldest_first (select p rows) ≡ select p (oldest_first rows)
unfolding oldest_first
select-oldest_first p [] = refl
select-oldest_first p (r ∷ rows) = elim (Bool-cases (p r)) [
  | inl y ↦
      rw (select-append p (oldest_first rows) (r ∷ []), y)
        (ap (λ l. l ++ (r ∷ [])) (select-oldest_first p rows))
  | inr n ↦
      rw
        (select-append p (oldest_first rows) (r ∷ []), n, append-nil (select p (oldest_first rows)))
        (select-oldest_first p rows)
]

select_all : (rows : List OutboxEvent) → select (λ r. true) rows ≡ rows
select_all [] = refl
select_all (r ∷ rows) = ap (λ l. r ∷ l) (select_all rows)

equal_self : (n : ℕ) → (n == n) ≡ true
equal_self n = ground arith

apart :
    (a b : ℕ) (q rest : Bool) → ((b == a) || rest) ≡ false → (((a == b) || q) ≡ q) × (rest ≡ false)
apart a b q rest h = (ground arith, ground arith)

select_apart :
    (x : OutboxEvent) (q : OutboxEvent → Bool) (rows : List OutboxEvent)
    → is_among rows x ≡ false
    → select (λ r. not ((x.id == r.id) || q r)) rows ≡ select (λ r. not (q r)) rows
select_apart x q [] h = refl
select_apart x q (r ∷ rows) h =
    let (same, later) = apart x.id r.id (q r) (is_among rows x) h in
    rw same (ap (λ l. if not (q r) then r ∷ l else l) (select_apart x q rows later))

-- Without the first rows of a list with distinct ids, the rest is left.
select-take :
    (n : ℕ) (rows : List OutboxEvent)
    → DistinctIds rows
    → select (λ r. not (is_among (take n rows) r)) rows ≡ drop n rows
select-take zero rows d = select_all rows
select-take (suc n) [] d = refl
select-take (suc n) (x ∷ rows) d =
    rw (equal_self x.id) (select_apart x (is_among (take n rows)) rows d.0 ∙ select-take n rows d.1)

drop-DistinctIds : (n : ℕ) (rows : List OutboxEvent) → DistinctIds rows → DistinctIds (drop n rows)
drop-DistinctIds zero rows d = d
drop-DistinctIds (suc n) [] d = d
drop-DistinctIds (suc n) (x ∷ rows) d = drop-DistinctIds n rows d.1

length-drop : (n m : ℕ) (rows : List OutboxEvent) → length rows ≤ n + m → length (drop n rows) ≤ m
length-drop zero m rows h = omega (arith, h)
length-drop (suc n) m [] h = omega arith
length-drop (suc n) m (x ∷ rows) h = length-drop n m rows (omega (arith, h))

map_parts :
    (n : ℕ) (rows : List OutboxEvent)
    → map message_of (take n rows) ++ map message_of (drop n rows) ≡ map message_of rows
map_parts zero rows = refl
map_parts (suc n) [] = refl
map_parts (suc n) (x ∷ rows) = ap (λ l. message_of x ∷ l) (map_parts n rows)

-- One batch whose sends all succeed.
publish_steady :
    (now : ℕ) (o : Outbox)
    → (publish_batch steady now o).1 ≡ record {
      rows = mark_published now (fetch o.rows) o.rows;
      broker = o.broker ++ map message_of (fetch o.rows);
    }
unfolding publish_batch
publish_steady now o = rw (send_all-steady (fetch o.rows) o.broker) refl

pending-mark_published :
    (now : ℕ) (rows : List OutboxEvent)
    → DistinctIds (pending rows)
    → pending (mark_published now (fetch rows) rows) ≡ drop batch_size (pending rows)
pending-mark_published now rows d =
    ap oldest_first (select-mark_published now (fetch rows) rows)
    ∙ select-oldest_first (λ r. not (is_among (fetch rows) r)) (select is_unpublished rows)
    ∙ select-take batch_size (pending rows) d

-- Batch after batch.
unfoldable pub drain : (batches now : ℕ) → Outbox → Outbox
drain zero now o = o
drain (suc n) now o = drain n now (publish_batch steady now o).1

drained :
    (n now : ℕ) (o : Outbox) (rows : List OutboxEvent)
    → pending o.rows ≡ rows
    → DistinctIds rows
    → length rows ≤ n * batch_size
    → (pending (drain n now o).rows ≡ [])
      × ((drain n now o).broker ≡ o.broker ++ map message_of rows)
unfolding drain
drained zero now o [] same d h = (same, sym (append-nil o.broker))
drained zero now o (x ∷ rows) same d h = absurd (omega (arith, h))
drained (suc n) now o rows same d h =
    let after = publish_steady now o in
    let rest : pending (mark_published now (fetch o.rows) o.rows) ≡ drop batch_size rows =
      pending-mark_published now o.rows (subst DistinctIds (sym same) d)
      ∙ ap (drop batch_size) same in
    let (empty, broker) =
      drained n now
        (record {
          rows = mark_published now (fetch o.rows) o.rows;
          broker = o.broker ++ map message_of (fetch o.rows);
        })
        (drop batch_size rows) rest (drop-DistinctIds batch_size rows d)
        (length-drop batch_size (n * batch_size) rows (omega (arith, h))) in
    subst
      (λ v.
        (pending (drain n now v).rows ≡ [])
        × ((drain n now v).broker ≡ o.broker ++ map message_of rows))
      (sym after)
      (
        empty,
        broker
            ∙ append_assoc o.broker (map message_of (fetch o.rows))
                (map message_of (drop batch_size rows))
            ∙ ap
                (λ l.
                  o.broker
                  ++ (map message_of (take batch_size l) ++ map message_of (drop batch_size rows)))
                same
            ∙ ap (λ l. o.broker ++ l) (map_parts batch_size rows),
      )

-- If all sends succeed, as many batches as are needed for the rows that wait, 100 at a time, publish
-- them all: none is left, and each message went to the broker once, in the order of the rows.
pub drain-pending :
    (n now : ℕ) (o : Outbox)
    → DistinctIds (pending o.rows)
    → length (pending o.rows) ≤ n * batch_size
    → (pending (drain n now o).rows ≡ [])
      × ((drain n now o).broker ≡ o.broker ++ map message_of (pending o.rows))
drain-pending n now o d h = drained n now o (pending o.rows) refl d h
