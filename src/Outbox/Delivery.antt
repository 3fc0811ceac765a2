-- ===== src/Outbox/Delivery.antt =====
-- No row is marked whose message the broker lacks.
use stablecoin_infrastructur.Base.{
  ℕ, ◌≡◌, ◌⊎◌, inl, inr, refl, sym, ap, subst, ◌∙◌, Bool, true, false, List, [], ◌∷◌, ◌++◌, arith,
  ◌==◌, if◌then◌else◌, Bool-cases,
}
use stablecoin_infrastructur.Models.Rows.{OutboxEvent}
use stablecoin_infrastructur.Outbox.{
  Message, message_of, SendOutcome, acknowledged, failed, Outbox, is_unpublished, fetch, send_all,
  is_among, published, mark_published, publish_batch,
}
use stablecoin_infrastructur.Outbox.Rows.{In, In-left, In-right, In-fetch}

outcome_cases : (o : SendOutcome) → (o ≡ acknowledged) ⊎ ((b : Bool) × (o ≡ failed b))
outcome_cases acknowledged = inl refl
outcome_cases (failed b) = inr (b, refl)

module _ (producer : OutboxEvent → SendOutcome) where
  pub send_all_next :
      (r : OutboxEvent) (rs : List OutboxEvent) (broker : List Message)
      → producer r ≡ acknowledged
      → send_all producer (r ∷ rs) broker ≡ send_all producer rs (broker ++ (message_of r ∷ []))
  unfolding send_all
  send_all_next r rs broker h = ground arith

  send_all_stop :
      (r : OutboxEvent) (rs : List OutboxEvent) (broker : List Message) (b : Bool)
      → producer r ≡ failed b
      → send_all producer (r ∷ rs) broker
        ≡ (false, if b then broker ++ (message_of r ∷ []) else broker)
  unfolding send_all
  send_all_stop r rs broker b h = ground arith

  -- The broker loses nothing, and has the whole of a batch that came to its end.
  send_all-keeps :
      (rs : List OutboxEvent) (broker : List Message) (m : Message)
      → In m broker
      → In m (send_all producer rs broker).1
  send_all-keeps [] broker m h = unfold send_all in h
  send_all-keeps (r ∷ rs) broker m h = elim (outcome_cases (producer r)) [
    | inl ack ↦ rw (send_all_next r rs broker ack) (
        send_all-keeps rs (broker ++ (message_of r ∷ [])) m
          (In-left m broker (message_of r ∷ []) h))
    | inr (true, fails) ↦
        rw (send_all_stop r rs broker true fails) (In-left m broker (message_of r ∷ []) h)
    | inr (false, fails) ↦ rw (send_all_stop r rs broker false fails) h
  ]

  send_all-delivers :
      (rs : List OutboxEvent) (broker : List Message) (r : OutboxEvent)
      → (send_all producer rs broker).0 ≡ true
      → In r rs
      → In (message_of r) (send_all producer rs broker).1
  send_all-delivers [] broker r done h = absurd h
  send_all-delivers (s ∷ rs) broker r done h = elim (outcome_cases (producer s)) [
    | inr (b, fails) ↦
        absurd
          (cc (done, ap (λ (x : Bool × List Message). x.0) (send_all_stop s rs broker b fails)))
    | inl ack ↦
        let next = send_all_next s rs broker ack in
        rw next (elim h [
          | inl e ↦
              send_all-keeps rs (broker ++ (message_of s ∷ [])) (message_of r)
                (In-right (message_of r) broker (message_of s ∷ []) (inl (ap message_of e)))
          | inr later ↦
              send_all-delivers rs (broker ++ (message_of s ∷ [])) r
                (ap (λ (x : Bool × List Message). x.0) (sym next) ∙ done) later
        ])
  ]

-- The primary key.
abbrev pub UniqueIds : List OutboxEvent → Type 0
UniqueIds rows = (r s : OutboxEvent) → In r rows → In s rows → r.id ≡ s.id → r ≡ s

-- What is marked as published is with the broker.
abbrev pub Delivered : Outbox → Type 0
Delivered o =
    (r : OutboxEvent) → In r o.rows → is_unpublished r ≡ false → In (message_of r) o.broker

-- A row behind a marked one.
marked :
    (now : ℕ) (batch rows : List OutboxEvent) (r : OutboxEvent)
    → In r (mark_published now batch rows)
    → (s : OutboxEvent) × (In s rows) × ((if is_among batch s then published now s else s) ≡ r)
marked now batch [] r h = absurd h
marked now batch (s ∷ rows) r (inl e) = (s, inl refl, e)
marked now batch (s ∷ rows) r (inr h) = let (t, m, e) = marked now batch rows r h in (t, inr m, e)

among-In :
    (batch : List OutboxEvent) (r : OutboxEvent)
    → is_among batch r ≡ true
    → (s : OutboxEvent) × (In s batch) × (s.id ≡ r.id)
among-In [] r h = cc
among-In (t ∷ batch) r h = elim (Bool-cases (t.id == r.id)) [
  | inl y ↦ (t, inl refl, ground arith)
  | inr n ↦ let (s, m, e) = among-In batch r (ground (arith, n)) in (s, inr m, e)
]

marked-id :
    (now : ℕ) (b : Bool) (s r : OutboxEvent) → (if b then published now s else s) ≡ r → s.id ≡ r.id
marked-id now true s r e = ap (λ t. t.id) e
marked-id now false s r e = ap (λ t. t.id) e

mark_published-UniqueIds :
    (now : ℕ) (batch rows : List OutboxEvent)
    → UniqueIds rows
    → UniqueIds (mark_published now batch rows)
mark_published-UniqueIds now batch rows unique r s hr hs same =
    let (r', mr, er) = marked now batch rows r hr in
    let (s', ms, es) = marked now batch rows s hs in
    let one : r' ≡ s' = unique r' s' mr ms (
      marked-id now (is_among batch r') r' r er
      ∙ same
      ∙ sym (marked-id now (is_among batch s') s' s es)) in
    sym er ∙ ap (λ t. if is_among batch t then published now t else t) one ∙ es

module _ (producer : OutboxEvent → SendOutcome) (now : ℕ) (o : Outbox) where
  abbrev sent : Bool × List Message
  sent = send_all producer (fetch o.rows) o.broker

  published_all :
      sent.0 ≡ true
      → (publish_batch producer now o).1
        ≡ record { rows = mark_published now (fetch o.rows) o.rows; broker = sent.1 }
  unfolding publish_batch
  published_all h = ground (arith, h)

  published_none :
      sent.0 ≡ false → (publish_batch producer now o).1 ≡ record { rows = o.rows; broker = sent.1 }
  unfolding publish_batch
  published_none h = ground (arith, h)

  -- A marked row was marked before, or is one of the batch.
  mark-Delivered :
      sent.0 ≡ true
      → UniqueIds o.rows
      → Delivered o
      → Delivered (record { rows = mark_published now (fetch o.rows) o.rows; broker = sent.1 })
  mark-Delivered done unique before r h old =
      let (s, m, e) = marked now (fetch o.rows) o.rows r h in
      elim (Bool-cases (is_among (fetch o.rows) s)) [
        | inl y ↦
            let (t, inside, same) = among-In (fetch o.rows) s y in
            let one : t ≡ s = unique t s (In-fetch t o.rows inside) m same in
            subst (λ x. In x sent.1)
              (ap message_of one
                ∙ ap (λ b. message_of (if b then published now s else s)) (sym y)
                ∙ ap message_of e)
              (send_all-delivers producer (fetch o.rows) o.broker t done inside)
        | inr n ↦
            let kept : s ≡ r = ap (λ b. if b then published now s else s) (sym n) ∙ e in
            subst (λ x. In (message_of x) sent.1) kept
              (send_all-keeps producer (fetch o.rows) o.broker (message_of s)
                (before s m (ap is_unpublished kept ∙ old)))
      ]

  publish-Delivered :
      UniqueIds o.rows
      → Delivered o
      → UniqueIds (publish_batch producer now o).1.rows × Delivered (publish_batch producer now o).1
  publish-Delivered unique before = elim (Bool-cases sent.0) [
    | inl done ↦ rw (published_all done) (
      mark_published-UniqueIds now (fetch o.rows) o.rows unique,
      mark-Delivered done unique before,
    )
    | inr raised ↦ rw (published_none raised) (
      unique,
      λ r h old. send_all-keeps producer (fetch o.rows) o.broker (message_of r) (before r h old),
    )
  ]

-- A service commits a new row, or a batch is published with any outcome of its sends.
pub data Step (o : Outbox) : Outbox → Type 0 where
  inserts :
      (r : OutboxEvent)
      → is_unpublished r ≡ true
      → is_among o.rows r ≡ false
      → Step o (record { rows = r ∷ o.rows; broker = o.broker })
  publishes :
      (producer : OutboxEvent → SendOutcome) (now : ℕ) → Step o (publish_batch producer now o).1

pub data Reached : Outbox → Type 0 where
  at_start : Reached (record { rows = []; broker = [] })
  after : {o o' : Outbox} → Reached o → Step o o' → Reached o'

In-among :
    (rows : List OutboxEvent) (r s : OutboxEvent) → In s rows → s.id ≡ r.id → is_among rows r ≡ true
In-among [] r s h e = absurd h
In-among (t ∷ rows) r s (inl same) e = ground (arith, ap (λ x. x.id) same, e)
In-among (t ∷ rows) r s (inr h) e = ground (arith, In-among rows r s h e)

insert-UniqueIds :
    (r : OutboxEvent) (rows : List OutboxEvent)
    → is_among rows r ≡ false
    → UniqueIds rows
    → UniqueIds (r ∷ rows)
insert-UniqueIds r rows new unique a b (inl ea) (inl eb) same = sym ea ∙ eb
insert-UniqueIds r rows new unique a b (inl ea) (inr mb) same =
    absurd (cc (new, In-among rows r b mb (sym same ∙ ap (λ x. x.id) (sym ea))))
insert-UniqueIds r rows new unique a b (inr ma) (inl eb) same =
    absurd (cc (new, In-among rows r a ma (same ∙ ap (λ x. x.id) (sym eb))))
insert-UniqueIds r rows new unique a b (inr ma) (inr mb) same = unique a b ma mb same

insert-Delivered :
    (r : OutboxEvent) (o : Outbox)
    → is_unpublished r ≡ true
    → Delivered o
    → Delivered (record { rows = r ∷ o.rows; broker = o.broker })
insert-Delivered r o fresh before s (inl e) old = absurd (cc (fresh, old, ap is_unpublished e))
insert-Delivered r o fresh before s (inr m) old = before s m old

Step-Delivered :
    (o o' : Outbox) → Step o o' → UniqueIds o.rows → Delivered o → UniqueIds o'.rows × Delivered o'
Step-Delivered o _ (inserts r fresh new) unique before =
    (insert-UniqueIds r o.rows new unique, insert-Delivered r o fresh before)
Step-Delivered o _ (publishes producer now) unique before =
    publish-Delivered producer now o unique before

Reached-both : (o : Outbox) → Reached o → UniqueIds o.rows × Delivered o
Reached-both _ at_start = (λ r s h k e. absurd h, λ r h old. absurd h)
Reached-both o (after past step) =
    let (unique, before) = Reached-both _ past in Step-Delivered _ o step unique before

-- However insertions and batches follow each other, and whatever becomes of each send, no row is marked
-- as published whose message the broker lacks: an event that a service has committed is never lost.
pub Reached-Delivered : (o : Outbox) → Reached o → Delivered o
Reached-Delivered o h = (Reached-both o h).1
