-- ===== src/Issuance/Replay.antt =====
-- A request that repeats the idempotency key of an issuance.
use stablecoin_infrastructur.Base.{
  ℕ, ◌≡◌, refl, true, Option, some, ap, sym, subst, ◌∙◌, arith, eq_iff,
}
use stablecoin_infrastructur.Models.Refs.{Ref, key, minted, same_ref, truthy}
use stablecoin_infrastructur.Models.Rows.{Account, TokenIssuance}
use stablecoin_infrastructur.Shared.Session.{World, Result, ok, err, value_error, not_enough_values}
use stablecoin_infrastructur.Shared.Money.{normalize}
use stablecoin_infrastructur.Issuance.{
  Issued, issued, existing_issuance, IssueRequest, book_issuance, issue,
}
use stablecoin_infrastructur.Issuance.Routes.{IssuanceResponse, answer, issue_tokens}
use stablecoin_infrastructur.Issuance.Postings.{issued_row, issue-new, issue_new-Passed}
use stablecoin_infrastructur.Issuance.Effects.{answer-Answered}
use stablecoin_infrastructur.Shared.Tables.{chosen_ref}

pub same_ref_refl : (r : Ref) → same_ref r r ≡ true
same_ref_refl (key s) = (eq_iff s s).1 refl
same_ref_refl (minted p n) = ground (arith, (eq_iff p p).1 refl)

-- The booked row is found under its reference.
book_issuance-found :
    (req : IssueRequest) (amount : ℕ) (k : Option Ref) (account : Account) (ref : Ref) (w : World)
    (x : Issued)
    → (book_issuance req amount k account ref w).0 ≡ ok x
    → existing_issuance (some ref) (book_issuance req amount k account ref w).1.db
      ≡ some (issued_row x)
unfolding book_issuance
book_issuance-found req amount k account ref w x h = ground (arith, same_ref_refl ref)

-- After a successful issuance under a key, the key is found.
issue_tokens-found :
    (req : IssueRequest) (w : World) (resp : IssuanceResponse) (k : Ref)
    → truthy req.idempotency_key ≡ some k
    → (issue_tokens req w).0 ≡ ok resp
    → (i : TokenIssuance) × (existing_issuance
          (truthy req.idempotency_key)
          (issue_tokens req w).1.db
        ≡ some i)
      × (amount : ℕ) × (normalize req.amount ≡ some amount)
issue_tokens-found req w resp k given h =
    let a =
      answer-Answered req.account_id req.currency (issue req) w (issue req w) resp refl
        (unfold issue_tokens in h) in
    let committed : (issue_tokens req w).1.db ≡ (issue req w).1.db =
      unfold issue_tokens in a.committed in
    let (amount, e, new) = issue-new req w a.row a.receipt a.fiat_leg a.returned in
    let p =
      issue_new-Passed req amount w (issued a.row a.receipt a.fiat_leg)
        (ap (λ (o : Result Issued × World). o.0) (sym new) ∙ a.returned) in
    let booked = ap (λ (o : Result Issued × World). o.0) (sym (new ∙ p.books)) ∙ a.returned in
    let chosen : p.ref ≡ k = p.chosen ∙ ap (λ o. chosen_ref o "ISS" w.next_uuid) given in
    let found =
      book_issuance-found req amount req.idempotency_key p.account p.ref p.before _ booked in
    (
      a.row,
      rw (given, committed, new, p.books)
          (subst
            (λ r.
              existing_issuance (some r)
                (book_issuance req amount req.idempotency_key p.account p.ref p.before).1.db
              ≡ some a.row)
            chosen found),
      amount,
      e,
    )

-- A request whose key is found raises, and leaves the database alone.
issue_tokens-existing :
    (req : IssueRequest) (v : World) (i : TokenIssuance) (amount : ℕ)
    → existing_issuance (truthy req.idempotency_key) v.db ≡ some i
    → normalize req.amount ≡ some amount
    → ((issue_tokens req v).0 ≡ err (value_error not_enough_values))
      × ((issue_tokens req v).1.db ≡ v.db)
unfolding issue_tokens issue answer
issue_tokens-existing req v i amount found e = ground arith

-- Repeating a successful issuance under its key mints nothing, and raises: the pair that
-- `_issue_tokens` returns for a known reference is unpacked into three names.
pub issue_tokens-replay :
    (req : IssueRequest) (w : World) (resp : IssuanceResponse) (k : Ref)
    → truthy req.idempotency_key ≡ some k
    → (issue_tokens req w).0 ≡ ok resp
    → let w' = (issue_tokens req w).1 in
      ((issue_tokens req w').0 ≡ err (value_error not_enough_values))
      × ((issue_tokens req w').1.db ≡ w'.db)
issue_tokens-replay req w resp k given h =
    let (i, found, amount, e) = issue_tokens-found req w resp k given h in
    issue_tokens-existing req (issue_tokens req w).1 i amount found e
