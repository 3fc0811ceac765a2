-- ===== src/Issuance/Postings.antt =====
-- The postings of an issuance and of a redemption.
use stablecoin_infrastructur.Base.{
  ℕ, suc, ◌≡◌, ◌∷◌, ap, refl, sym, subst, ◌∙◌, true, Option, some, inl, inr, arith, Option-cases,
}
use stablecoin_infrastructur.Base.Int.{pos, ◌≤ℤ◌}
use stablecoin_infrastructur.Models.Enums.{CurrencyCode, omnibus_reserve, institution_liability}
use stablecoin_infrastructur.Models.Refs.{Ref, truthy}
use stablecoin_infrastructur.Models.Rows.{Account, TokenIssuance, Receipt, FiatReceipt}
use stablecoin_infrastructur.Shared.Session.{World, Result, ok}
use stablecoin_infrastructur.Shared.Money.{normalize}
use stablecoin_infrastructur.Shared.Journal.{get_balance}
use stablecoin_infrastructur.Shared.Journal.Posting.{Posting, Posted}
use stablecoin_infrastructur.Shared.Tables.{get_account, chosen_ref, uuid_after}
use stablecoin_infrastructur.Issuance.{
  Issued, existing, issued, IssueRequest, book_issuance, issue_new, issue, omnibus_account_id,
}

-- The pair of an issuance: debit OMNIBUS_RESERVE, credit INSTITUTION_LIABILITY.
abbrev pub issuance_posting : ℕ → CurrencyCode → ℕ → Posting
issuance_posting account_id currency amount = record {
  debit_account = omnibus_account_id;
  debit_coa = omnibus_reserve;
  credit_account = account_id;
  credit_coa = institution_liability;
  currency = currency;
  amount = amount;
}

abbrev pub issued_row : Issued → TokenIssuance
issued_row (existing i) = i
issued_row (issued i r f) = i

-- What a successful issuance has checked and done.
pub record IsIssuance (req : IssueRequest) (w : World) (i : TokenIssuance) (w' : World)
    : Type 0 where
  pub amount : normalize req.amount ≡ some i.amount
  pub account : Account
  pub found : get_account req.account_id w.db ≡ some account
  pub kyc_verified : account.kyc_verified ≡ true
  pub aml_cleared : account.aml_cleared ≡ true
  pub is_active : account.is_active ≡ true
  pub covered : pos i.amount ≤ℤ get_balance omnibus_account_id req.currency omnibus_reserve w.db
  pub posted : Posted (issuance_posting account.id req.currency i.amount) w.db w'.db

module _ (req : IssueRequest) (amount : ℕ) where
  -- The booking adds exactly the pair.
  book_issuance-Posted :
      (key : Option Ref) (account : Account) (ref : Ref) (w : World) (x : Issued)
      → (book_issuance req amount key account ref w).0 ≡ ok x
      → Posted
          (issuance_posting account.id req.currency amount)
          w.db
          (book_issuance req amount key account ref w).1.db
  unfolding book_issuance
  book_issuance-Posted key account ref w x h = record {
    journal_id = suc w.next_uuid;
    entry_type = "token_issuance";
    reference_id = w.next_uuid;
    entries = ground arith;
  }

  book_issuance-amount :
      (key : Option Ref) (account : Account) (ref : Ref) (w : World) (x : Issued)
      → (book_issuance req amount key account ref w).0 ≡ ok x
      → (issued_row x).amount ≡ amount
  unfolding book_issuance
  book_issuance-amount key account ref w x h = ground arith

  -- What the checks leave: a cleared account, a covered amount, and the booking.
  pub record Passed (w : World) : Type 0 where
    pub account : Account
    pub found : get_account req.account_id w.db ≡ some account
    pub kyc_verified : account.kyc_verified ≡ true
    pub aml_cleared : account.aml_cleared ≡ true
    pub is_active : account.is_active ≡ true
    pub covered : pos amount ≤ℤ get_balance omnibus_account_id req.currency omnibus_reserve w.db
    pub ref : Ref
    pub chosen : ref ≡ chosen_ref (truthy req.idempotency_key) "ISS" w.next_uuid
    pub before : World
    pub same : before.db ≡ w.db
    pub books :
        issue_new req amount w ≡ book_issuance req amount req.idempotency_key account ref before

  pub issue_new-Passed : (w : World) (x : Issued) → (issue_new req amount w).0 ≡ ok x → Passed w
  unfolding issue_new
  issue_new-Passed w x h = elim (Option-cases (get_account req.account_id w.db)) [
    | inl unknown ↦ absurd (ground arith)
    | inr (a, e) ↦ record {
      account = a;
      found = e;
      kyc_verified = ground arith;
      aml_cleared = ground arith;
      is_active = ground arith;
      covered = ground arith;
      ref = chosen_ref (truthy req.idempotency_key) "ISS" w.next_uuid;
      chosen = refl;
      before = record w {
        next_uuid = uuid_after (truthy req.idempotency_key) w.next_uuid;
        locks = (omnibus_account_id, req.currency) ∷ w.locks;
      };
      same = ground arith;
      books = ground arith;
    }
  ]

-- A new reference goes through `issue_new`.
pub issue-new :
    (req : IssueRequest) (w : World) (i : TokenIssuance) (r : Receipt) (f : Option FiatReceipt)
    → (issue req w).0 ≡ ok (issued i r f)
    → (amount : ℕ) × (normalize req.amount ≡ some amount) × (issue req w ≡ issue_new req amount w)
unfolding issue
issue-new req w i r f h = elim (Option-cases (normalize req.amount)) [
  | inl refused ↦ absurd (ground arith)
  | inr (amount, e) ↦ (amount, e, ground arith)
]

module _ (req : IssueRequest) (amount : ℕ) (w : World) (i : TokenIssuance) (r : Receipt)
    (f : Option FiatReceipt) (o : Result Issued × World) (h : o.0 ≡ ok (issued i r f)) where
  -- A result of the checks and the booking is an issuance.
  Passed-IsIssuance :
      normalize req.amount ≡ some amount
      → (p : Passed req amount w)
      → o ≡ book_issuance req amount req.idempotency_key p.account p.ref p.before
      → IsIssuance req w i o.1
  Passed-IsIssuance e p eo = record {
    amount = e ∙ ap some (sym same_amount);
    account = p.account;
    found = p.found;
    kyc_verified = p.kyc_verified;
    aml_cleared = p.aml_cleared;
    is_active = p.is_active;
    covered = rw same_amount p.covered;
    posted =
        subst (λ n. Posted (issuance_posting p.account.id req.currency n) w.db o.1.db)
          (sym same_amount)
          (subst (λ d. Posted (issuance_posting p.account.id req.currency amount) d o.1.db) p.same
            (subst
              (λ (z : Result Issued × World).
                Posted (issuance_posting p.account.id req.currency amount) p.before.db z.1.db)
              (sym eo) (book_issuance-Posted req amount _ p.account p.ref p.before _ booked)));
  }
    where
      booked :
          (book_issuance req amount req.idempotency_key p.account p.ref p.before).0
          ≡ ok (issued i r f)
      booked = ap (λ (z : Result Issued × World). z.0) (sym eo) ∙ h

      same_amount : i.amount ≡ amount
      same_amount = book_issuance-amount req amount _ p.account p.ref p.before _ booked

-- A successful issuance has checked the account and the reserve, and posted one pair.
pub issue-IsIssuance :
    (req : IssueRequest) (w : World) (i : TokenIssuance) (r : Receipt) (f : Option FiatReceipt)
    → (issue req w).0 ≡ ok (issued i r f)
    → IsIssuance req w i (issue req w).1
issue-IsIssuance req w i r f h =
    let (amount, e, new) = issue-new req w i r f h in
    let passed =
      issue_new-Passed req amount w (issued i r f)
        (ap (λ (o : Result Issued × World). o.0) (sym new) ∙ h) in
    Passed-IsIssuance req amount w i r f (issue req w) h e passed (new ∙ passed.books)
