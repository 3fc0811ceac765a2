-- ===== src/Issuance/Burnings.antt =====
-- The posting of a redemption.
use stablecoin_infrastructur.Base.{
  ℕ, suc, ◌≡◌, ◌∷◌, ap, sym, subst, ◌∙◌, true, Option, some, inl, inr, arith, Option-cases,
}
use stablecoin_infrastructur.Base.Int.{pos, ◌≤ℤ◌}
use stablecoin_infrastructur.Models.Enums.{CurrencyCode, omnibus_reserve, institution_liability}
use stablecoin_infrastructur.Models.Refs.{Ref, truthy}
use stablecoin_infrastructur.Models.Rows.{Account, TokenIssuance, Receipt, FiatReceipt}
use stablecoin_infrastructur.Shared.Session.{World, Result, ok}
use stablecoin_infrastructur.Shared.Money.{normalize}
use stablecoin_infrastructur.Shared.Journal.{get_available_balance}
use stablecoin_infrastructur.Shared.Journal.Posting.{Posting, Posted}
use stablecoin_infrastructur.Shared.Tables.{get_account, chosen_ref, uuid_after}
use stablecoin_infrastructur.Issuance.{Issued, issued, RedeemRequest, omnibus_account_id}
use stablecoin_infrastructur.Issuance.Redeem.{book_redemption, redeem_new, redeem}
use stablecoin_infrastructur.Issuance.Postings.{issued_row}

-- The pair of a redemption: debit INSTITUTION_LIABILITY, credit OMNIBUS_RESERVE.
abbrev pub redemption_posting : ℕ → CurrencyCode → ℕ → Posting
redemption_posting account_id currency amount = record {
  debit_account = account_id;
  debit_coa = institution_liability;
  credit_account = omnibus_account_id;
  credit_coa = omnibus_reserve;
  currency = currency;
  amount = amount;
}

-- What a successful redemption has checked and done.
pub record IsRedemption (req : RedeemRequest) (w : World) (i : TokenIssuance) (w' : World)
    : Type 0 where
  pub amount : normalize req.amount ≡ some i.amount
  pub account : Account
  pub found : get_account req.account_id w.db ≡ some account
  pub is_active : account.is_active ≡ true
  pub covered : pos i.amount ≤ℤ get_available_balance req.account_id req.currency w.db
  pub posted : Posted (redemption_posting account.id req.currency i.amount) w.db w'.db

module _ (req : RedeemRequest) (amount : ℕ) where
  -- The booking adds exactly the pair.
  book_redemption-Posted :
      (key : Option Ref) (account : Account) (ref : Ref) (w : World) (x : Issued)
      → (book_redemption req amount key account ref w).0 ≡ ok x
      → Posted
          (redemption_posting account.id req.currency amount)
          w.db
          (book_redemption req amount key account ref w).1.db
  unfolding book_redemption
  book_redemption-Posted key account ref w x h = record {
    journal_id = suc w.next_uuid;
    entry_type = "token_redemption";
    reference_id = w.next_uuid;
    entries = ground arith;
  }

  book_redemption-amount :
      (key : Option Ref) (account : Account) (ref : Ref) (w : World) (x : Issued)
      → (book_redemption req amount key account ref w).0 ≡ ok x
      → (issued_row x).amount ≡ amount
  unfolding book_redemption
  book_redemption-amount key account ref w x h = ground arith

  -- What the checks leave: an active account, a covered amount, and the booking.
  record Passed (w : World) : Type 0 where
    account : Account
    found : get_account req.account_id w.db ≡ some account
    is_active : account.is_active ≡ true
    covered : pos amount ≤ℤ get_available_balance req.account_id req.currency w.db
    ref : Ref
    before : World
    same : before.db ≡ w.db
    books :
        redeem_new req amount w ≡ book_redemption req amount req.idempotency_key account ref before

  redeem_new-Passed : (w : World) (x : Issued) → (redeem_new req amount w).0 ≡ ok x → Passed w
  unfolding redeem_new
  redeem_new-Passed w x h = elim (Option-cases (get_account req.account_id w.db)) [
    | inl unknown ↦ absurd (ground arith)
    | inr (a, e) ↦ record {
      account = a;
      found = e;
      is_active = ground arith;
      covered = ground arith;
      ref = chosen_ref (truthy req.idempotency_key) "RED" w.next_uuid;
      before = record w {
        next_uuid = uuid_after (truthy req.idempotency_key) w.next_uuid;
        locks = (req.account_id, req.currency) ∷ w.locks;
      };
      same = ground arith;
      books = ground arith;
    }
  ]

-- A new reference goes through `redeem_new`.
redeem-new :
    (req : RedeemRequest) (w : World) (i : TokenIssuance) (r : Receipt) (f : Option FiatReceipt)
    → (redeem req w).0 ≡ ok (issued i r f)
    → (amount : ℕ) × (normalize req.amount ≡ some amount) × (redeem req w ≡ redeem_new req amount w)
unfolding redeem
redeem-new req w i r f h = elim (Option-cases (normalize req.amount)) [
  | inl refused ↦ absurd (ground arith)
  | inr (amount, e) ↦ (amount, e, ground arith)
]

module _ (req : RedeemRequest) (amount : ℕ) (w : World) (i : TokenIssuance) (r : Receipt)
    (f : Option FiatReceipt) (o : Result Issued × World) (h : o.0 ≡ ok (issued i r f)) where
  -- A result of the checks and the booking is a redemption.
  Passed-IsRedemption :
      normalize req.amount ≡ some amount
      → (p : Passed req amount w)
      → o ≡ book_redemption req amount req.idempotency_key p.account p.ref p.before
      → IsRedemption req w i o.1
  Passed-IsRedemption e p eo = record {
    amount = e ∙ ap some (sym same_amount);
    account = p.account;
    found = p.found;
    is_active = p.is_active;
    covered = rw same_amount p.covered;
    posted =
        subst (λ n. Posted (redemption_posting p.account.id req.currency n) w.db o.1.db)
          (sym same_amount)
          (subst (λ d. Posted (redemption_posting p.account.id req.currency amount) d o.1.db) p.same
            (subst
              (λ (z : Result Issued × World).
                Posted (redemption_posting p.account.id req.currency amount) p.before.db z.1.db)
              (sym eo) (book_redemption-Posted req amount _ p.account p.ref p.before _ booked)));
  }
    where
      booked :
          (book_redemption req amount req.idempotency_key p.account p.ref p.before).0
          ≡ ok (issued i r f)
      booked = ap (λ (z : Result Issued × World). z.0) (sym eo) ∙ h

      same_amount : i.amount ≡ amount
      same_amount = book_redemption-amount req amount _ p.account p.ref p.before _ booked

-- A successful redemption has checked the account and the available balance, and posted one pair.
pub redeem-IsRedemption :
    (req : RedeemRequest) (w : World) (i : TokenIssuance) (r : Receipt) (f : Option FiatReceipt)
    → (redeem req w).0 ≡ ok (issued i r f)
    → IsRedemption req w i (redeem req w).1
redeem-IsRedemption req w i r f h =
    let (amount, e, new) = redeem-new req w i r f h in
    let passed =
      redeem_new-Passed req amount w (issued i r f)
        (ap (λ (o : Result Issued × World). o.0) (sym new) ∙ h) in
    Passed-IsRedemption req amount w i r f (redeem req w) h e passed (new ∙ passed.books)
