-- ===== src/Issuance/Effects.antt =====
-- What the two routes promise about money.
use stablecoin_infrastructur.Base.{
  ℕ, ◌≡◌, ◌∷◌, [], List, refl, ◌∙◌, Option, some, arith, find, ◌==◌,
}
use stablecoin_infrastructur.Base.Int.{ℤ, pos, ◌≤ℤ◌, ◌+ℤ◌, ◌-ℤ◌, int_laws}
use stablecoin_infrastructur.Models.Enums.{CurrencyCode, omnibus_reserve, institution_liability}
use stablecoin_infrastructur.Models.Rows.{Account, TokenIssuance, Receipt, FiatReceipt}
use stablecoin_infrastructur.Shared.Session.{World, Action, Result, ok, err}
use stablecoin_infrastructur.Shared.Money.{normalize}
use stablecoin_infrastructur.Shared.Journal.{get_balance, get_available_balance, is_asset}
use stablecoin_infrastructur.Shared.Journal.Posting.{
  Posted, moved, share_self, share_other_coa, get_balance-Posted,
}
use stablecoin_infrastructur.Issuance.{
  Issued, existing, issued, IssueRequest, RedeemRequest, issue, omnibus_account_id,
}
use stablecoin_infrastructur.Issuance.Redeem.{redeem}
use stablecoin_infrastructur.Issuance.Routes.{IssuanceResponse, answer, issue_tokens, redeem_tokens}
use stablecoin_infrastructur.Issuance.Postings.{issuance_posting, issue-IsIssuance}
use stablecoin_infrastructur.Issuance.Burnings.{redemption_posting, redeem-IsRedemption}

find_id :
    (id : ℕ) (accounts : List Account) (a : Account)
    → find (λ b. b.id == id) accounts ≡ some a
    → a.id ≡ id
find_id id [] a h = cc
find_id id (b ∷ bs) a h = ground (arith, find_id id bs a)

-- A route that returns ran an operation that returned a new issuance.
pub record Answered (account_id : ℕ) (currency : CurrencyCode) (o : Result Issued × World)
    (w' : World) (resp : IssuanceResponse) : Type 0 where
  pub row : TokenIssuance
  pub receipt : Receipt
  pub fiat_leg : Option FiatReceipt
  pub returned : o.0 ≡ ok (issued row receipt fiat_leg)
  pub committed : w'.db ≡ o.1.db
  pub amount : resp.amount ≡ row.amount
  pub new_balance : resp.new_balance ≡ get_balance account_id currency institution_liability o.1.db

pub answer-Answered :
    (a : ℕ) (c : CurrencyCode) (m : Action Issued) (w : World) (o : Result Issued × World)
    (resp : IssuanceResponse)
    → m w ≡ o
    → (answer a c m w).0 ≡ ok resp
    → Answered a c o (answer a c m w).1 resp
unfolding answer
answer-Answered a c m w (ok (issued i r f), v) resp e h = record {
  row = i;
  receipt = r;
  fiat_leg = f;
  returned = refl;
  committed = ground arith;
  amount = ground arith;
  new_balance = ground arith;
}
answer-Answered a c m w (ok (existing i), v) resp e h = absurd (ground arith)
answer-Answered a c m w (err x, v) resp e h = absurd (ground arith)

-- A successful issuance: the amount is the request's, rounded to 18 places; the account's balance,
-- which the response reports, and the reserve both grow by it; the reserve covered it beforehand.
pub record IsMint (req : IssueRequest) (w w' : World) (resp : IssuanceResponse) : Type 0 where
  pub amount : normalize req.amount ≡ some resp.amount
  pub posted : Posted (issuance_posting req.account_id req.currency resp.amount) w.db w'.db
  pub reported :
      resp.new_balance ≡ get_balance req.account_id req.currency institution_liability w'.db
  pub minted :
      resp.new_balance
      ≡ get_balance req.account_id req.currency institution_liability w.db +ℤ pos resp.amount
  pub covered : pos resp.amount ≤ℤ get_balance omnibus_account_id req.currency omnibus_reserve w.db
  pub reserve :
      get_balance omnibus_account_id req.currency omnibus_reserve w'.db
      ≡ get_balance omnibus_account_id req.currency omnibus_reserve w.db +ℤ pos resp.amount

issuance_moves :
    (a : ℕ) (c : CurrencyCode) (n : ℕ) (x : ℤ)
    → (moved (issuance_posting a c n) a c institution_liability x ≡ x +ℤ pos n)
      × (moved (issuance_posting a c n) omnibus_account_id c omnibus_reserve x ≡ x +ℤ pos n)
unfolding is_asset
issuance_moves a c n x = (
  rw
      (
        share_self a c institution_liability n,
        share_other_coa a c institution_liability omnibus_account_id omnibus_reserve c n refl,
      )
      (omega int_laws),
  rw
      (
        share_self omnibus_account_id c omnibus_reserve n,
        share_other_coa omnibus_account_id c omnibus_reserve a institution_liability c n refl,
      )
      (omega int_laws),
)

-- An issuance that succeeds mints the rounded amount, which the reserve covered, to the account; the
-- reported balance is the new one; nothing else is posted; and the reserve, an asset that is debited,
-- grows by the amount.
pub issue_tokens-IsMint :
    (req : IssueRequest) (w : World) (resp : IssuanceResponse)
    → (issue_tokens req w).0 ≡ ok resp
    → IsMint req w (issue_tokens req w).1 resp
issue_tokens-IsMint req w resp h =
    let w' : World = (issue_tokens req w).1 in
    let a =
      answer-Answered req.account_id req.currency (issue req) w (issue req w) resp refl
        (unfold issue_tokens in h) in
    let p = issue-IsIssuance req w a.row a.receipt a.fiat_leg a.returned in
    let committed : w'.db ≡ (issue req w).1.db = unfold issue_tokens in a.committed in
    let posted : Posted (issuance_posting req.account_id req.currency resp.amount) w.db w'.db =
      record {
        journal_id = p.posted.journal_id;
        entry_type = p.posted.entry_type;
        reference_id = p.posted.reference_id;
        entries = cc (
          p.posted.entries,
          committed,
          find_id req.account_id w.db.accounts p.account p.found,
          a.amount,
        );
      } in
    let moves = λ (x : ℤ). issuance_moves req.account_id req.currency resp.amount x in
    let reported : resp.new_balance
        ≡ get_balance req.account_id req.currency institution_liability w'.db =
      cc (a.new_balance, committed) in
    record {
      amount = cc (p.amount, a.amount);
      posted = posted;
      reported = reported;
      minted =
          reported
          ∙ get_balance-Posted _ w.db w'.db req.account_id req.currency institution_liability posted
          ∙ (moves _).0;
      covered = rw a.amount p.covered;
      reserve =
          get_balance-Posted _ w.db w'.db omnibus_account_id req.currency omnibus_reserve posted
          ∙ (moves _).1;
    }

-- A successful redemption: the balance falls by the amount, which was available, and so does the
-- reserve.
pub record IsBurn (req : RedeemRequest) (w w' : World) (resp : IssuanceResponse) : Type 0 where
  pub amount : normalize req.amount ≡ some resp.amount
  pub posted : Posted (redemption_posting req.account_id req.currency resp.amount) w.db w'.db
  pub available : pos resp.amount ≤ℤ get_available_balance req.account_id req.currency w.db
  pub burnt :
      resp.new_balance
      ≡ get_balance req.account_id req.currency institution_liability w.db -ℤ pos resp.amount
  pub reserve :
      get_balance omnibus_account_id req.currency omnibus_reserve w'.db
      ≡ get_balance omnibus_account_id req.currency omnibus_reserve w.db -ℤ pos resp.amount

redemption_moves :
    (a : ℕ) (c : CurrencyCode) (n : ℕ) (x : ℤ)
    → (moved (redemption_posting a c n) a c institution_liability x ≡ x -ℤ pos n)
      × (moved (redemption_posting a c n) omnibus_account_id c omnibus_reserve x ≡ x -ℤ pos n)
unfolding is_asset
redemption_moves a c n x = (
  rw
      (
        share_self a c institution_liability n,
        share_other_coa a c institution_liability omnibus_account_id omnibus_reserve c n refl,
      )
      (omega int_laws),
  rw
      (
        share_self omnibus_account_id c omnibus_reserve n,
        share_other_coa omnibus_account_id c omnibus_reserve a institution_liability c n refl,
      )
      (omega int_laws),
)

-- A redemption that succeeds burns the rounded amount, which was available, from the account and
-- from the reserve, and posts nothing else.
pub redeem_tokens-IsBurn :
    (req : RedeemRequest) (w : World) (resp : IssuanceResponse)
    → (redeem_tokens req w).0 ≡ ok resp
    → IsBurn req w (redeem_tokens req w).1 resp
redeem_tokens-IsBurn req w resp h =
    let w' : World = (redeem_tokens req w).1 in
    let a =
      answer-Answered req.account_id req.currency (redeem req) w (redeem req w) resp refl
        (unfold redeem_tokens in h) in
    let p = redeem-IsRedemption req w a.row a.receipt a.fiat_leg a.returned in
    let committed : w'.db ≡ (redeem req w).1.db = unfold redeem_tokens in a.committed in
    let posted : Posted (redemption_posting req.account_id req.currency resp.amount) w.db w'.db =
      record {
        journal_id = p.posted.journal_id;
        entry_type = p.posted.entry_type;
        reference_id = p.posted.reference_id;
        entries = cc (
          p.posted.entries,
          committed,
          find_id req.account_id w.db.accounts p.account p.found,
          a.amount,
        );
      } in
    let moves = λ (x : ℤ). redemption_moves req.account_id req.currency resp.amount x in
    let reported : resp.new_balance
        ≡ get_balance req.account_id req.currency institution_liability w'.db =
      cc (a.new_balance, committed) in
    record {
      amount = cc (p.amount, a.amount);
      posted = posted;
      available = rw a.amount p.covered;
      burnt =
          reported
          ∙ get_balance-Posted _ w.db w'.db req.account_id req.currency institution_liability posted
          ∙ (moves _).0;
      reserve =
          get_balance-Posted _ w.db w'.db omnibus_account_id req.currency omnibus_reserve posted
          ∙ (moves _).1;
    }
