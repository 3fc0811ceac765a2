-- ===== src/Fx/Endings.antt =====
-- How the processing of an exchange can end.
use stablecoin_infrastructur.Base.{◌≡◌, ◌⊎◌, inl, inr, true, false, Bool, some, refl, sym, ◌∙◌}
use stablecoin_infrastructur.Models.Rows.{FxSettlement}
use stablecoin_infrastructur.Models.Database.{Database}
use stablecoin_infrastructur.Shared.Session.{World, Result, ok, err, integrity_error}
use stablecoin_infrastructur.Shared.Journal.{post_pair, get_balance, debits, credits}
use stablecoin_infrastructur.Shared.Journal.Posting.{Posting, Posted}
use stablecoin_infrastructur.Fx.{LegType, sell, buy, set_status}
use stablecoin_infrastructur.Models.Enums.{SettlementStatus}
use stablecoin_infrastructur.Fx.Saved.{Rewrites, Rewrites-after, IsSaved, IsSaved-after}
use stablecoin_infrastructur.Fx.Legs.{leg_posting, IsCovered, IsShort}

-- Both legs are covered and posted, and the row is settled with the ids of their transactions.
pub record IsExchanged (fx : FxSettlement) (db : Database) (o : Result Bool × World) : Type 0 where
  pub returned : o.0 ≡ ok true
  pub between : Database
  pub sale_covered : IsCovered sell fx db
  pub sold : Posted (leg_posting sell fx) db between
  pub purchase_covered : IsCovered buy fx between
  pub bought : Posted (leg_posting buy fx) between o.1.db
  pub row : IsSaved SettlementStatus.settled fx db o.1.db
  pub sell_txn : (r : FxSettlement) → (row.change r).sell_txn_id ≡ some sold.reference_id
  pub buy_txn : (r : FxSettlement) → (row.change r).buy_txn_id ≡ some bought.reference_id

-- The sender is short: no entry is posted, and the row has failed.
pub record IsUnfunded (fx : FxSettlement) (db : Database) (o : Result Bool × World) : Type 0 where
  pub returned : o.0 ≡ ok false
  pub unposted : o.1.db.journal_entries ≡ db.journal_entries
  pub short : IsShort sell fx o.1
  pub row : IsSaved SettlementStatus.failed fx db o.1.db

-- The nostro is short: the sell leg is covered and posted, the buy leg is not, and the row has failed.
pub record IsOneLegged (fx : FxSettlement) (db : Database) (o : Result Bool × World) : Type 0 where
  pub returned : o.0 ≡ ok false
  pub sale_covered : IsCovered sell fx db
  pub sold : Posted (leg_posting sell fx) db o.1.db
  pub short : IsShort buy fx o.1
  pub row : IsSaved SettlementStatus.failed fx db o.1.db

abbrev pub Outcome : FxSettlement → Database → Result Bool × World → Type 0
Outcome fx db o =
    IsExchanged fx db o ⊎ (IsUnfunded fx db o ⊎ (IsOneLegged fx db o ⊎ (o.0 ≡ err integrity_error)))

-- Shortness is read off the journal.
pub IsShort-same :
    (l : LegType) (fx : FxSettlement) (v v' : World)
    → v'.db.journal_entries ≡ v.db.journal_entries
    → IsShort l fx v
    → IsShort l fx v'
unfolding get_balance debits credits
IsShort-same l fx v v' e h = rw e h

IsCovered-same :
    (l : LegType) (fx : FxSettlement) (db db' : Database)
    → db'.journal_entries ≡ db.journal_entries
    → IsCovered l fx db'
    → IsCovered l fx db
unfolding get_balance debits credits
IsCovered-same l fx db db' e h = rw (sym e) h

-- What holds behind the start of an exchange holds of all of it.
module _ (fx : FxSettlement) (db db' : Database) (o : Result Bool × World)
    (e : db'.journal_entries ≡ db.journal_entries)
    (started : Rewrites fx (set_status SettlementStatus.processing) db db') where
  earlier_entries :
      (p : Posting) (db1 : Database) (h : Posted p db' db1)
      → db1.journal_entries
        ≡ (post_pair h.journal_id p.debit_account p.debit_coa p.currency p.amount h.entry_type
            h.reference_id p.credit_account p.credit_coa db).journal_entries
  earlier_entries p db1 h = cc (h.entries, e)

  abbrev earlier : (p : Posting) (db1 : Database) → Posted p db' db1 → Posted p db db1
  earlier p db1 h = record {
    journal_id = h.journal_id;
    entry_type = h.entry_type;
    reference_id = h.reference_id;
    entries = earlier_entries p db1 h;
  }

  failed_since :
      IsSaved SettlementStatus.failed fx db' o.1.db → IsSaved SettlementStatus.failed fx db o.1.db
  failed_since p =
      IsSaved-after SettlementStatus.failed fx (set_status SettlementStatus.processing) db db'
        o.1.db (λ r. refl) started p

  pub Outcome-same : Outcome fx db' o → Outcome fx db o
  Outcome-same (inl x) = inl (record {
    returned = x.returned;
    between = x.between;
    sale_covered = IsCovered-same sell fx db db' e x.sale_covered;
    sold = earlier (leg_posting sell fx) x.between x.sold;
    purchase_covered = x.purchase_covered;
    bought = x.bought;
    row = record {
      change = λ r. x.row.change (set_status SettlementStatus.processing r);
      saved =
          Rewrites-after fx x.row.change (set_status SettlementStatus.processing) db db' o.1.db
            (λ r. refl) started x.row.saved;
      status = λ r. x.row.status (set_status SettlementStatus.processing r);
    };
    sell_txn = λ r. x.sell_txn (set_status SettlementStatus.processing r);
    buy_txn = λ r. x.buy_txn (set_status SettlementStatus.processing r);
  })
  Outcome-same (inr (inl x)) = inr (
      inl (record {
        returned = x.returned;
        unposted = x.unposted ∙ e;
        short = x.short;
        row = failed_since x.row;
      }))
  Outcome-same (inr (inr (inl x))) = inr (
      inr (
        inl (record {
          returned = x.returned;
          sale_covered = IsCovered-same sell fx db db' e x.sale_covered;
          sold = earlier (leg_posting sell fx) o.1.db x.sold;
          short = x.short;
          row = failed_since x.row;
        })))
  Outcome-same (inr (inr (inr x))) = inr (inr (inr x))
