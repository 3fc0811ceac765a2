-- ===== src/Fx/Outcome.antt =====
-- How the processing of an exchange ends.
use stablecoin_infrastructur.Base.{
  ℕ, ◌≡◌, ◌∷◌, ◌⊎◌, inl, inr, true, false, Bool, some, refl, sym, ap, subst, ◌∙◌,
}
use stablecoin_infrastructur.Models.Rows.{FxSettlement}
use stablecoin_infrastructur.Shared.Session.{
  World, Action, Result, ok, err, ValueError, integrity_error, value_error, insufficient,
  catch_value_error, bind_returned, bind_raised, bind_err, catch_returned, catch_raised,
  catch_passes, ◌>>=◌,
}
use stablecoin_infrastructur.Shared.Journal.{get_balance}
use stablecoin_infrastructur.Fx.{
  sell, buy, debit_of, currency_of, amount_of, debit_coa, run_leg, finalise, exchange, fail,
  start_exchange, set_status, set_txn, process_fx_settlement,
}
use stablecoin_infrastructur.Models.Enums.{SettlementStatus}
use stablecoin_infrastructur.Fx.Saved.{Rewrites, Rewrites-after, IsSaved, IsSaved-after}
use stablecoin_infrastructur.Fx.Legs.{IsShort, IsPosted, run_leg-cases, leg-short}
use stablecoin_infrastructur.Fx.Endings.{
  IsExchanged, IsUnfunded, IsOneLegged, Outcome, IsShort-same, Outcome-same,
}

module _ (fx : FxSettlement) where
  fail-returned :
      (x : ValueError) (v : World)
      → ((fail fx x v).0 ≡ ok false)
        × ((fail fx x v).1.db.journal_entries ≡ v.db.journal_entries)
        × Rewrites fx (set_status SettlementStatus.failed) v.db (fail fx x v).1.db
  unfolding fail
  fail-returned x v = (refl, refl, refl)

  fail-IsSaved :
      (x : ValueError) (v : World) → IsSaved SettlementStatus.failed fx v.db (fail fx x v).1.db
  fail-IsSaved x v = record {
    change = set_status SettlementStatus.failed;
    saved = (fail-returned x v).2;
    status = λ r. refl;
  }

  finalise-returned :
      (s b : ℕ) (v : World)
      → ((finalise fx s b v).0 ≡ ok true)
        × ((finalise fx s b v).1.db.journal_entries ≡ v.db.journal_entries)
  unfolding finalise
  finalise-returned s b v = (refl, refl)

  finalise-saved :
      (s b : ℕ) (v : World)
      → (f : FxSettlement → FxSettlement) × Rewrites fx f v.db (finalise fx s b v).1.db
        × ((r : FxSettlement) → (f r).status ≡ SettlementStatus.settled)
        × ((r : FxSettlement) → (f r).sell_txn_id ≡ r.sell_txn_id)
        × ((r : FxSettlement) → (f r).buy_txn_id ≡ r.buy_txn_id)
  unfolding finalise
  finalise-saved s b v = (_, refl, (λ r. refl), (λ r. refl), (λ r. refl))

  abbrev guarded : World → Result Bool × World
  guarded = catch_value_error (exchange fx) (fail fx)

  abbrev after_sale : ℕ → Action Bool
  after_sale s = run_leg buy fx >>= λ b. finalise fx s b

  module _ (v : World) where
    guarded-IsUnfunded : IsShort sell fx v → IsUnfunded fx v.db (guarded v)
    unfolding exchange
    guarded-IsUnfunded h =
        let x =
          insufficient
            (get_balance (debit_of sell fx) (currency_of sell fx)
              (debit_coa sell (currency_of sell fx)) v.db)
            (amount_of sell fx) in
        let v' : World = record v { locks = (debit_of sell fx, currency_of sell fx) ∷ v.locks } in
        let raised =
          bind_raised (run_leg sell fx) after_sale v v' (value_error x) (leg-short sell fx v h) in
        let (returned, same, _) = fail-returned x v' in
        rw (catch_raised (exchange fx) (fail fx) v v' x raised) (record {
          returned = returned;
          unposted = same;
          short = IsShort-same sell fx v (fail fx x v').1 same h;
          row = fail-IsSaved x v';
        })

    guarded-refused :
        (run_leg sell fx v).0 ≡ err integrity_error → (guarded v).0 ≡ err integrity_error
    unfolding exchange
    guarded-refused h =
        catch_passes (exchange fx) (fail fx) v
          (bind_err (run_leg sell fx) after_sale v integrity_error h)

    -- Behind a sell leg that is posted.
    module _ (p : IsPosted sell fx v) where
      abbrev v1 : World
      v1 = (run_leg sell fx v).1

      exchange-sold : exchange fx v ≡ after_sale p.txn_id v1
      unfolding exchange
      exchange-sold = bind_returned (run_leg sell fx) after_sale v p.txn_id p.returned

      buy-short : IsShort buy fx v1 → IsOneLegged fx v.db (guarded v)
      buy-short h =
          let x =
            insufficient
              (get_balance (debit_of buy fx) (currency_of buy fx)
                (debit_coa buy (currency_of buy fx)) v1.db)
              (amount_of buy fx) in
          let v' : World = record v1 { locks = (debit_of buy fx, currency_of buy fx) ∷ v1.locks } in
          let raised =
            bind_raised (run_leg buy fx) (λ b. finalise fx p.txn_id b) v1 v' (value_error x)
              (leg-short buy fx v1 h) in
          let (returned, same, _) = fail-returned x v' in
          rw (catch_raised (exchange fx) (fail fx) v v' x (exchange-sold ∙ raised)) (record {
            returned = returned;
            sale_covered = p.covered;
            sold = record {
              journal_id = p.posted.journal_id;
              entry_type = p.posted.entry_type;
              reference_id = p.posted.reference_id;
              entries = same ∙ p.posted.entries;
            };
            short = IsShort-same buy fx v1 (fail fx x v').1 same h;
            row =
                IsSaved-after SettlementStatus.failed fx (set_txn sell p.txn_id) v.db v1.db
                  (fail fx x v').1.db (λ r. refl) p.marked (fail-IsSaved x v');
          })

      buy-refused :
          (run_leg buy fx v1).0 ≡ err integrity_error → (guarded v).0 ≡ err integrity_error
      buy-refused h = catch_passes (exchange fx) (fail fx) v (
          ap (λ (o : Result Bool × World). o.0) exchange-sold
          ∙ bind_err (run_leg buy fx) (λ b. finalise fx p.txn_id b) v1 integrity_error h)

      both-posted : IsPosted buy fx v1 → IsExchanged fx v.db (guarded v)
      both-posted q =
          let done =
            exchange-sold
            ∙ bind_returned (run_leg buy fx) (λ b. finalise fx p.txn_id b) v1 q.txn_id q.returned in
          let (returned, same) = finalise-returned p.txn_id q.txn_id (run_leg buy fx v1).1 in
          let kept =
            catch_returned (exchange fx) (fail fx) v true
              (ap (λ (o : Result Bool × World). o.0) done ∙ returned) in
          let (f, saved, status, sells, buys) =
            finalise-saved p.txn_id q.txn_id (run_leg buy fx v1).1 in
          rw (kept, done)
            (record {
              returned = returned;
              between = v1.db;
              sale_covered = p.covered;
              sold = p.posted;
              purchase_covered = q.covered;
              bought = record {
                journal_id = q.posted.journal_id;
                entry_type = q.posted.entry_type;
                reference_id = q.posted.reference_id;
                entries = same ∙ q.posted.entries;
              };
              row = record {
                change = λ r. f (set_txn buy q.txn_id (set_txn sell p.txn_id r));
                saved =
                    Rewrites-after fx (λ r. f (set_txn buy q.txn_id r)) (set_txn sell p.txn_id) v.db
                      v1.db (finalise fx p.txn_id q.txn_id (run_leg buy fx v1).1).1.db (λ r. refl)
                      p.marked
                      (Rewrites-after fx f (set_txn buy q.txn_id) v1.db (run_leg buy fx v1).1.db
                        (finalise fx p.txn_id q.txn_id (run_leg buy fx v1).1).1.db (λ r. refl)
                        q.marked saved);
                status = λ r. status (set_txn buy q.txn_id (set_txn sell p.txn_id r));
              };
              sell_txn = λ r.
                  sells (set_txn buy q.txn_id (set_txn sell p.txn_id r)) ∙ ap some (sym p.refers);
              buy_txn = λ r.
                  buys (set_txn buy q.txn_id (set_txn sell p.txn_id r)) ∙ ap some (sym q.refers);
            })

      sold-Outcome : Outcome fx v.db (guarded v)
      sold-Outcome = elim (run_leg-cases buy fx v1) [
        | inl short ↦ inr (inr (inl (buy-short short)))
        | inr (inl q) ↦ inl (both-posted q)
        | inr (inr refused) ↦ inr (inr (inr (buy-refused refused)))
      ]

    guarded-Outcome : Outcome fx v.db (guarded v)
    guarded-Outcome = elim (run_leg-cases sell fx v) [
      | inl short ↦ inr (inl (guarded-IsUnfunded short))
      | inr (inl p) ↦ sold-Outcome p
      | inr (inr refused) ↦ inr (inr (inr (guarded-refused refused)))
    ]

process-guarded :
    (fx : FxSettlement) (w : World)
    → process_fx_settlement fx w ≡ guarded fx (start_exchange fx w).1
unfolding process_fx_settlement start_exchange
process-guarded fx w = refl

start-journal :
    (fx : FxSettlement) (w : World)
    → (start_exchange fx w).1.db.journal_entries ≡ w.db.journal_entries
unfolding start_exchange
start-journal fx w = refl

start-row :
    (fx : FxSettlement) (w : World)
    → Rewrites fx (set_status SettlementStatus.processing) w.db (start_exchange fx w).1.db
unfolding start_exchange
start-row fx w = refl

-- The processing of an exchange posts both legs, each covered when it is posted, and saves the row as
-- settled with the ids of the two transactions; or posts none, the sender being short; or returns
-- false with the sell leg posted and the buy leg not, the nostro being short; or raises an integrity
-- error. Where it returns false, the row is saved as failed.
pub process_fx_settlement-Outcome :
    (fx : FxSettlement) (w : World)
    → IsExchanged fx w.db (process_fx_settlement fx w)
      ⊎ (IsUnfunded fx w.db (process_fx_settlement fx w)
          ⊎ (IsOneLegged fx w.db (process_fx_settlement fx w)
              ⊎ ((process_fx_settlement fx w).0 ≡ err integrity_error)))
process_fx_settlement-Outcome fx w =
    let v : World = (start_exchange fx w).1 in
    Outcome-same fx w.db v.db (process_fx_settlement fx w) (start-journal fx w) (start-row fx w)
      (subst (Outcome fx v.db) (sym (process-guarded fx w)) (guarded-Outcome fx v))
