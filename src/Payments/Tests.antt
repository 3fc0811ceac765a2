-- ===== src/Payments/Tests.antt =====
-- Runs of payment-engine.
use stablecoin_infrastructur.Base.{
  ℕ, ◌-◌, ◌^◌, ◌*◌, ◌≤◌, ◌≡◌, refl, [], ◌∷◌, true, some, none, arith,
}
use stablecoin_infrastructur.Base.Int.{pos, sub_ℕ, ◌-ℤ◌}
use stablecoin_infrastructur.Models.Enums.{
  EscrowStatus, reserve, usd, omnibus_reserve, institution_liability,
}
use stablecoin_infrastructur.Models.Refs.{key, minted}
use stablecoin_infrastructur.Models.Rows.{Account, EscrowContract}
use stablecoin_infrastructur.Models.Database.{empty_database}
use stablecoin_infrastructur.Shared.Session.{World, ok, err, http}
use stablecoin_infrastructur.Shared.Journal.{
  post_pair, get_balance, get_available_balance, holds, debits, credits, is_asset,
}
use stablecoin_infrastructur.Shared.Money.{quantize_8}
use stablecoin_infrastructur.Shared.Tables.{accepts_transaction}
use stablecoin_infrastructur.Shared.Chain.{has_fiat_leg}
use stablecoin_infrastructur.Payments.{locked_transfer, lower_reserved}
use stablecoin_infrastructur.Payments.Escrow.{
  CreateEscrowRequest, beneficiary, depositor, refund_depositor, expire_due, expire_all,
  ReleaseEscrowRequest, ReleaseResult, released_to_beneficiary, create_new, create_escrow,
  close_paid, pay_beneficiary, expire_escrow, release_escrow,
}
use stablecoin_infrastructur.Payments.Reserve.{
  IsReserved, create_escrow-IsReserved, create_escrow-replay,
}
use stablecoin_infrastructur.Payments.Release.{IsReleased, release_escrow-IsReleased, IsLifted}
use stablecoin_infrastructur.Ledger.Escrows.Once.{release_escrow-once}
use stablecoin_infrastructur.Payments.Checker.{check_payments, checker_cycle}
use stablecoin_infrastructur.Payments.Outstanding.{IsBacked, outstanding}
use stablecoin_infrastructur.Ledger.Escrows.Platform.{
  Reached, at_start, after, creates, releases, checks, others, Reached-available,
}
use stablecoin_infrastructur.Payments.Expiry.{release_escrow-late, expire_escrow-IsLifted}

abbrev bank : ℕ → Account
bank id = record {
  id = id;
  entity_name = "Bank";
  account_type = "institutional";
  is_active = true;
  kyc_verified = true;
  aml_cleared = true;
}

-- Two accounts, the first with 100 units of a currency.
abbrev start : World
start = record {
  db =
      record (post_pair 0 1 omnibus_reserve usd (100 * 10 ^ 18) "seed" 0 2 institution_liability
        empty_database) { accounts = bank 2 ∷ bank 3 ∷ [] };
  now = 7;
  next_uuid = 10;
  block_counter = 0;
  locks = [];
}

abbrev creation : CreateEscrowRequest
creation = record {
  depositor_account_id = 2;
  beneficiary_account_id = 3;
  currency = usd;
  amount = record { digits = 60; scale = 0 };
  conditions = [];
  expires_at = 20;
  arbiter_account_id = none;
  idempotency_key = some (key "E1");
}

abbrev contract : EscrowContract
contract = record {
  id = 12;
  contract_ref = minted "ESC" 11;
  depositor_account_id = 2;
  beneficiary_account_id = 3;
  currency = usd;
  amount = 60 * 10 ^ 18;
  conditions = [];
  status = EscrowStatus.active;
  release_txn_id = none;
  arbiter_account_id = none;
  expires_at = 20;
  released_at = none;
  release_triggered_by = none;
}

creation-run : (create_escrow creation start).0 ≡ ok contract
unfolding create_escrow create_new get_available_balance get_balance holds debits credits is_asset
    sub_ℕ ◌-ℤ◌ quantize_8
creation-run = refl

create_escrow-IsReserved_example :
    IsReserved creation start (create_escrow creation start).1 contract
create_escrow-IsReserved_example =
    create_escrow-IsReserved creation start contract refl creation-run

-- The same request again, under the same key, makes a second contract.
abbrev smaller : CreateEscrowRequest
smaller = record creation { amount = record { digits = 30; scale = 0 } }

abbrev contract_of : (id amount : ℕ) → EscrowContract
contract_of id amount = record contract {
  id = id;
  contract_ref = minted "ESC" (id - 1);
  amount = amount * 10 ^ 18;
}

smaller-run : (create_escrow smaller start).0 ≡ ok (contract_of 12 30)
unfolding create_escrow create_new get_available_balance get_balance holds debits credits is_asset
    sub_ℕ ◌-ℤ◌ quantize_8
smaller-run = refl

smaller_again-run :
    (create_escrow smaller (create_escrow smaller start).1).0 ≡ ok (contract_of 16 30)
unfolding create_escrow create_new get_available_balance get_balance holds debits credits is_asset
    sub_ℕ ◌-ℤ◌ quantize_8
smaller_again-run = refl

create_escrow-replay_example :
    get_available_balance 2 usd (create_escrow smaller (create_escrow smaller start).1).1.db
    ≡ get_available_balance 2 usd start.db -ℤ pos (30 * 10 ^ 18) -ℤ pos (30 * 10 ^ 18)
create_escrow-replay_example =
    create_escrow-replay smaller start (contract_of 12 30) (contract_of 16 30) "E1" refl refl
      smaller-run smaller_again-run

-- The world with the contract and its hold.
abbrev holding : World
holding = record start {
  db = record start.db {
    escrow_contracts = contract ∷ [];
    escrow_holds =
        (record {
          hold_ref = minted "HOLD" 10;
          account_id = 2;
          currency = usd;
          amount = 60 * 10 ^ 18;
          hold_type = reserve;
          related_entity_id = none;
        })
        ∷ [];
  };
  next_uuid = 20;
}

abbrev release_request : ReleaseEscrowRequest
release_request = record { release_to = beneficiary; triggered_by = "arbiter" }

abbrev release_result : ReleaseResult
release_result =
    released_to_beneficiary 21
      (record {
        transaction_id = minted "ESC" 11;
        operation = "escrow_release";
        extra_seed = "";
        block_number = 1;
      })
      (some (record { transaction_id = minted "ESC" 11; rail = "internal"; settled_at = some 7 }))

release-run : (release_escrow (minted "ESC" 11) release_request holding).0 ≡ ok release_result
unfolding release_escrow pay_beneficiary close_paid locked_transfer accepts_transaction has_fiat_leg
release-run = refl

release_escrow-IsReleased_example :
    (contract.status ≡ EscrowStatus.active)
    × (7 ≤ 20)
    × IsReleased beneficiary contract holding.db
        (release_escrow (minted "ESC" 11) release_request holding).1.db
release_escrow-IsReleased_example =
    release_escrow-IsReleased (minted "ESC" 11) release_request holding contract release_result refl
      release-run

abbrev released : World
released = (release_escrow (minted "ESC" 11) release_request holding).1

-- Another contract is made, and the checker runs.
abbrev afterwards : World
afterwards = checker_cycle (λ s. none) (create_escrow smaller released).1

afterwards-Reached : Reached released afterwards
afterwards-Reached = after (after at_start (creates smaller)) (checks (λ s. none))

release_escrow-once_example :
    ((release_escrow (minted "ESC" 11) release_request afterwards).0
      ≡ err (http 409 "Escrow is not active"))
    × ((release_escrow (minted "ESC" 11) release_request afterwards).1.db ≡ afterwards.db)
release_escrow-once_example =
    release_escrow-once (minted "ESC" 11) release_request release_request holding afterwards
      contract release_result (omega arith, tt) refl release-run afterwards-Reached

-- The contract runs until 20.
abbrev too_late : World
too_late = record holding { now = 30 }

release_escrow-late_example :
    ((release_escrow (minted "ESC" 11) release_request too_late).0
      ≡ err (http 410 "Escrow has expired and been refunded"))
    × ((release_escrow (minted "ESC" 11) release_request too_late).1.db ≡ too_late.db)
release_escrow-late_example =
    release_escrow-late (minted "ESC" 11) release_request too_late contract refl refl (omega arith)

expire_escrow-IsLifted_example :
    IsLifted contract EscrowStatus.expired holding.db (expire_escrow contract holding).1.db
expire_escrow-IsLifted_example = expire_escrow-IsLifted contract holding

-- Two contracts are made, one is refunded, and the other expires.
start-IsBacked : IsBacked start
unfolding holds
start-IsBacked = record { backed = λ a c. refl; drawn = tt }

abbrev two_contracts : World
two_contracts = (create_escrow smaller (create_escrow smaller start).1).1

abbrev one_refunded : World
one_refunded =
    (release_escrow (minted "ESC" 11) (record { release_to = depositor; triggered_by = "test" })
      two_contracts).1

abbrev past_time : World
past_time = record one_refunded { now = 30 }

run-Reached : Reached start (checker_cycle (λ s. none) past_time)
run-Reached =
    after
      (after
        (after (after (after at_start (creates smaller)) (creates smaller))
          (releases (minted "ESC" 11) (record { release_to = depositor; triggered_by = "test" })))
        (others (record { held = refl; contracts = refl; drawn = omega arith })))
      (checks (λ s. none))

Reached-available_example :
    get_available_balance 2 usd (checker_cycle (λ s. none) past_time).db
    ≡ get_balance 2 usd institution_liability (checker_cycle (λ s. none) past_time).db
      -ℤ pos (outstanding 2 usd (checker_cycle (λ s. none) past_time).db.escrow_contracts)
Reached-available_example =
    Reached-available start (checker_cycle (λ s. none) past_time) 2 usd start-IsBacked run-Reached

one_refunded-run :
    (outstanding 2 usd two_contracts.db.escrow_contracts ≡ 60 * 10 ^ 18)
    × (outstanding 2 usd one_refunded.db.escrow_contracts ≡ 30 * 10 ^ 18)
    × (outstanding 2 usd (checker_cycle (λ s. none) past_time).db.escrow_contracts ≡ 0)
unfolding create_escrow create_new release_escrow refund_depositor checker_cycle check_payments
    expire_due expire_all expire_escrow get_available_balance get_balance holds debits credits
    is_asset sub_ℕ ◌-ℤ◌ quantize_8 lower_reserved
one_refunded-run = (refl, refl, refl)
