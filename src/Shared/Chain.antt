-- ===== src/Shared/Chain.antt =====
-- shared/blockchain_sim.py: receipts of the simulated chain and of the fiat rails.
use stablecoin_infrastructur.Base.{
  ℕ, suc, String, Bool, ◌||◌, Option, none, some, str_eq, if◌then◌else◌,
}
use stablecoin_infrastructur.Models.Refs.{Ref}
use stablecoin_infrastructur.Models.Rows.{Receipt, FiatReceipt}
use stablecoin_infrastructur.Shared.Session.{ok, Action}

-- The counter is a variable of the process: it grows before the receipt is built.
unfoldable pub record_on_chain : Ref → String → String → Action Receipt
record_on_chain transaction_id operation extra_seed w = (
  ok (record {
    transaction_id = transaction_id;
    operation = operation;
    extra_seed = extra_seed;
    block_number = suc w.block_counter;
  }),
  record w { block_counter = suc w.block_counter },
)

-- The rails that `_FIAT_RAIL_FORMATS` has a formatter for; "blockchain" maps to None.
unfoldable pub has_fiat_leg : String → Bool
has_fiat_leg rail =
    str_eq rail "fedwire" || str_eq rail "swift" || str_eq rail "target2" || str_eq rail "internal"

-- No receipt for a rail without a formatter.
unfoldable pub record_fiat_rail : Ref → String → Option FiatReceipt
record_fiat_rail transaction_id rail =
    if has_fiat_leg rail
    then some (record { transaction_id = transaction_id; rail = rail; settled_at = none })
    else none

-- `if fiat_receipt: fiat_receipt["settled_at"] = now`, as the callers write it.
abbrev pub stamp_receipt : ℕ → Option FiatReceipt → Option FiatReceipt
stamp_receipt now none = none
stamp_receipt now (some r) = some (record r { settled_at = some now })
