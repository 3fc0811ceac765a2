-- ===== src/Shared/Tables.antt =====
-- Rows and references that several services read and write: accounts and transactions. A transaction is refused
-- by the unique columns of shared/models.py and the CHECKs of init/postgres/01_schema.sql.
use stablecoin_infrastructur.Base.{
  ℕ, suc, String, some, none, Bool, not, ◌&&◌, ◌∷◌, Option, ◌==◌, ltb, find, exists,
}
use stablecoin_infrastructur.Models.Refs.{Ref, minted, same_ref, same_key}
use stablecoin_infrastructur.Models.Rows.{Account, Transaction}
use stablecoin_infrastructur.Models.Database.{Database}
use stablecoin_infrastructur.Shared.Session.{Action, ok, http, raise, raise_if, insert}

-- `db.get(Account, account_id)`
abbrev pub get_account : ℕ → Database → Option Account
get_account account_id db = find (λ a. a.id == account_id) db.accounts

-- `if not account or not account.is_active: raise`
unfoldable pub require_active : Option Account → String → Action (Unit {0})
require_active none detail = raise (http 404 detail)
require_active (some a) detail = raise_if (not a.is_active) (http 404 detail)

unfoldable pub accepts_transaction : Transaction → Database → Bool
accepts_transaction t db =
    not (exists (λ u. same_ref u.txn_ref t.txn_ref) db.transactions)
    && not (exists (λ u. same_key u.idempotency_key t.idempotency_key) db.transactions)
    && not (t.debit_account_id == t.credit_account_id)
    && ltb 0 t.amount

unfoldable pub insert_transaction : Transaction → Action (Unit {0})
insert_transaction t w =
    insert (accepts_transaction t w.db) (λ db. record db { transactions = t ∷ db.transactions }) w

-- `idempotency_key or f"ISS-{uuid.uuid4()…}"`, with the key already seen to be truthy or not.
abbrev pub chosen_ref : Option Ref → String → ℕ → Ref
chosen_ref (some r) prefix uuid = r
chosen_ref none prefix uuid = minted prefix uuid

-- A uuid is drawn only if no key is given.
abbrev pub uuid_after : Option Ref → ℕ → ℕ
uuid_after (some r) uuid = uuid
uuid_after none uuid = suc uuid

abbrev pub ref_or_mint : Option Ref → String → Action Ref
ref_or_mint key prefix w =
    (ok (chosen_ref key prefix w.next_uuid), record w { next_uuid = uuid_after key w.next_uuid })
