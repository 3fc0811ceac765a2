-- ===== src/Lib.antt =====
-- Stablecoin-Infrastructure: tokenized deposits, gross settlement, and the ledger below them.
--
-- The program is a set of Python services (services/*/main.py) over one PostgreSQL database and a
-- package that they share (shared/). A request reaches a service, whose handler runs in one database
-- session: it locks, reads balances that are derived from a double-entry journal, posts pairs of
-- entries, writes a status history and an outbox event in the same transaction, and commits; or it
-- raises, and the session is rolled back. A background worker settles what was signed.
--
-- The files and what they model:
--   Base          numbers, lists, options; an integer type over the native natural numbers.
--   Models        shared/models.py and shared/events.py: enumerations (Enums), rows (Rows), the tables
--                 (Database), references and idempotency keys (Refs), JSON dicts (Json), events (Events).
--   Shared        shared/database.py (Session: World, Action, get_db_session), shared/journal.py
--                 (Journal, and Journal/Posting for what a posting does to balances), shared/status.py
--                 and shared/outbox.py (Status), shared/blockchain_sim.py (Chain), decimals and
--                 quantize (Money), accounts, transactions and their constraints (Tables),
--                 shared/state_machine.py, shared/rbac.py and shared/context.py (Access), and
--                 consume_loop of shared/kafka_client.py (Consumer).
--   Issuance      services/token-issuance/main.py: issue and redeem are _issue_tokens and
--                 _redeem_tokens, with their parts before and after the idempotency guard; Routes has
--                 the HTTP routes. Postings, Burnings, Effects and Replay hold proofs.
--   Rtgs          services/rtgs/main.py: transfer_balances, settle, give_up and process_one_settlement
--                 are _transfer_balances and the parts of _process_one_settlement; Queue and Worker are
--                 _settlement_worker, Routes the HTTP routes. Outcome, Stuck, FourEyes hold proofs.
--   Payments      services/payment-engine/main.py: locked_transfer and reserve_funds are _locked_transfer
--                 and _reserve_funds; Escrow has the escrow routes and _expire_escrow; Condition is
--                 evaluate_condition; Conditional has the routes of conditional payments and
--                 _execute_conditional_payment; Checker is one cycle of _check_conditions. Holds,
--                 Transfer, Reserve, Release, Expiry, Outstanding, Condition/Signers, Conditional/Execute and
--                 Checker/Stuck hold proofs.
--   Fx            services/fx-settlement/main.py: execute_leg is _execute_leg, and process_fx_settlement
--                 with its parts _process_fx_settlement; Rates has the live rate of a pair, its spread
--                 and _rate_update_handler; Routes has the routes, and Worker one cycle of
--                 _fx_settlement_worker. Legs, Saved, Endings, Outcome, Rates/Spread, Rates/Live and Routes/Quoted hold
--                 proofs.
--   Ledger        the journal of shared/journal.py and the escrows of payment-engine under all the services:
--                 their routes and workers as steps on one database, from any database at the start, such as
--                 the one that init/postgres fills.
--   Gateway       services/api-gateway/main.py: Limiter is SimpleRateLimiter; Keys is require_api_key, with
--                 the keys and roles of shared/rbac.py; Proxy is _proxy. Limiter/Window, Limiter/Bound,
--                 Keys/Authorized and Proxy/Headers hold proofs.
--   Outbox        services/outbox-publisher/main.py: publish_batch, and its repetition. Delivery and Drain
--                 hold proofs.
--   Compliance    services/compliance-monitor/main.py: the rules and _run_screening; Handler is handle_event
--                 with the deduplication of shared/kafka_client.py. Handler/Once and Handler/Counts hold
--                 proofs.
--   Signing       services/signing-gateway/main.py with its client in services/fx-settlement/main.py; Node
--                 is services/mpc-node/main.py, Texts has the methods of str. Majority and AnyOrder hold
--                 proofs.
--   Integrity     scripts/ledger_integrity.py: Legacy has its checks 1 to 8, Entries its checks 9 to 12, and
--                 run_checks runs them. Replayed and Unwritten hold proofs.
--
-- How state is modelled. A World is the database, the clock, the source of uuids, the block counter of
-- the simulated chain and the advisory locks of the open transaction. An Action takes a World and gives
-- a result or an error and a World; get_db_session commits or rolls back the database only. A table is
-- the list of its rows, the newest first; a SELECT is a filter of it. Unique columns and the CHECKs of
-- init/postgres/01_schema.sql are tested where a row is inserted, and raise an integrity error.
--
-- Numbers. Amounts are natural numbers of units of 10^-18, the scale of the journal; balances are
-- integers. Rates are in units of 10^-8 and spreads in units of 10^-4 basis points, the scales of their
-- columns, which hold 18 and 8 digits. A decimal of a request is its digits and its scale, and quantize
-- rounds half to even within the 28 digits of Python's default context; in_context and invert round to
-- these 28 digits first. The fuel of excess is 28, since a product of two numbers of 28 digits has 56 at
-- most, and that of places_of is 45, since a rate has 18 digits at most. uuids are numbers drawn from a
-- counter; a reference is a text of a client or one minted from a uuid. Times are numbers, one for each
-- request. Every other recursion is on a list or a number; one cycle of an endless worker loop is a
-- function.
--
-- Parameters. datetime.fromisoformat, SHA-256 and json.dumps, the HTTP clients of the gateway and of the
-- signing gateway, what the Kafka consumer polls and whether its commits succeed, the order in which the
-- database reads the journal, the rows of the legacy table ledger_entries, the lookup of a header in a
-- service, uuid's parser and printer, and the outcome of each send to Kafka are arguments of the
-- definitions that use them; so is the name of an account in the compliance monitor, whose database is
-- taken as available.
--
-- Not modelled. Transactions run one after another, and "follow each other" below means this.
-- shared/database.py sets READ COMMITTED, under which transactions overlap: what a row that is read
-- without FOR UPDATE becomes in a concurrent transaction (two triggers of one conditional payment; the
-- checker's expiry of an escrow against its release) is not modelled. Foreign keys, the column scales
-- below 18 places, and the SQL triggers that copy the newest status or forbid updates are left out, as
-- are narratives, JSON details, metadata and audit columns. A hash of the simulated chain is
-- represented by the text that is hashed. The order of texts in ORDER BY is taken letter by letter.
-- The JSON of a condition or a trigger is made of booleans, natural numbers, texts and lists of texts:
-- floats, negative numbers, null and other lists, which the requests admit, are left out. In a
-- condition, sets of signers are lists, and the null of a missing payee counts as false. The receipts
-- that are stored in trigger_data and in metadata are columns of their own. Of the gateway, the routes
-- that only call the proxy, the audit log and the health check are left out; of fx-settlement, the
-- place of the signature, which stands in the metadata only (its call is Signing.sign_fx_settlement).
-- Of the Kafka client, the producer and the connections are left out; a message that it is given
-- counts as sent. Metrics, the printed texts and the webhook of the integrity checker, scripts/demo.py
-- and the migrations are not modelled.
pub mod Base
pub mod Models
pub mod Shared
pub mod Issuance
pub mod Rtgs
pub mod Payments
pub mod Fx
pub mod Ledger
pub mod Compliance
pub mod Gateway
pub mod Integrity
pub mod Outbox
pub mod Signing
