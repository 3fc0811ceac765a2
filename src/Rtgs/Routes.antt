-- ===== src/Rtgs/Routes.antt =====
-- The routes of services/rtgs/main.py.
use stablecoin_infrastructur.Base.{
  ℕ, String, Bool, true, not, ◌&&◌, List, [], ◌∷◌, Option, none, some, ltb, leb, if◌then◌else◌,
  find, exists, select, take,
}
use stablecoin_infrastructur.Models.Enums.{
  SettlementStatus, CurrencyCode, settlement_value, is_settlement,
}
use stablecoin_infrastructur.Models.Refs.{Ref, truthy, same_ref}
use stablecoin_infrastructur.Models.Events.{Event}
use stablecoin_infrastructur.Models.Rows.{RtgsSettlement, StatusHistory}
use stablecoin_infrastructur.Models.Database.{Database}
use stablecoin_infrastructur.Shared.Session.{
  Action, http, invalid_operation, pure, gets, or_raise, modify, insert, uuid4, get_db_session,
  ◌>>=◌, ◌>>◌,
}
use stablecoin_infrastructur.Shared.Money.{Decimal, quantize_8}
use stablecoin_infrastructur.Shared.Status.{record_status_with, insert_outbox_event}
use stablecoin_infrastructur.Shared.Tables.{get_account, require_active, ref_or_mint}
use stablecoin_infrastructur.Shared.Access.{
  Request, require_role, validate_transition, rtgs_valid_transitions, check_separation_of_duties,
}
use stablecoin_infrastructur.Rtgs.{save}

pub record SubmitRequest : Type 0 where
  pub sending_account_id : ℕ
  pub receiving_account_id : ℕ
  pub currency : CurrencyCode
  pub amount : Decimal
  pub priority : String
  pub idempotency_key : Option Ref

-- The settlement of a reference.
abbrev pub settlement_of : Ref → Database → Option RtgsSettlement
settlement_of r db = find (λ s. same_ref s.settlement_ref r) db.rtgs_settlements

abbrev pub existing_settlement : Option Ref → Database → Option RtgsSettlement
existing_settlement none db = none
existing_settlement (some r) db = settlement_of r db

-- The unique column and the CHECK of `rtgs_settlements`.
abbrev insert_settlement : RtgsSettlement → Action (Unit {0})
insert_settlement s w =
    insert
      (not (exists (λ r. same_ref r.settlement_ref s.settlement_ref) w.db.rtgs_settlements)
        && ltb 0 s.amount)
      (λ db. record db { rtgs_settlements = s ∷ db.rtgs_settlements }) w

-- The part of `submit_settlement` behind the idempotency guard; the response is read off the row.
unfoldable pub submit_new : SubmitRequest → Action RtgsSettlement
unfolding insert_outbox_event
submit_new req = do
  ref ← ref_or_mint (truthy req.idempotency_key) "RTGS"
  amount ← or_raise (quantize_8 req.amount) invalid_operation
  id ← uuid4
  now ← gets (λ w. w.now)
  let settlement : RtgsSettlement = record {
    id = id;
    settlement_ref = ref;
    sending_account_id = req.sending_account_id;
    receiving_account_id = req.receiving_account_id;
    currency = req.currency;
    amount = amount;
    priority = req.priority;
    status = SettlementStatus.pending;
    transaction_id = none;
    queued_at = now;
    processing_started = none;
    settled_at = none;
    retry_count = 0;
    approved_by = none;
    approved_at = none;
    signed_by = none;
    signed_at = none;
    token_leg = none;
    fiat_leg = none;
  }
  insert_settlement settlement
  insert_outbox_event ref "rtgs.settlement.submitted" (
      Event.rtgs_settlement_submitted ref req.sending_account_id req.receiving_account_id
        req.currency amount req.priority)
  pure settlement

abbrev or_submit : Option RtgsSettlement → Action RtgsSettlement → Action RtgsSettlement
or_submit (some s) m = pure s
or_submit none m = m

-- POST /settlements/submit
unfoldable pub submit_settlement : SubmitRequest → Action RtgsSettlement
unfolding get_db_session require_active submit_new
submit_settlement req = get_db_session (do
  sender ← gets (λ w. get_account req.sending_account_id w.db)
  require_active sender "Sending account not found or inactive"
  receiver ← gets (λ w. get_account req.receiving_account_id w.db)
  require_active receiver "Receiving account not found or inactive"
  found ← gets (λ w. existing_settlement (truthy req.idempotency_key) w.db)
  or_submit found (submit_new req))

-- POST /settlements/{settlement_ref}/approve
unfoldable pub approve_settlement : Ref → Request → Action RtgsSettlement
unfolding get_db_session require_role validate_transition record_status_with
approve_settlement ref request = get_db_session (do
  require_role ("admin" ∷ "approver" ∷ []) request
  found ← gets (λ w. settlement_of ref w.db)
  s ← or_raise found (http 404 "Settlement not found")
  validate_transition (settlement_value s.status) "approved" rtgs_valid_transitions
  now ← gets (λ w. w.now)
  let approved : RtgsSettlement = record s {
    status = SettlementStatus.approved;
    approved_by = request.actor_id;
    approved_at = some now;
  }
  modify (save approved)
  record_status_with StatusHistory.rtgs_settlement s.id "approved" none request.actor_id
  pure approved)

-- POST /settlements/{settlement_ref}/sign
unfoldable pub sign_settlement : Ref → Request → Action RtgsSettlement
unfolding get_db_session require_role validate_transition check_separation_of_duties
    record_status_with
sign_settlement ref request = get_db_session (do
  require_role ("admin" ∷ "signer" ∷ []) request
  found ← gets (λ w. settlement_of ref w.db)
  s ← or_raise found (http 404 "Settlement not found")
  validate_transition (settlement_value s.status) "signed" rtgs_valid_transitions
  check_separation_of_duties s.approved_by request.actor_id
  now ← gets (λ w. w.now)
  let signed : RtgsSettlement = record s {
    status = SettlementStatus.signed;
    signed_by = request.actor_id;
    signed_at = some now;
  }
  modify (save signed)
  record_status_with StatusHistory.rtgs_settlement s.id "signed" none request.actor_id
  pure signed)

-- GET /settlements/{settlement_ref}
unfoldable pub get_settlement : Ref → Action RtgsSettlement
get_settlement ref = get_db_session (do
  found ← gets (λ w. settlement_of ref w.db)
  or_raise found (http 404 "Settlement not found"))

-- ORDER BY queued_at DESC
unfoldable insert_latest : RtgsSettlement → List RtgsSettlement → List RtgsSettlement
insert_latest s [] = s ∷ []
insert_latest s (t ∷ ts) =
    let rest = insert_latest s ts in if leb t.queued_at s.queued_at then s ∷ t ∷ ts else t ∷ rest

unfoldable latest_first : List RtgsSettlement → List RtgsSettlement
unfolding insert_latest
latest_first [] = []
latest_first (s ∷ ss) = insert_latest s (latest_first ss)

abbrev has_status : Option SettlementStatus → RtgsSettlement → Bool
has_status none s = true
has_status (some x) s = is_settlement s.status x

-- GET /settlements
unfoldable pub list_settlements :
    Option SettlementStatus → (limit : ℕ) → Database → List RtgsSettlement
unfolding latest_first
list_settlements status limit db =
    take limit (latest_first (select (has_status status) db.rtgs_settlements))
