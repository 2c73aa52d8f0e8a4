-- ===== src/Ledger/Types.antt =====
-- The records and enumerations of packages/shared/src/finance.ts and packages/engine/src/ledger.ts,
-- and the schema that `post` parses its input by.
use worldsimulator.Prelude.{
  Bool, true, false, ◌&&◌, List, Option, none, some, leb, ltb, length, every, if◌then◌else◌,
}
use worldsimulator.Prelude.Int.{ℤ, pos, negsuc}
use worldsimulator.Prelude.Decimal.{Text, is_positive_text}
use worldsimulator.Prelude.Texts.{codes, is_id, trim}
use worldsimulator.Prelude.Results.{zod_error, Result, ok, err, max_safe}

pub data AccountOwnerKind : Type 0 where
  agent company government bank_internal system_row : AccountOwnerKind

pub data BankAccountType : Type 0 where
  checking internal_asset internal_liability internal_income internal_expense equity :
      BankAccountType

pub data AccountStatus : Type 0 where
  active frozen closed : AccountStatus

pub data TransactionKind : Type 0 where
  payroll purchase loan_disbursement loan_payment tax benefit transfer fee dividend mint :
      TransactionKind
  row_settlement : TransactionKind

pub data Direction : Type 0 where
  debit credit : Direction

pub data ActorKind : Type 0 where
  agent_actor institution system admin : ActorKind

pub record ActorRef : Type 0 where
  pub kind : ActorKind
  pub id : Text

pub record Leg : Type 0 where
  pub account_id : Text
  pub direction : Direction
  pub amount_cents : Text

pub record Transaction : Type 0 where
  pub id : Text
  pub run_id : Text
  pub tick : ℤ
  pub kind : TransactionKind
  pub actor : ActorRef
  pub reason : Text
  pub source_event_id : Option Text
  pub correlation_id : Text
  pub idempotency_key : Text
  pub legs : List Leg

-- The fields that `postingRequestHash` digests.
pub record Request : Type 0 where
  pub run_id : Text
  pub tick : ℤ
  pub kind : TransactionKind
  pub actor : ActorRef
  pub reason : Text
  pub source_event_id : Option Text
  pub correlation_id : Text
  pub legs : List Leg

unfoldable pub posting_request : Transaction → Request
posting_request t = record {
  run_id = t.run_id;
  tick = t.tick;
  kind = t.kind;
  actor = t.actor;
  reason = t.reason;
  source_event_id = t.source_event_id;
  correlation_id = t.correlation_id;
  legs = t.legs;
}

pub record Account : Type 0 where
  pub id : Text
  pub run_id : Text
  pub owner_kind : AccountOwnerKind
  pub owner_id : Text
  pub type : BankAccountType
  pub balance_cents : ℤ
  pub floor_cents : ℤ
  pub status : AccountStatus

pub record Stored : Type 0 where
  pub transaction : Transaction
  pub request_hash : Text

abbrev nonempty : Text → Bool
nonempty s = ltb 0 (length s)

abbrev nullable_nonempty : Option Text → Bool
nullable_nonempty none = true
nullable_nonempty (some s) = nonempty s

is_tick : ℤ → Bool
is_tick (pos n) = leb n max_safe
is_tick (negsuc n) = false

is_leg : Leg → Bool
is_leg leg = is_id (codes "acct_") leg.account_id && is_positive_text leg.amount_cents

-- `ledgerTransactionSchema.parse`, which trims two of the texts
unfoldable pub parse_transaction : Transaction → Result Transaction
unfolding is_tick is_leg
parse_transaction t =
    let reason = trim t.reason in
    let key = trim t.idempotency_key in
    if is_id (codes "txn_") t.id
      && is_id (codes "run_") t.run_id
      && is_tick t.tick
      && nonempty t.actor.id
      && nonempty reason
      && leb (length reason) 500
      && nullable_nonempty t.source_event_id
      && nonempty t.correlation_id
      && nonempty key
      && leb (length key) 300
      && every is_leg t.legs
      && leb 2 (length t.legs)
    then ok (record t { reason = reason; idempotency_key = key })
    else err zod_error
