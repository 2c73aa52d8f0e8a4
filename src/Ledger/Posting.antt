-- ===== src/Ledger/Posting.antt =====
-- `DoubleEntryLedger.post` and `reconcileLedgerBalance`.
use worldsimulator.Prelude.{
  Bool, true, false, not, List, [], ◌∷◌, none, some, ltb, length, if◌then◌else◌,
}
use worldsimulator.Prelude.Int.{ℤ, pos, ◌+ℤ◌, neg, ltb_ℤ, eqb_ℤ}
use worldsimulator.Prelude.Decimal.{Text}
use worldsimulator.Prelude.Texts.{text_eq}
use worldsimulator.Prelude.Results.{
  validation_failed, not_found, conflict, insufficient_funds, Result, ok, err, ◌>>=◌, ◌>>◌,
  throw_if,
}
use worldsimulator.Money.{money}
use worldsimulator.Ledger.Types.{
  AccountStatus, active, Direction, debit, credit, Leg, Transaction, Request, posting_request,
  Account, parse_transaction,
}
use worldsimulator.Ledger.Tables.{
  Store, contains, find_by_idempotency_key, get_accounts, save_transaction,
}
use worldsimulator.Ledger.Channels.{
  account_of, assert_money_channel_authorized, assert_outbound_ownership,
}

-- `LedgerPostResult`; the warning is set exactly on duplicates.
pub record PostResult : Type 0 where
  pub transaction : Transaction
  pub duplicate : Bool
  pub resulting_balances : List (Text × ℤ)

-- `[...new Set(legs.map((leg) => leg.accountId))]`
unfoldable pub distinct_ids : List Text → List Leg → List Text
distinct_ids seen [] = []
distinct_ids seen (leg ∷ rest) = elim (contains leg.account_id seen) [
  | true ↦ distinct_ids seen rest
  | false ↦ leg.account_id ∷ distinct_ids (leg.account_id ∷ seen) rest
]

abbrev is_active : AccountStatus → Bool
is_active active = true
is_active _ = false

-- The loop that checks the loaded accounts.
unfoldable pub check_accounts : Text → List Account → List Text → Result (Unit {0})
unfolding account_of
check_accounts run accounts [] = ok tt
check_accounts run accounts (id ∷ ids) =
    let rest = check_accounts run accounts ids in
    elim (account_of id accounts) [
      | none ↦ err not_found
      | some a ↦
          if not (text_eq a.run_id run)
          then err conflict
          else if not (is_active a.status)
          then err conflict
          else rest
    ]

-- `deltas.set(id, (deltas.get(id) ?? 0n) + amount)`
unfoldable pub add_delta : Text → ℤ → List (Text × ℤ) → List (Text × ℤ)
add_delta id amount [] = (id, pos 0 +ℤ amount) ∷ []
add_delta id amount ((k, d) ∷ rest) =
    if text_eq k id then (k, d +ℤ amount) ∷ rest else (k, d) ∷ add_delta id amount rest

pub record Tally : Type 0 where
  pub debit_cents : ℤ
  pub credit_cents : ℤ
  pub deltas : List (Text × ℤ)

abbrev pub no_legs : Tally
no_legs = record { debit_cents = pos 0; credit_cents = pos 0; deltas = [] }

abbrev pub tally_leg : Direction → Text → ℤ → Tally → Tally
tally_leg debit id amount t = record t {
  debit_cents = t.debit_cents +ℤ amount;
  deltas = add_delta id amount t.deltas;
}
tally_leg credit id amount t = record t {
  credit_cents = t.credit_cents +ℤ amount;
  deltas = add_delta id (neg amount) t.deltas;
}

-- The loop over the legs.
unfoldable pub tally_legs : List Leg → Tally → Result Tally
unfolding add_delta money
tally_legs [] t = ok t
tally_legs (leg ∷ rest) t = money leg.amount_cents >>= λ amount.
    tally_legs rest (tally_leg leg.direction leg.account_id amount t)

-- The loop over the deltas; the accounts of all keys have been found.
unfoldable pub resulting_balances : List Account → List (Text × ℤ) → Result (List (Text × ℤ))
unfolding account_of
resulting_balances accounts [] = ok []
resulting_balances accounts ((id, delta) ∷ rest) = elim (account_of id accounts) [
  | none ↦ err not_found
  | some a ↦
      throw_if (ltb_ℤ (a.balance_cents +ℤ delta) a.floor_cents) insufficient_funds
      >> (resulting_balances accounts rest >>= λ balances.
          ok ((id, a.balance_cents +ℤ delta) ∷ balances))
]

-- `post` behind the look-up of the idempotency key.
unfoldable pub post_fresh : Store → Transaction → Text → Result (Store × PostResult)
unfolding distinct_ids check_accounts tally_legs resulting_balances
post_fresh s t hash = do
  let ids = distinct_ids [] t.legs
  throw_if (ltb (length ids) 2) validation_failed
  let accounts = get_accounts t.run_id ids s.accounts
  check_accounts t.run_id accounts ids
  assert_money_channel_authorized t accounts
  assert_outbound_ownership t accounts
  tally ← tally_legs t.legs no_legs
  throw_if (not (eqb_ℤ tally.debit_cents tally.credit_cents)) validation_failed
  balances ← resulting_balances accounts tally.deltas
  saved ← save_transaction t hash balances s
  ok (saved, record { transaction = t; duplicate = false; resulting_balances = balances })

-- `post` once the input has been parsed
unfoldable pub post_parsed : Store → Transaction → Text → Result (Store × PostResult)
unfolding post_fresh
post_parsed s t hash = elim (find_by_idempotency_key t.run_id t.idempotency_key s.transactions) [
  | none ↦ post_fresh s t hash
  | some prior ↦
      if text_eq prior.request_hash hash
      then ok
          (s, record { transaction = prior.transaction; duplicate = true; resulting_balances = [] })
      else err conflict
]

unfoldable pub post : (Request → Text) → Store → Transaction → Result (Store × PostResult)
unfolding post_parsed
post hash s input = parse_transaction input >>= λ t. post_parsed s t (hash (posting_request t))

abbrev pub signed : Direction → ℤ → ℤ
signed debit amount = amount
signed credit amount = neg amount

-- `reconcileLedgerBalance`
unfoldable pub reconcile_ledger_balance : ℤ → List Leg → Result ℤ
unfolding money
reconcile_ledger_balance balance [] = ok balance
reconcile_ledger_balance balance (leg ∷ rest) = money leg.amount_cents >>= λ amount.
    reconcile_ledger_balance (balance +ℤ signed leg.direction amount) rest
