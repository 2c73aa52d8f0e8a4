-- ===== src/Ledger/Tables.antt =====
-- The part of `SqliteFinanceStore` that the ledger uses: the tables `bank_accounts` and
-- `ledger_transactions`, their keys, and the three methods of `LedgerRepository`.
use worldsimulator.Prelude.{
  ℕ, ◌+◌, Bool, true, false, ◌&&◌, List, [], ◌∷◌, Option, none, some, map, ◌==◌, if◌then◌else◌,
  filter,
}
use worldsimulator.Prelude.Int.{ℤ}
use worldsimulator.Prelude.Decimal.{Text}
use worldsimulator.Prelude.Texts.{text_eq}
use worldsimulator.Prelude.Results.{conflict, sql_error, Result, ok, err, ◌>>=◌, ◌>>◌, throw_if}
use worldsimulator.Ledger.Types.{Account, Transaction, Stored}

pub record Store : Type 0 where
  pub accounts : List Account
  pub transactions : List Stored

abbrev pub any {ℓ} : {A : Type ℓ} → (A → Bool) → List A → Bool
any p [] = false
any p (x ∷ xs) = if p x then true else any p xs

abbrev pub contains : Text → List Text → Bool
contains k = any (text_eq k)

unfoldable pub find_by_idempotency_key : Text → Text → List Stored → Option Stored
find_by_idempotency_key run key [] = none
find_by_idempotency_key run key (s ∷ rest) =
    if text_eq s.transaction.run_id run && text_eq s.transaction.idempotency_key key
    then some s
    else find_by_idempotency_key run key rest

-- `run_id = ? AND id = ?`
unfoldable pub is_account : Text → Text → Account → Bool
is_account run id a = text_eq a.run_id run && text_eq a.id id

unfoldable pub get_accounts : Text → List Text → List Account → List Account
get_accounts run ids = filter (λ a. text_eq a.run_id run && contains a.id ids)

-- `UPDATE bank_accounts SET balance_cents = ? WHERE run_id = ? AND id = ?`, and its `changes`
unfoldable pub update_rows : Text → Text → ℤ → List Account → List Account
unfolding is_account
update_rows run id balance =
    map (λ a. if is_account run id a then record a { balance_cents = balance } else a)

unfoldable pub changes : Text → Text → List Account → ℕ
unfolding is_account
changes run id [] = 0
changes run id (a ∷ as') = (if is_account run id a then 1 else 0) + changes run id as'

unfoldable pub update_balances : Text → List (Text × ℤ) → List Account → Result (List Account)
unfolding update_rows changes
update_balances run [] accounts = ok accounts
update_balances run ((id, balance) ∷ rest) accounts =
    if changes run id accounts == 1
    then update_balances run rest (update_rows run id balance accounts)
    else err conflict

-- The keys of `ledger_transactions`: `PRIMARY KEY (run_id, id)`, `UNIQUE (run_id,
-- idempotency_key)`. A row that breaks one is refused.
unfoldable pub breaks_key : Transaction → Stored → Bool
breaks_key t s =
    text_eq s.transaction.run_id t.run_id
    && (if text_eq s.transaction.id t.id
        then true
        else text_eq s.transaction.idempotency_key t.idempotency_key)

unfoldable pub save_transaction : Transaction → Text → List (Text × ℤ) → Store → Result Store
unfolding update_balances breaks_key
save_transaction t hash balances s = do
  throw_if (any (breaks_key t) s.transactions) sql_error
  accounts ← update_balances t.run_id balances s.accounts
  ok (record {
    accounts = accounts;
    transactions = record { transaction = t; request_hash = hash } ∷ s.transactions;
  })
