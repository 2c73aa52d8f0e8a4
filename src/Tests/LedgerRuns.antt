-- ===== src/Tests/LedgerRuns.antt =====
-- A posting between two agents' accounts, run on concrete tables.
use worldsimulator.Prelude.{ℕ, ◌≡◌, refl, false, List, [], ◌∷◌, none, All, ◌⊎◌, map}
use worldsimulator.Prelude.Int.{pos, ◌+ℤ◌, neg}
use worldsimulator.Prelude.Decimal.{Text, is_positive_text, is_integer_text, integer_of}
use worldsimulator.Prelude.Texts.{codes, is_id, trim, text_eq}
use worldsimulator.Prelude.Results.{ok, err, insufficient_funds}
use worldsimulator.Ledger.{
  Account, agent, checking, active, agent_actor, system, admin, Leg, debit, credit, Transaction,
  transfer, Request, Store, PostResult, post, parse_transaction, find_by_idempotency_key,
  get_accounts, account_of, assert_money_channel_authorized, assert_outbound_ownership,
  save_transaction, update_rows, changes, posting_request,
}
use worldsimulator.Ledger.Balances.{total, IsAboveFloor}
use worldsimulator.Ledger.Inversion.{loaded_accounts}
use worldsimulator.Ledger.Laws.{post-total, post_again, replayed}
use worldsimulator.Ledger.Owners.{SpendsOwn}
use worldsimulator.Ledger.Authority.{IsAllowed, post_authorized}
use worldsimulator.Ledger.Reported.{IsReported}
use worldsimulator.Ledger.Reconcile.{Reconciles, IsRebuilt, post-Reconciles}

abbrev zeros : Text
zeros = b'0' ∷ b'0' ∷ b'0' ∷ b'0' ∷ b'0' ∷ b'0' ∷ b'0' ∷ []

abbrev account_id : Text → Text
account_id n = b'a' ∷ b'c' ∷ b'c' ∷ b't' ∷ b'_' ∷ b'0' ∷ b'0' ∷ b'0' ∷ b'0' ∷ b'0' ∷ b'0' ∷ b'0' ∷ n

abbrev run_1 : Text
run_1 = b'r' ∷ b'u' ∷ b'n' ∷ b'_' ∷ b'1' ∷ zeros

abbrev ann : Text
ann = b'a' ∷ []

abbrev bob : Text
bob = b'b' ∷ []

abbrev account : Text → ℕ → Account
account who cents = record {
  id = account_id who;
  run_id = run_1;
  owner_kind = agent;
  owner_id = who;
  type = checking;
  balance_cents = pos cents;
  floor_cents = pos 0;
  status = active;
}

abbrev tables : Store
tables = record { accounts = account ann 500 ∷ account bob 20 ∷ []; transactions = [] }

abbrev legs : Text → List Leg
legs amount =
    record { account_id = account_id ann; direction = credit; amount_cents = amount }
    ∷ record { account_id = account_id bob; direction = debit; amount_cents = amount }
    ∷ []

abbrev payment : Text → Transaction
payment amount = record {
  id = b't' ∷ b'x' ∷ b'n' ∷ b'_' ∷ b'1' ∷ zeros;
  run_id = run_1;
  tick = pos 3;
  kind = transfer;
  actor = record { kind = agent_actor; id = ann };
  reason = b'r' ∷ [];
  source_event_id = none;
  correlation_id = b'c' ∷ [];
  idempotency_key = b'k' ∷ [];
  legs = legs amount;
}

-- A digest that tells requests apart by their reason.
abbrev digest : Request → Text
digest q = q.reason

abbrev fifty : Text
fifty = b'5' ∷ b'0' ∷ []

abbrev after : Store
after = record {
  accounts = account ann 450 ∷ account bob 70 ∷ [];
  transactions = record { transaction = payment fifty; request_hash = b'r' ∷ [] } ∷ [];
}

abbrev receipt : PostResult
receipt = record {
  transaction = payment fifty;
  duplicate = false;
  resulting_balances = (account_id ann, pos 450) ∷ (account_id bob, pos 70) ∷ [];
}

posted : post digest tables (payment fifty) ≡ ok (after, receipt)
unfolding post parse_transaction is_id trim is_positive_text is_integer_text integer_of text_eq
    find_by_idempotency_key get_accounts account_of assert_money_channel_authorized
    assert_outbound_ownership save_transaction update_rows changes posting_request ◌+ℤ◌ neg
posted = refl

overdraft : post digest tables (payment (codes "501")) ≡ err insufficient_funds
unfolding post parse_transaction is_id trim is_positive_text is_integer_text integer_of text_eq
    find_by_idempotency_key get_accounts account_of assert_money_channel_authorized
    assert_outbound_ownership save_transaction update_rows changes posting_request ◌+ℤ◌ neg
overdraft = refl

post-total_example :
    (total after.accounts ≡ total tables.accounts)
    × (IsAboveFloor tables.accounts → IsAboveFloor after.accounts)
post-total_example = post-total digest tables (payment fifty) posted

post_again_example : post digest after (payment fifty) ≡ ok (after, replayed (payment fifty))
post_again_example = post_again digest tables (payment fifty) posted refl

post_authorized_example :
    (t : Transaction) × (parse_transaction (payment fifty) ≡ ok t)
    × ((t.actor.kind ≡ system)
        ⊎ (t.actor.kind ≡ admin)
        ⊎ All (SpendsOwn t.actor (loaded_accounts tables t)) t.legs)
    × IsAllowed t.kind t.actor.kind (loaded_accounts tables t) t.legs
post_authorized_example = post_authorized digest tables (payment fifty) posted refl

post-Reconciles_example :
    (t : Transaction) × (parse_transaction (payment fifty) ≡ ok t)
    × (written : Account → Account) × (after.accounts ≡ map written tables.accounts)
    × ((a : Account) → IsRebuilt t a (written a))
    × Reconciles (loaded_accounts tables t) t.legs receipt.resulting_balances
    × All (IsReported receipt.resulting_balances) t.legs
post-Reconciles_example = post-Reconciles digest tables (payment fifty) posted refl
