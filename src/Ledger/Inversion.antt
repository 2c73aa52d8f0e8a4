-- ===== src/Ledger/Inversion.antt =====
-- What a posting that returns has gone through: every guard passed, in order.
use worldsimulator.Prelude.{◌≡◌, sym, ◌∙◌, false, not, List, [], ◌∷◌, ltb, length, ap, arith}
use worldsimulator.Prelude.Int.{ℤ, eqb_ℤ, eq_of_parts}
use worldsimulator.Prelude.Decimal.{Text}
use worldsimulator.Prelude.Results.{
  Result, ok, validation_failed, sql_error, >>=-eq-ok, throw_if-eq-ok, ok-injective,
}
use worldsimulator.Ledger.Types.{Transaction, Account}
use worldsimulator.Ledger.Tables.{
  Store, any, get_accounts, update_balances, breaks_key, save_transaction,
}
use worldsimulator.Ledger.Channels.{assert_money_channel_authorized, assert_outbound_ownership}
use worldsimulator.Ledger.Posting.{
  PostResult, Tally, no_legs, distinct_ids, check_accounts, tally_legs, resulting_balances,
  post_fresh,
}

-- The accounts that `post` loads.
abbrev pub loaded_accounts : Store → Transaction → List Account
loaded_accounts s t = get_accounts t.run_id (distinct_ids [] t.legs) s.accounts

pub record Passed (s : Store) (t : Transaction) (hash : Text) (s' : Store) (r : PostResult)
    : Type 0 where
  pub tally : Tally
  pub balances : List (Text × ℤ)
  pub two_accounts : ltb (length (distinct_ids [] t.legs)) 2 ≡ false
  pub checked : check_accounts t.run_id (loaded_accounts s t) (distinct_ids [] t.legs) ≡ ok tt
  pub authorized : assert_money_channel_authorized t (loaded_accounts s t) ≡ ok tt
  pub owned : assert_outbound_ownership t (loaded_accounts s t) ≡ ok tt
  pub tallied : tally_legs t.legs no_legs ≡ ok tally
  pub balanced : tally.debit_cents ≡ tally.credit_cents
  pub computed : resulting_balances (loaded_accounts s t) tally.deltas ≡ ok balances
  pub updated : update_balances t.run_id balances s.accounts ≡ ok s'.accounts
  pub stored : s'.transactions ≡ record { transaction = t; request_hash = hash } ∷ s.transactions
  pub reported : r ≡ record { transaction = t; duplicate = false; resulting_balances = balances }

save_inversion :
    (t : Transaction) (hash : Text) (balances : List (Text × ℤ)) (s : Store) {s' : Store}
    → save_transaction t hash balances s ≡ ok s'
    → (update_balances t.run_id balances s.accounts ≡ ok s'.accounts)
      × (s'.transactions ≡ record { transaction = t; request_hash = hash } ∷ s.transactions)
unfolding save_transaction
save_inversion t hash balances s e =
    let (_, e₁) = throw_if-eq-ok (any (breaks_key t) s.transactions) sql_error _ e in
    let (accounts, w, e₂) = >>=-eq-ok (update_balances t.run_id balances s.accounts) _ e₁ in
    let saved = ok-injective e₂ in
    (w ∙ ap (λ x. ok x.accounts) saved, sym (ap (λ x. x.transactions) saved))

unit_ok : {r : Result (Unit {0})} {u : Unit {0}} → r ≡ ok u → r ≡ ok tt
unit_ok e = e

pub post_fresh_inversion :
    (s : Store) (t : Transaction) (hash : Text) {s' : Store} {r : PostResult}
    → post_fresh s t hash ≡ ok (s', r)
    → Passed s t hash s' r
unfolding post_fresh
post_fresh_inversion s t hash {s'} {r} e₀ =
    let ids = distinct_ids [] t.legs in
    let accounts = get_accounts t.run_id ids s.accounts in
    let (two, e₁) = throw_if-eq-ok (ltb (length ids) 2) validation_failed _ e₀ in
    let (_, c, e₂) = >>=-eq-ok (check_accounts t.run_id accounts ids) _ e₁ in
    let (_, m, e₃) = >>=-eq-ok (assert_money_channel_authorized t accounts) _ e₂ in
    let (_, o, e₄) = >>=-eq-ok (assert_outbound_ownership t accounts) _ e₃ in
    let (tally, l, e₅) = >>=-eq-ok (tally_legs t.legs no_legs) _ e₄ in
    let (equal, e₆) =
      throw_if-eq-ok (not (eqb_ℤ tally.debit_cents tally.credit_cents)) validation_failed _ e₅ in
    let (balances, b, e₇) = >>=-eq-ok (resulting_balances accounts tally.deltas) _ e₆ in
    let (saved, w, e₈) = >>=-eq-ok (save_transaction t hash balances s) _ e₇ in
    let same = ok-injective e₈ in
    let (updated, stored) = save_inversion t hash balances s w in
    record {
      tally = tally;
      balances = balances;
      two_accounts = two;
      checked = unit_ok c;
      authorized = unit_ok m;
      owned = unit_ok o;
      tallied = l;
      balanced = eq_of_parts tally.debit_cents tally.credit_cents (ground arith);
      computed = b;
      updated = updated ∙ ap (λ x. ok x.0.accounts) same;
      stored = sym (ap (λ x. x.0.transactions) same) ∙ stored;
      reported = sym (ap (λ x. x.1) same);
    }
