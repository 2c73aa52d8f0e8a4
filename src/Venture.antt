-- ===== src/Venture.antt =====
-- packages/engine/src/venture-rules.ts: priced rounds and the deployment of a fund.
pub mod Rounds
use worldsimulator.Prelude.{
  ℕ, ◌+◌, ◌-◌, ◌*◌, ◌/◌, ◌%◌, Bool, true, false, ◌||◌, not, ltb, ◌==◌, if◌then◌else◌,
}
use worldsimulator.Prelude.Int.{ℤ}
use worldsimulator.Prelude.Decimal.{Text, is_canonical_text, is_positive_text, natural_of, print}
use worldsimulator.Prelude.Results.{
  validation_failed, limit_exceeded, conflict, insufficient_funds, Result, ok, err, ◌>>=◌, ◌>>◌,
  throw_if, bounded,
}

-- `signedSqliteMaximum`
abbrev pub signed_sqlite_maximum : ℕ
signed_sqlite_maximum = 9223372036854775807

unfoldable pub cents : Text → (positive : Bool) → Result ℕ
cents value positive =
    if (if positive then is_positive_text value else is_canonical_text value)
    then ok (natural_of value)
    else err validation_failed

pub record Fund : Type 0 where
  pub fund_size_cents : Text
  pub deployed_cents : Text

pub record Deployment : Type 0 where
  pub amount_cents : Text
  pub deployed_before_cents : Text
  pub deployed_after_cents : Text
  pub remaining_cents : Text
  pub fully_deployed : Bool

pub record RoundTerms : Type 0 where
  pub total_shares_before : Text
  pub amount_cents : Text
  pub pre_money_valuation_cents : Text
  pub equity_basis_points : ℤ

pub record RoundQuote : Type 0 where
  pub total_shares_before : Text
  pub shares_issued : Text
  pub total_shares_after : Text
  pub amount_cents : Text
  pub pre_money_valuation_cents : Text
  pub post_money_valuation_cents : Text
  pub price_per_share_cents : Text
  pub equity_basis_points : ℕ

-- `Math.abs(a - b) > 1`
abbrev pub differ_by_more : ℕ → ℕ → Bool
differ_by_more a b = ltb 1 ((a - b) + (b - a))

unfoldable pub quote_priced_round : RoundTerms → Result RoundQuote
quote_priced_round terms = do
  before ← cents terms.total_shares_before true
  amount ← cents terms.amount_cents true
  pre_money ← cents terms.pre_money_valuation_cents true
  throw_if
      (ltb signed_sqlite_maximum before
        || ltb signed_sqlite_maximum amount
        || ltb signed_sqlite_maximum pre_money)
      limit_exceeded
  equity ← bounded terms.equity_basis_points 1 9999
  throw_if (not (pre_money % before == 0)) validation_failed
  let price = pre_money / before
  throw_if (price == 0 || not (amount % price == 0)) validation_failed
  let issued = amount / price
  let after = before + issued
  let post_money = pre_money + amount
  throw_if (ltb signed_sqlite_maximum after || ltb signed_sqlite_maximum post_money) limit_exceeded
  let exact_equity = (issued * 10000 + after / 2) / after
  throw_if (differ_by_more exact_equity equity) validation_failed
  ok (record {
    total_shares_before = print before;
    shares_issued = print issued;
    total_shares_after = print after;
    amount_cents = print amount;
    pre_money_valuation_cents = print pre_money;
    post_money_valuation_cents = print post_money;
    price_per_share_cents = print price;
    equity_basis_points = exact_equity;
  })

unfoldable pub quote_venture_fund_deployment : Fund → Text → Result Deployment
quote_venture_fund_deployment state amount_cents = do
  size ← cents state.fund_size_cents true
  before ← cents state.deployed_cents false
  amount ← cents amount_cents true
  throw_if (ltb size before) conflict
  let after = before + amount
  throw_if (ltb size after) insufficient_funds
  ok (record {
    amount_cents = print amount;
    deployed_before_cents = print before;
    deployed_after_cents = print after;
    remaining_cents = print (size - after);
    fully_deployed = after == size;
  })
