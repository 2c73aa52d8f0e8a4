-- ===== src/Venture/Rounds.antt =====
-- What a priced round and a deployment come to.
use worldsimulator.Prelude.{
  ℕ, zero, suc, ◌+◌, ◌-◌, ◌*◌, ◌/◌, ◌%◌, ◌≤◌, ◌<◌, ◌≡◌, refl, ◌↔◌, Bool, true, false, ◌||◌, not,
  ltb, ◌==◌, arith,
}
use worldsimulator.Prelude.Int.{pos}
use worldsimulator.Prelude.Decimal.{
  print, natural_of, natural_of-print, is_positive_text-print, is_canonical_text-print,
}
use worldsimulator.Prelude.Results.{
  ok, err, validation_failed, limit_exceeded, conflict, insufficient_funds, >>=-eq-ok,
  throw_if-eq-ok, ok-injective, bounded, bounded-eq-ok,
}
use worldsimulator.Money.Natural.{div_mod}
use worldsimulator.Venture.{
  signed_sqlite_maximum, cents, RoundTerms, RoundQuote, differ_by_more, quote_priced_round, Fund,
  Deployment, quote_venture_fund_deployment,
}

-- The numbers of a quote balance: shares at the price are worth the money, before, issued, after.
abbrev pub Balances : (price before issued after amount pre post : ℕ) → Type 0
Balances price before issued after amount pre post =
    (0 < price)
    × (price * before ≡ pre)
    × (price * issued ≡ amount)
    × (price * after ≡ post)
    × (after ≡ before + issued)
    × (post ≡ pre + amount)

exact_quotient : (n d : ℕ) → 0 < d → not (n % d == 0) ≡ false → d * (n / d) ≡ n
exact_quotient n d h e = omega (arith, div_mod n d h, exact n d e)
  where
    exact : (n d : ℕ) → not (n % d == 0) ≡ false → n % d ≡ 0
    exact n d e = ground arith

quotient-Balances :
    (pre before amount : ℕ)
    → not (pre % before == 0) ≡ false
    → (pre / before == 0 || not (amount % (pre / before) == 0)) ≡ false
    → Balances
        (pre / before)
        before
        (amount / (pre / before))
        (before + amount / (pre / before))
        amount
        pre
        (pre + amount)
quotient-Balances pre before amount whole priced =
    let positive = price_positive (pre / before) (not (amount % (pre / before) == 0)) priced in
    let worth : pre / before * before ≡ pre =
      exact_product pre before (shares_positive pre before positive.0) whole in
    let paid = exact_quotient amount (pre / before) positive.0 positive.1 in
    (
      positive.0,
      worth,
      paid,
      together (pre / before) before (amount / (pre / before)) worth paid,
      refl,
      refl,
    )
  where
    price_positive : (p : ℕ) (b : Bool) → (p == 0 || b) ≡ false → (0 < p) × (b ≡ false)
    price_positive p b e = ground arith

    shares_positive : (n d : ℕ) → 0 < n / d → 0 < d
    shares_positive n zero h = omega arith
    shares_positive n (suc d) h = omega arith

    exact_product : (n d : ℕ) → 0 < d → not (n % d == 0) ≡ false → n / d * d ≡ n
    exact_product n d h e = omega (arith, exact_quotient n d h e)

    together :
        {pre amount : ℕ} (p a b : ℕ) → p * a ≡ pre → p * b ≡ amount → p * (a + b) ≡ pre + amount
    together p a b x y = omega (arith, x, y)

within_one : (a b : ℕ) → differ_by_more a b ≡ false → (a ≤ b + 1) × (b ≤ a + 1)
within_one a b e = ground arith

printed :
    (p b i a m r o : ℕ)
    → Balances p b i a m r o
    → Balances
        (natural_of (print p))
        (natural_of (print b))
        (natural_of (print i))
        (natural_of (print a))
        (natural_of (print m))
        (natural_of (print r))
        (natural_of (print o))
printed p b i a m r o h =
    rw
      (
        natural_of-print p,
        natural_of-print b,
        natural_of-print i,
        natural_of-print a,
        natural_of-print m,
        natural_of-print r,
        natural_of-print o,
      )
      h

printed_fits :
    (a o most : ℕ)
    → ltb most a || ltb most o ≡ false
    → (natural_of (print a) ≤ most) × (natural_of (print o) ≤ most)
printed_fits a o most e = rw (natural_of-print a, natural_of-print o) (ground arith)

-- A priced round that is quoted is exact: the price is positive, the shares before, issued and
-- after are worth the valuation before, the investment and the valuation after, with nothing
-- rounded; the round's totals are sums and fit the database's integers; and the equity quoted
-- differs from the negotiated one by at most one basis point.
pub quote_priced_round-Balances :
    (terms : RoundTerms) {q : RoundQuote}
    → quote_priced_round terms ≡ ok q
    → Balances
        (natural_of q.price_per_share_cents)
        (natural_of q.total_shares_before)
        (natural_of q.shares_issued)
        (natural_of q.total_shares_after)
        (natural_of q.amount_cents)
        (natural_of q.pre_money_valuation_cents)
        (natural_of q.post_money_valuation_cents)
      × ((natural_of q.total_shares_after ≤ signed_sqlite_maximum)
          × (natural_of q.post_money_valuation_cents ≤ signed_sqlite_maximum))
      × (equity : ℕ) × (terms.equity_basis_points ≡ pos equity)
      × ((q.equity_basis_points ≤ equity + 1) × (equity ≤ q.equity_basis_points + 1))
unfolding quote_priced_round
quote_priced_round-Balances terms {q} e =
    let (before, _, e₁) = >>=-eq-ok (cents terms.total_shares_before true) _ e in
    let (amount, _, e₂) = >>=-eq-ok (cents terms.amount_cents true) _ e₁ in
    let (pre, _, e₃) = >>=-eq-ok (cents terms.pre_money_valuation_cents true) _ e₂ in
    let (_, e₄) =
      throw_if-eq-ok
        (ltb signed_sqlite_maximum before
          || ltb signed_sqlite_maximum amount
          || ltb signed_sqlite_maximum pre)
        limit_exceeded _ e₃ in
    let (equity, b, e₅) = >>=-eq-ok (bounded terms.equity_basis_points 1 9999) _ e₄ in
    let (whole, e₆) = throw_if-eq-ok (not (pre % before == 0)) validation_failed _ e₅ in
    let price = pre / before in
    let (priced, e₇) =
      throw_if-eq-ok (price == 0 || not (amount % price == 0)) validation_failed _ e₆ in
    let after = before + amount / price in
    let (fits, e₈) =
      throw_if-eq-ok (ltb signed_sqlite_maximum after || ltb signed_sqlite_maximum (pre + amount))
        limit_exceeded _ e₇ in
    let exact_equity = (amount / price * 10000 + after / 2) / after in
    let (close, e₉) = throw_if-eq-ok (differ_by_more exact_equity equity) validation_failed _ e₈ in
    rw (← ok-injective e₉) (
      printed price before (amount / price) after amount pre (pre + amount)
          (quotient-Balances pre before amount whole priced),
      printed_fits after (pre + amount) signed_sqlite_maximum fits,
      equity,
      (bounded-eq-ok terms.equity_basis_points 1 9999 b).0,
      within_one exact_equity equity close,
    )

abbrev deployed_quote : (size deployed amount : ℕ) → Deployment
deployed_quote size deployed amount = record {
  amount_cents = print amount;
  deployed_before_cents = print deployed;
  deployed_after_cents = print (deployed + amount);
  remaining_cents = print (size - (deployed + amount));
  fully_deployed = deployed + amount == size;
}

-- A deployment of a positive amount from a fund is quoted when it fits: it leaves the fund's size
-- less all that is deployed, and is reported full exactly when nothing is left. One that does not
-- fit is refused for lack of funds, and a fund already overdrawn is a conflict.
pub deployment_cases :
    (size deployed amount : ℕ)
    → 0 < size
    → 0 < amount
    → let state : Fund = record { fund_size_cents = print size; deployed_cents = print deployed } in
      (deployed + amount ≤ size
        → (d : Deployment) × (quote_venture_fund_deployment state (print amount) ≡ ok d)
          × (natural_of d.deployed_after_cents ≡ deployed + amount)
          × (natural_of d.deployed_after_cents + natural_of d.remaining_cents ≡ size)
          × ((d.fully_deployed ≡ true) ↔ (natural_of d.remaining_cents ≡ 0)))
      × (deployed ≤ size
          → size < deployed + amount
          → quote_venture_fund_deployment state (print amount) ≡ err insufficient_funds)
      × (size < deployed → quote_venture_fund_deployment state (print amount) ≡ err conflict)
unfolding quote_venture_fund_deployment cents
deployment_cases size deployed amount s a =
    rw
      (
        is_positive_text-print size s,
        is_canonical_text-print deployed,
        is_positive_text-print amount a,
        natural_of-print size,
        natural_of-print deployed,
        natural_of-print amount,
      )
      (
        λ fits. (
          deployed_quote size deployed amount,
          ground arith,
          natural_of-print (deployed + amount),
          rw (natural_of-print (deployed + amount), natural_of-print (size - (deployed + amount)))
              (omega arith),
          rw (natural_of-print (size - (deployed + amount))) (λ e. ground arith, λ e. ground arith),
        ),
        λ h k. ground arith,
        λ h. ground arith,
      )
