-- ===== src/Distributions/Conservation.antt =====
-- A distribution pays out the amount, to the shares that were staked.
use worldsimulator.Prelude.{
  ℕ, suc, ◌+◌, ◌<◌, ◌≤◌, ◌≡◌, refl, sym, ap, ◌∙◌, Bool, true, false, not, ◌||◌, List, [], ◌∷◌, map,
  ltb, ◌==◌, length, length-map, sum, if◌then◌else◌, arith,
}
use worldsimulator.Prelude.Int.{ℤ, pos, ◌+ℤ◌, sum_ℤ}
use worldsimulator.Prelude.Decimal.{
  Text, natural_of, integer_of, natural_of-print, natural_of-positive, integer_of-print_ℤ,
}
use worldsimulator.Prelude.Texts.{text_eq, trim}
use worldsimulator.Prelude.Sort.{sort, sum_of, sum_of-sort, length-sort}
use worldsimulator.Prelude.Results.{
  Result, ok, err, validation_failed, limit_exceeded, ◌>>=◌, >>=-eq-ok, throw_if-eq-ok,
  ok-injective,
}
use worldsimulator.Money.{allocate}
use worldsimulator.Money.Allocation.{allocate_exact}
use worldsimulator.Distributions.{
  HolderKind, Stake, Owner, AllocationQuote, DistributionQuote, positive_integer, add_shares,
  same_holder, aggregate, owner_before, quotes_of, shares_of, quote_investment_distribution,
  signed_sqlite_maximum,
}

positive_integer-natural_of :
    (value : Text) {n : ℕ} → positive_integer value ≡ ok n → n ≡ natural_of value
unfolding positive_integer
positive_integer-natural_of value h = ground arith

added_one :
    (kind : HolderKind) (id : Text) (shares : ℕ) (o : Owner) (os : List Owner) (same high : Bool)
    (later : Result (List Owner)) {after : List Owner}
    → ((rest : List Owner) → later ≡ ok rest → sum_of shares_of rest ≡ shares + sum_of shares_of os)
    → (if same
        then (if high
            then err limit_exceeded
            else ok (record o { shares = o.shares + shares } ∷ os))
        else (later >>= λ rest. ok (o ∷ rest)))
      ≡ ok after
    → sum_of shares_of after ≡ shares + sum_of shares_of (o ∷ os)
added_one kind id shares o os true true later r k = absurd (ground arith)
added_one kind id shares o os true false later r k = rw (← ok-injective k) (omega arith)
added_one kind id shares o os false high (err thrown) r k = absurd (ground arith)
added_one kind id shares o os false high (ok rest) r k =
    rw (← ok-injective k) (omega (arith, r rest refl))

add_shares-sum :
    (kind : HolderKind) (id : Text) (shares : ℕ) (owners : List Owner) {after : List Owner}
    → add_shares kind id shares owners ≡ ok after
    → sum_of shares_of after ≡ shares + sum_of shares_of owners
unfolding add_shares
add_shares-sum kind id shares [] h = rw (← ok-injective h) (omega arith)
add_shares-sum kind id shares (o ∷ os) h =
    added_one kind id shares o os (same_holder kind id o)
      (ltb signed_sqlite_maximum (o.shares + shares)) (add_shares kind id shares os)
      (λ rest e. add_shares-sum kind id shares os e) h

abbrev pub staked : Stake → ℕ
staked stake = natural_of stake.shares

aggregate-sum :
    (stakes : List Stake) (owners : List Owner) {after : List Owner}
    → aggregate stakes owners ≡ ok after
    → sum_of shares_of after ≡ sum_of staked stakes + sum_of shares_of owners
unfolding aggregate
aggregate-sum [] owners h = rw (← ok-injective h) (omega arith)
aggregate-sum (stake ∷ stakes) owners h =
    let unnamed =
      length stake.holder_id == 0 || not (text_eq (trim stake.holder_id) stake.holder_id) in
    let h1 = (throw_if-eq-ok unnamed validation_failed _ h).1 in
    let (shares, read, h2) = >>=-eq-ok (positive_integer stake.shares) _ h1 in
    let (more, added, h3) =
      >>=-eq-ok (add_shares stake.holder_kind stake.holder_id shares owners) _ h2 in
    omega (
      arith,
      positive_integer-natural_of stake.shares read,
      add_shares-sum stake.holder_kind stake.holder_id shares owners added,
      aggregate-sum stakes more h3,
    )

abbrev pub received : AllocationQuote → ℤ
received a = integer_of a.amount_cents

abbrev pub held : AllocationQuote → ℕ
held a = natural_of a.shares

quotes-received :
    (os : List Owner) (amounts : List ℤ)
    → length amounts ≡ length os
    → sum_ℤ (map received (quotes_of os amounts)) ≡ sum_ℤ amounts
unfolding quotes_of
quotes-received [] [] h = refl
quotes-received [] (a ∷ as') h = absurd (omega (arith, h))
quotes-received (o ∷ os) [] h = absurd (omega (arith, h))
quotes-received (o ∷ os) (a ∷ as') h =
    rw (integer_of-print_ℤ a) (ap (λ s. a +ℤ s) (quotes-received os as' (omega (arith, h))))

quotes-held :
    (os : List Owner) (amounts : List ℤ)
    → length amounts ≡ length os
    → sum_of held (quotes_of os amounts) ≡ sum_of shares_of os
unfolding quotes_of
quotes-held [] [] h = refl
quotes-held [] (a ∷ as') h = absurd (omega (arith, h))
quotes-held (o ∷ os) [] h = absurd (omega (arith, h))
quotes-held (o ∷ os) (a ∷ as') h =
    omega (arith, natural_of-print o.shares, quotes-held os as' (omega (arith, h)))

length-quotes_of :
    (os : List Owner) (amounts : List ℤ)
    → length amounts ≡ length os
    → length (quotes_of os amounts) ≡ length os
unfolding quotes_of
length-quotes_of [] [] h = refl
length-quotes_of [] (a ∷ as') h = absurd (omega (arith, h))
length-quotes_of (o ∷ os) [] h = absurd (omega (arith, h))
length-quotes_of (o ∷ os) (a ∷ as') h = ap suc (length-quotes_of os as' (omega (arith, h)))

positive_integer-positive : (value : Text) {n : ℕ} → positive_integer value ≡ ok n → 0 < n
unfolding positive_integer
positive_integer-positive value h = ground (arith, natural_of-positive value)

-- At least one share has been staked.
aggregate-positive :
    (stakes : List Stake) (owners : List Owner) {after : List Owner}
    → (length stakes == 0) ≡ false
    → aggregate stakes owners ≡ ok after
    → 0 < sum_of staked stakes
unfolding aggregate
aggregate-positive [] owners n h = absurd (ground arith)
aggregate-positive (stake ∷ stakes) owners n h =
    let unnamed =
      length stake.holder_id == 0 || not (text_eq (trim stake.holder_id) stake.holder_id) in
    let h1 = (throw_if-eq-ok unnamed validation_failed _ h).1 in
    let (shares, read, h2) = >>=-eq-ok (positive_integer stake.shares) _ h1 in
    omega (
      arith,
      positive_integer-natural_of stake.shares read,
      positive_integer-positive stake.shares read,
    )

shares_as_weights : (os : List Owner) → map (λ o. pos o.shares) os ≡ map pos (map shares_of os)
shares_as_weights [] = refl
shares_as_weights (o ∷ os) = ap (λ ws. pos o.shares ∷ ws) (shares_as_weights os)

sum_shares : (os : List Owner) → sum (map shares_of os) ≡ sum_of shares_of os
sum_shares [] = refl
sum_shares (o ∷ os) = ap (λ n. o.shares + n) (sum_shares os)

allocated :
    (amount : ℕ) (os : List Owner) {amounts : List ℤ}
    → 0 < sum_of shares_of os
    → allocate (pos amount) (map (λ o. pos o.shares) os) ≡ ok amounts
    → (sum_ℤ amounts ≡ pos amount) × (length amounts ≡ length os)
allocated amount os {amounts} h e =
    let (parts, split, total, long) =
      allocate_exact (pos amount) (map shares_of os) (rw (sum_shares os) h) in
    let same : parts ≡ amounts =
      ok-injective (sym split ∙ ap (allocate (pos amount)) (sym (shares_as_weights os)) ∙ e) in
    (ap sum_ℤ (sym same) ∙ total, ap length (sym same) ∙ long ∙ length-map shares_of os)

-- What a distribution pays out, and to which shares.
pub record Conserves (amount_cents : Text) (stakes : List Stake) (q : DistributionQuote)
    : Type 0 where
  pub pays_all : sum_ℤ (map received q.allocations) ≡ pos (natural_of amount_cents)
  pub holds_all : sum_of held q.allocations ≡ sum_of staked stakes
  pub total_said : natural_of q.total_shares ≡ sum_of staked stakes
  pub few : length q.allocations ≤ 200

-- A distribution that is quoted pays out the amount to the cent, to owners who together hold the
-- shares that were staked, which are the total that it reports; they are at most 200.
pub quote-Conserves :
    (amount_cents : Text) (stakes : List Stake) {q : DistributionQuote}
    → quote_investment_distribution amount_cents stakes ≡ ok q
    → Conserves amount_cents stakes q
unfolding quote_investment_distribution
quote-Conserves amount_cents stakes h =
    let (amount, read, h1) = >>=-eq-ok (positive_integer amount_cents) _ h in
    let (some_stake, h2) = throw_if-eq-ok (length stakes == 0) validation_failed _ h1 in
    let (aggregated, added, h3) = >>=-eq-ok (aggregate stakes []) _ h2 in
    let (few, h4) = throw_if-eq-ok (ltb 200 (length aggregated)) limit_exceeded _ h3 in
    let owners = sort owner_before aggregated in
    let total = sum_of shares_of owners in
    let h5 = (throw_if-eq-ok (ltb signed_sqlite_maximum total) limit_exceeded _ h4).1 in
    let (amounts, split, done) =
      >>=-eq-ok (allocate (pos amount) (map (λ o. pos o.shares) owners)) _ h5 in
    let sorted = sum_of-sort owner_before shares_of aggregated in
    let sums = aggregate-sum stakes [] added in
    let shares : total ≡ sum_of staked stakes = omega (arith, sorted, sums) in
    let positive = aggregate-positive stakes [] some_stake added in
    let (all, long) = allocated amount owners (omega (arith, shares, positive)) split in
    let count = length-sort owner_before aggregated in
    rw (← ok-injective done) (record {
      pays_all =
          quotes-received owners amounts long
          ∙ all
          ∙ ap pos (positive_integer-natural_of amount_cents read);
      holds_all = quotes-held owners amounts long ∙ shares;
      total_said = natural_of-print total ∙ shares;
      few = ground (arith, length-quotes_of owners amounts long);
    })
