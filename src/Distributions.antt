-- ===== src/Distributions.antt =====
-- packages/engine/src/investment-distributions.ts: what the owners of shares receive.
pub mod Conservation
use worldsimulator.Prelude.{
  ℕ, ◌+◌, Bool, true, false, not, ◌&&◌, ◌||◌, List, [], ◌∷◌, map, ltb, ◌==◌, length, if◌then◌else◌,
}
use worldsimulator.Prelude.Int.{ℤ, pos}
use worldsimulator.Prelude.Decimal.{Text, is_positive_text, natural_of, print, print_ℤ}
use worldsimulator.Prelude.Texts.{text_eq, text_before, trim}
use worldsimulator.Prelude.Sort.{sort, sum_of}
use worldsimulator.Prelude.Results.{
  Result, ok, err, validation_failed, limit_exceeded, ◌>>=◌, ◌>>◌, throw_if,
}
use worldsimulator.Money.{allocate}

unfoldable pub signed_sqlite_maximum : ℕ
signed_sqlite_maximum = 9223372036854775807

pub data HolderKind : Type 0 where
  agent_holder venture_fund_holder : HolderKind

pub record Stake : Type 0 where
  pub holder_kind : HolderKind
  pub holder_id : Text
  pub shares : Text

-- An entry of `aggregated`.
pub record Owner : Type 0 where
  pub holder_kind : HolderKind
  pub holder_id : Text
  pub shares : ℕ

pub record AllocationQuote : Type 0 where
  pub holder_kind : HolderKind
  pub holder_id : Text
  pub shares : Text
  pub amount_cents : Text

pub record DistributionQuote : Type 0 where
  pub amount_cents : Text
  pub total_shares : Text
  pub allocations : List AllocationQuote

unfoldable pub positive_integer : Text → Result ℕ
unfolding signed_sqlite_maximum
positive_integer value =
    if is_positive_text value
    then if ltb signed_sqlite_maximum (natural_of value)
      then err limit_exceeded
      else ok (natural_of value)
    else err validation_failed

-- `left < right` on the kinds, as texts
abbrev kind_index : HolderKind → ℕ
kind_index agent_holder = 0
kind_index venture_fund_holder = 1

-- Whether two keys, the kind and the id with a NUL between them, are the same.
unfoldable pub same_holder : HolderKind → Text → Owner → Bool
same_holder kind id o = (kind_index kind == kind_index o.holder_kind) && text_eq id o.holder_id

-- The change of `aggregated` by one stake.
unfoldable pub add_shares : HolderKind → Text → ℕ → List Owner → Result (List Owner)
unfolding same_holder signed_sqlite_maximum
add_shares kind id shares [] =
    ok (record { holder_kind = kind; holder_id = id; shares = shares } ∷ [])
add_shares kind id shares (o ∷ os) = do
  let later = add_shares kind id shares os
  if same_holder kind id o
      then (if ltb signed_sqlite_maximum (o.shares + shares)
          then err limit_exceeded
          else ok (record o { shares = o.shares + shares } ∷ os))
      else (later >>= λ rest. ok (o ∷ rest))

unfoldable pub aggregate : List Stake → List Owner → Result (List Owner)
aggregate [] owners = ok owners
aggregate (stake ∷ stakes) owners = do
  throw_if (length stake.holder_id == 0 || not (text_eq (trim stake.holder_id) stake.holder_id))
      validation_failed
  shares ← positive_integer stake.shares
  more ← add_shares stake.holder_kind stake.holder_id shares owners
  aggregate stakes more

unfoldable pub owner_before : Owner → Owner → Bool
owner_before a b =
    if kind_index a.holder_kind == kind_index b.holder_kind
    then text_before a.holder_id b.holder_id
    else ltb (kind_index a.holder_kind) (kind_index b.holder_kind)

-- `owners.map((owner, index) => …)`; `allocate` returns an amount for each owner.
unfoldable pub quotes_of : List Owner → List ℤ → List AllocationQuote
quotes_of (o ∷ os) (amount ∷ amounts) =
    record {
      holder_kind = o.holder_kind;
      holder_id = o.holder_id;
      shares = print o.shares;
      amount_cents = print_ℤ amount;
    }
    ∷ quotes_of os amounts
quotes_of _ _ = []

abbrev pub shares_of : Owner → ℕ
shares_of o = o.shares

unfoldable pub quote_investment_distribution :
    (amount_cents : Text) → List Stake → Result DistributionQuote
unfolding signed_sqlite_maximum
quote_investment_distribution amount_cents stakes = do
  amount ← positive_integer amount_cents
  throw_if (length stakes == 0) validation_failed
  aggregated ← aggregate stakes []
  throw_if (ltb 200 (length aggregated)) limit_exceeded
  let owners = sort owner_before aggregated
  let total = sum_of shares_of owners
  throw_if (ltb signed_sqlite_maximum total) limit_exceeded
  amounts ← allocate (pos amount) (map (λ o. pos o.shares) owners)
  ok (record {
    amount_cents = print amount;
    total_shares = print total;
    allocations = quotes_of owners amounts;
  })
