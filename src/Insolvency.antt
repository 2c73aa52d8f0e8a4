-- ===== src/Insolvency.antt =====
-- packages/engine/src/insolvency-rules.ts: solvency, salvage prices and the creditor waterfall.
pub mod Waterfall
pub mod Distress
use worldsimulator.Prelude.{ℕ, ◌+◌, Bool, true, false, List, [], ◌∷◌, ltb, leb, ◌==◌, if◌then◌else◌}
use worldsimulator.Prelude.Int.{ℤ, pos, ◌-ℤ◌, ◌*ℤ◌, ltb_ℤ, leb_ℤ, eqb_ℤ}
use worldsimulator.Prelude.Decimal.{Text}
use worldsimulator.Prelude.Texts.{text_eq, text_before}
use worldsimulator.Prelude.Sort.{sort}
use worldsimulator.Prelude.Results.{
  validation_failed, Result, ok, err, ◌>>=◌, ◌>>◌, throw_if, assert_safe_integer,
}
use worldsimulator.Money.{floor, mul_div}

pub record Solvency : Type 0 where
  pub cash_cents : ℤ
  pub obligation_cents : ℤ
  pub shortfall_cents : ℤ
  pub consecutive_shortfall_days : ℕ
  pub insolvent : Bool

unfoldable pub assess_company_solvency :
    (cash obligation : ℤ) → (prior failure_threshold : ℤ) → Result Solvency
assess_company_solvency cash obligation prior failure_threshold = do
  throw_if (if ltb_ℤ cash (pos 0) then true else ltb_ℤ obligation (pos 0)) validation_failed
  days ← assert_safe_integer prior 0
  threshold ← assert_safe_integer failure_threshold 1
  let shortfall = if ltb_ℤ cash obligation then (obligation -ℤ cash) else pos 0
  let consecutive = if ltb_ℤ (pos 0) shortfall then days + 1 else 0
  counted ← assert_safe_integer (pos consecutive) 0
  ok (record {
    cash_cents = cash;
    obligation_cents = obligation;
    shortfall_cents = shortfall;
    consecutive_shortfall_days = counted;
    insolvent = leb threshold counted;
  })

unfoldable pub inventory_salvage_unit_price : (reference rate_bp : ℤ) → Result ℤ
inventory_salvage_unit_price reference rate_bp = do
  throw_if (leb_ℤ reference (pos 0)) validation_failed
  rate ← assert_safe_integer rate_bp 1
  throw_if (ltb 10000 rate) validation_failed
  price ← mul_div reference (pos rate) (pos 10000) floor
  ok (if ltb_ℤ (pos 0) price then price else pos 1)

unfoldable pub inventory_salvage_total : (unit_price quantity : ℤ) → Result ℤ
unfolding assert_safe_integer
inventory_salvage_total unit_price quantity = do
  throw_if (leb_ℤ unit_price (pos 0)) validation_failed
  q ← assert_safe_integer quantity 1
  ok (unit_price *ℤ pos q)

pub record Claim : Type 0 where
  pub id : Text
  pub seniority : ℤ
  pub registered_tick : ℤ
  pub amount_cents : ℤ

pub record Allocation : Type 0 where
  pub claim_id : Text
  pub recovered_cents : ℤ
  pub written_off_cents : ℤ

abbrev pub has_seen : Text → List Text → Bool
has_seen id [] = false
has_seen id (s ∷ seen) = if text_eq id s then true else has_seen id seen

-- The loop that checks the claims; `seen` holds the ids of the claims before.
unfoldable pub check_claims : (seen : List Text) → List Claim → Result (Unit {0})
unfolding assert_safe_integer
check_claims seen [] = ok tt
check_claims seen (c ∷ cs) = do
  throw_if (has_seen c.id seen) validation_failed
  _ ← assert_safe_integer c.seniority 1
  _ ← assert_safe_integer c.registered_tick 0
  throw_if (leb_ℤ c.amount_cents (pos 0)) validation_failed
  check_claims (c.id ∷ seen) cs

-- The comparator: seniority, then registration, then the id by code units.
unfoldable pub claim_before : Claim → Claim → Bool
claim_before left right =
    if eqb_ℤ left.seniority right.seniority
    then (if eqb_ℤ left.registered_tick right.registered_tick
        then text_before left.id right.id
        else ltb_ℤ left.registered_tick right.registered_tick)
    else ltb_ℤ left.seniority right.seniority

-- The callback of `ordered.map`, with `remaining` passed along
unfoldable pub pay_claims : (remaining : ℤ) → List Claim → List Allocation
pay_claims remaining [] = []
pay_claims remaining (c ∷ cs) =
    let recovered = if ltb_ℤ c.amount_cents remaining then c.amount_cents else remaining in
    record {
      claim_id = c.id;
      recovered_cents = recovered;
      written_off_cents = c.amount_cents -ℤ recovered;
    }
    ∷ pay_claims (remaining -ℤ recovered) cs

unfoldable pub allocate_creditor_waterfall : (pool : ℤ) → List Claim → Result (List Allocation)
unfolding check_claims pay_claims sort
allocate_creditor_waterfall pool claims = do
  throw_if (ltb_ℤ pool (pos 0)) validation_failed
  _ ← check_claims [] claims
  ok (pay_claims pool (sort claim_before claims))
