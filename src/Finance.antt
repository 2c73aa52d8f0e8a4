-- ===== src/Finance.antt =====
-- packages/engine/src/finance-rules.ts: payroll, and what a household asks for and spends.
pub mod Payroll
pub mod Spending
use worldsimulator.Prelude.{
  ℕ, Bool, true, false, ◌&&◌, ◌||◌, List, [], ◌∷◌, ◌++◌, ltb, if◌then◌else◌, replicate, get_or,
}
use worldsimulator.Prelude.Int.{ℤ, pos, magnitude, ◌-ℤ◌, ◌*ℤ◌, ltb_ℤ, leb_ℤ, eqb_ℤ}
use worldsimulator.Prelude.Results.{range_error, Result, ok, err, ◌>>=◌, ◌>>◌, throw_if}
use worldsimulator.Money.{half_even, allocate, apply_rate_bp}

unfoldable pub part_at : (total : ℤ) (parts : ℕ) (index : ℤ) → Result ℤ
part_at total parts index = do
  throw_if (ltb_ℤ index (pos 0) || leb_ℤ (pos parts) index) range_error
  amounts ← allocate total (replicate parts (pos 1))
  ok (get_or amounts (magnitude index) (pos 0))

-- 24 pay periods in a year
unfoldable pub payroll_gross_for_period : (annual_wage period : ℤ) → Result ℤ
unfolding part_at
payroll_gross_for_period annual_wage period = part_at annual_wage 24 period

pub record PayrollQuote : Type 0 where
  pub gross_cents : ℤ
  pub withholding_cents : ℤ
  pub net_cents : ℤ

unfoldable pub quote_payroll : (annual_wage period rate_bp : ℤ) → Result PayrollQuote
quote_payroll annual_wage period rate_bp = do
  throw_if (ltb_ℤ rate_bp (pos 0) || ltb_ℤ (pos 10000) rate_bp) range_error
  gross ← payroll_gross_for_period annual_wage period
  withholding ← apply_rate_bp gross rate_bp half_even
  ok (record {
    gross_cents = gross;
    withholding_cents = withholding;
    net_cents = gross -ℤ withholding;
  })

pub data Category : Type 0 where
  food utilities rent discretionary : Category

pub record ExpenseRequest : Type 0 where
  pub category : Category
  pub requested_cents : ℤ
  pub essential : Bool

pub record Expense : Type 0 where
  pub request : ExpenseRequest
  pub approved_cents : ℤ

pub data HousingTier : Type 0 where
  modest standard comfortable : HousingTier

unfoldable pub rent_by_tier : HousingTier → ℤ
rent_by_tier modest = pos 65000
rent_by_tier standard = pos 90000
rent_by_tier comfortable = pos 140000

pub record HouseholdDay : Type 0 where
  pub day_of_month : ℤ
  pub day_of_year : ℤ
  pub member_count : ℤ
  pub housing_tier : HousingTier
  pub food_monthly_per_person_cents : ℤ
  pub utilities_monthly_cents : ℤ
  pub annual_household_income_cents : ℤ
  pub discretionary_propensity_bp : ℤ

unfoldable pub household_daily_requests : HouseholdDay → Result (List ExpenseRequest)
household_daily_requests input = do
  let day_index = input.day_of_month -ℤ pos 1
  let year_day_index = input.day_of_year -ℤ pos 1
  let food_monthly = input.food_monthly_per_person_cents *ℤ input.member_count
  daily_income ← part_at input.annual_household_income_cents 360 year_day_index
  food_today ← part_at food_monthly 30 day_index
  rent_today ← part_at (rent_by_tier input.housing_tier) 30 day_index
  leisure ← apply_rate_bp daily_income input.discretionary_propensity_bp half_even
  ok (
      record { category = food; requested_cents = food_today; essential = true }
        ∷ (if eqb_ℤ input.day_of_month (pos 30)
            then record {
              category = utilities;
              requested_cents = input.utilities_monthly_cents;
              essential = true;
            }
              ∷ []
            else [])
      ++ (record { category = rent; requested_cents = rent_today; essential = true }
          ∷ record { category = discretionary; requested_cents = leisure; essential = false }
          ∷ []))

abbrev pub is_utilities : Category → Bool
is_utilities utilities = true
is_utilities _ = false

unfoldable pub approved_of : (remaining : ℤ) → ExpenseRequest → ℤ
approved_of remaining request =
    if is_utilities request.category && ltb_ℤ remaining request.requested_cents
    then pos 0
    else if leb_ℤ request.requested_cents remaining
    then request.requested_cents
    else if ltb_ℤ remaining (pos 0)
    then pos 0
    else remaining

-- The callback of `requests.map`, with `remaining` passed along
unfoldable pub allocate_household_spending : (available : ℤ) → List ExpenseRequest → List Expense
unfolding approved_of
allocate_household_spending remaining [] = []
allocate_household_spending remaining (request ∷ requests) =
    let approved = approved_of remaining request in
    record { request = request; approved_cents = approved }
    ∷ allocate_household_spending (remaining -ℤ approved) requests
