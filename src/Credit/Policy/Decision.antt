-- ===== src/Credit/Policy/Decision.antt =====
-- What the policy approves, and at which rate.
use worldsimulator.Prelude.{ℕ, ◌+◌, ◌≤◌, ◌≡◌, Bool, true, List, every}
use worldsimulator.Prelude.Int.{ℤ, pos, ◌≤ℤ◌}
use worldsimulator.Prelude.Decimal.{natural_of}
use worldsimulator.Credit.Policy.{PolicyInput, Check, is_bank_active}

abbrev all_pass : List Check → Bool
all_pass = every (λ c. c.passed)

-- The conditions of an approval, on the numbers of the input.
abbrev pub IsApprovable : PolicyInput → (final : ℤ) → (dti term ratio minimum_ratio : ℕ) → Type 0
IsApprovable raw final dti term ratio minimum_ratio =
    (pos 650 ≤ℤ final)
    × (dti ≤ 5000)
    × (term ≤ 120)
    × (natural_of raw.existing_debt_cents + natural_of raw.requested_amount_cents
        ≤ natural_of raw.bank_exposure_cap_cents)
    × (is_bank_active raw.bank_status ≡ true)
    × (minimum_ratio ≤ ratio)
