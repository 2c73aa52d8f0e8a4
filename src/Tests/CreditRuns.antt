-- ===== src/Tests/CreditRuns.antt =====
-- Loans, policies, scores and circuit breakers at concrete inputs.
use worldsimulator.Prelude.{
  ℕ, ◌+◌, ◌*◌, ◌≤◌, ◌<◌, ◌≡◌, refl, List, [], ◌∷◌, map, none, arith, length,
}
use worldsimulator.Prelude.Int.{pos}
use worldsimulator.Prelude.Decimal.{print, natural_of, is_natural_text}
use worldsimulator.Prelude.Texts.{codes, is_id, text_eq}
use worldsimulator.Prelude.Results.{ok, bounded, assert_safe_integer}
use worldsimulator.Amortization.{Row, generate_amortization_schedule, principal_total}
use worldsimulator.Amortization.Schedule.{Pays, generate-Pays}
use worldsimulator.Credit.Collections.{
  Installment, missed, Quote, quote_loan_collection, parse_installments, sum_installments,
}
use worldsimulator.Credit.Collections.Quotes.{
  IsCollectible, sum_principal, sum_interest, quote_loan_collection-IsCollectible,
}
use worldsimulator.Credit.Collections.Repayment.{repay_all, schedule_repays}
use worldsimulator.Credit.Policy.{
  submitted, under_review, approved, transition_loan_application_status,
}
use worldsimulator.Credit.Policy.Applications.{transition_all, transition_all-length}

schedule_repays_example :
    (rows : List Row) × (generate_amortization_schedule (record {
      principal_cents = print 100000;
      annual_rate_bp = pos 725;
      term_months = pos 7;
      disbursed_tick = pos 12;
    })
      ≡ ok rows)
    × (repay_all (print 100000) rows ≡ ok (print 0))
schedule_repays_example =
    schedule_repays 100000 725 7 12 (omega arith) (omega arith) (omega arith) (omega arith)
      (omega arith)

generate-Pays_example :
    (rows : List Row) × (generate_amortization_schedule (record {
      principal_cents = print 100000;
      annual_rate_bp = pos 725;
      term_months = pos 7;
      disbursed_tick = pos 12;
    })
      ≡ ok rows)
    × (length rows ≡ 7)
    × (principal_total rows ≡ 100000)
    × Pays 12 725 0 100000 rows
generate-Pays_example =
    generate-Pays 100000 725 7 12 (omega arith) (omega arith) (omega arith) (omega arith)
      (omega arith)

abbrev installment : ℕ → ℕ → Installment
installment digit number = record {
  id = b'p' ∷ b'a' ∷ b'y' ∷ b'_' ∷ b'0' ∷ b'0' ∷ b'0' ∷ b'0' ∷ b'0' ∷ b'0' ∷ b'0' ∷ digit ∷ [];
  run_id = codes "run_00000001";
  loan_id = codes "loan_00000001";
  installment_number = pos number;
  due_tick = pos (number * 30);
  opening_principal_cents = codes "900";
  principal_due_cents = codes "300";
  interest_due_cents = codes "7";
  total_due_cents = codes "307";
  status = missed;
  paid_tick = none;
  transaction_id = none;
  source_event_id = codes "evt_00000001";
}

abbrev arrears : List Installment
arrears = installment b'1' 1 ∷ installment b'2' 2 ∷ []

abbrev arrears_quote : Quote
arrears_quote = record {
  installment_ids = map (λ i. i.id) arrears;
  principal_cents = codes "600";
  interest_cents = codes "14";
  total_cents = codes "614";
}

quoted : quote_loan_collection arrears ≡ ok arrears_quote
unfolding quote_loan_collection parse_installments sum_installments is_id is_natural_text natural_of
    bounded assert_safe_integer text_eq print
quoted = refl

quote_loan_collection-IsCollectible_example :
    IsCollectible (codes "loan_00000001") [] (pos 0) arrears
    × (arrears_quote.installment_ids ≡ map (λ i. i.id) arrears)
    × (natural_of arrears_quote.principal_cents ≡ sum_principal arrears)
    × (natural_of arrears_quote.interest_cents ≡ sum_interest arrears)
    × (natural_of arrears_quote.total_cents ≡ sum_principal arrears + sum_interest arrears)
    × (0 < natural_of arrears_quote.total_cents)
quote_loan_collection-IsCollectible_example =
    quote_loan_collection-IsCollectible (installment b'1' 1) (installment b'2' 2 ∷ []) quoted

abbrev total_quote : Quote
total_quote = record arrears_quote { total_cents = print 614 }

reviewed : transition_all submitted (under_review ∷ approved ∷ []) ≡ ok approved
unfolding transition_loan_application_status
reviewed = refl

transition_all-length_example :
    (length (under_review ∷ approved ∷ []) ≤ 2)
    × (approved ≡ approved → under_review ∷ approved ∷ [] ≡ under_review ∷ approved ∷ [])
transition_all-length_example = transition_all-length (under_review ∷ approved ∷ []) reviewed
