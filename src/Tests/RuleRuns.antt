-- ===== src/Tests/RuleRuns.antt =====
-- Contracts, distributions, candidates, triggers and budgets on concrete inputs.
use mathlib.Core.List.{Perm}
use worldsimulator.Prelude.{
  ◌++◌, ◌+◌, ◌*◌, ◌≡◌, refl, true, false, List, [], ◌∷◌, none, some, arith,
}
use worldsimulator.Prelude.Int.{pos}
use worldsimulator.Prelude.Decimal.{
  Text, print, print_ℤ, natural_of, is_natural_text, is_positive_text,
}
use worldsimulator.Prelude.BigInts.{big_int}
use worldsimulator.Prelude.Texts.{codes, trim, is_id, text_eq}
use worldsimulator.Prelude.Sort.{sort, insert}
use worldsimulator.Prelude.Results.{ok, add_numbers}
use worldsimulator.Ledger.Types.{system}
use worldsimulator.Legal.{
  service, pending, payment, number_param, text_param, agent_party, company_party, LegalObligation,
  LegalContract, service_terms, draft, signed,
}
use worldsimulator.Legal.Schema.{
  parse_contract, is_contract, trimmed, trim_party, trim_terms, is_terms, are_unique,
}
use worldsimulator.Legal.Lifecycle.{
  ContractTemplateInput, sign_legal_contract, sign_party, create_contract_from_template,
  template_obligations, obligation_of,
}
use worldsimulator.Legal.Firing.{param}
use worldsimulator.Legal.Consistency.{IsConsistent, drafted, after_signature, Made-IsConsistent}
use worldsimulator.Legal.Rent.{fire_on_time, Completes, recurring-Completes}
use worldsimulator.Ids.{
  Counters, next, counter, set_counter, is_prefix, id_text, print_36, emit_36, pad_start,
}
use worldsimulator.Money.{allocate}
use worldsimulator.Distributions.{
  Stake, agent_holder, venture_fund_holder, DistributionQuote, quote_investment_distribution,
  positive_integer, aggregate, add_shares, owner_before, quotes_of,
}
use worldsimulator.Distributions.Conservation.{Conserves, quote-Conserves}
use worldsimulator.Labor.{Job, LaborCandidate, ScoredLaborCandidate, rank_labor_candidates}
use worldsimulator.Labor.Ranking.{Ranks, rank-Ranks}
use worldsimulator.Triggers.{
  TriggerSignal, TriggerInput, shaped, unshaped, message, WakeSet, evaluate_triggers,
}
use worldsimulator.Triggers.Conservation.{refused, handed, evaluate_triggers-all}
use worldsimulator.Triggers.Groups.{IsGrouped}
use worldsimulator.Budget.{
  Controller, LlmRequest, LlmUsage, agent_decisions, tier_three, record_success, Receipt,
  usage_recorded, budget_warn, budget_auto_pause, auto_pause_requested, price_of,
  llm_cost_microcents, token_count, charge_agent, charge_run, reached,
}
use worldsimulator.Budget.Limits.{IsTracked, record_success-IsTracked}

abbrev rent : LegalObligation
rent = record {
  id = codes "obl_00000001";
  due_tick = pos 10;
  recurrence_ticks = some (pos 30);
  kind = payment;
  params = (codes "endTick", number_param (pos 75)) ∷ [];
  status = pending;
  fired_tick = none;
  completed_tick = none;
}

recurring-Completes_example : Completes (10 + 2 * 30) rent (fire_on_time 3 rent)
recurring-Completes_example =
    recurring-Completes 2 30 10 75 rent
      (record { waits = refl; due_at = refl; recurs = refl; ends = unfold param text_eq in refl })
      (omega arith) (omega arith)

abbrev template_input : ContractTemplateInput
template_input = record {
  id = codes "ctr_00000001";
  run_id = codes "run_00000001";
  type = service;
  parties =
      record { kind = agent_party; id = codes "a"; role = codes "client"; signed_tick = none }
      ∷ record { kind = company_party; id = codes "b"; role = codes "provider"; signed_tick = none }
      ∷ [];
  terms = service_terms (codes "b") (codes "a") (codes "work") (codes "500") (pos 9);
  drafted_by = record { kind = system; id = codes "engine" };
  fee_cents = none;
  created_tick = pos 1;
  effective_tick = pos 2;
}

abbrev drafted_contract : LegalContract
drafted_contract = record {
  id = template_input.id;
  run_id = template_input.run_id;
  type = service;
  parties = template_input.parties;
  terms = template_input.terms;
  obligations =
      record {
        id = codes "obl_00000001";
        due_tick = pos 9;
        recurrence_ticks = none;
        kind = payment;
        params =
            (codes "purpose", text_param (codes "service_fee"))
            ∷ (codes "amountCents", text_param (codes "500"))
            ∷ [];
        status = pending;
        fired_tick = none;
        completed_tick = none;
      }
      ∷ [];
  drafted_by = template_input.drafted_by;
  fee_cents = codes "0";
  status = draft;
  created_tick = pos 1;
  effective_tick = pos 2;
  terminal_tick = none;
  breaches = [];
}

abbrev after_draft : Counters
after_draft = (codes "obl", 1) ∷ []

drafts : create_contract_from_template [] template_input ≡ ok (after_draft, drafted_contract)
unfolding create_contract_from_template template_obligations obligation_of next counter set_counter
    is_prefix id_text print_36 emit_36 pad_start text_eq parse_contract is_contract trimmed
    trim_party trim_terms is_terms are_unique is_id trim is_natural_text is_positive_text
drafts = refl

abbrev half_signed : LegalContract
half_signed = record drafted_contract {
  parties =
      record {
        kind = agent_party;
        id = codes "a";
        role = codes "client";
        signed_tick = some (pos 2);
      }
      ∷ record { kind = company_party; id = codes "b"; role = codes "provider"; signed_tick = none }
      ∷ [];
}

abbrev both_signed : LegalContract
both_signed = record drafted_contract {
  parties =
      record {
        kind = agent_party;
        id = codes "a";
        role = codes "client";
        signed_tick = some (pos 2);
      }
      ∷ record {
        kind = company_party;
        id = codes "b";
        role = codes "provider";
        signed_tick = some (pos 3);
      }
      ∷ [];
  status = signed;
}

agent_signs : sign_legal_contract drafted_contract agent_party (codes "a") (pos 2) ≡ ok half_signed
unfolding sign_legal_contract sign_party text_eq parse_contract is_contract trimmed trim_party
    trim_terms is_terms are_unique is_id trim is_natural_text is_positive_text
agent_signs = refl

company_signs : sign_legal_contract half_signed company_party (codes "b") (pos 3) ≡ ok both_signed
unfolding sign_legal_contract sign_party text_eq parse_contract is_contract trimmed trim_party
    trim_terms is_terms are_unique is_id trim is_natural_text is_positive_text
company_signs = refl

Made-IsConsistent_example : IsConsistent both_signed
Made-IsConsistent_example = Made-IsConsistent (
    after_signature company_party (codes "b") (pos 3)
      (after_signature agent_party (codes "a") (pos 2)
        (drafted [] template_input {r = (after_draft, drafted_contract)} drafts) agent_signs)
      company_signs)

abbrev owner : Stake
owner = record { holder_kind = agent_holder; holder_id = codes "agt_1"; shares = codes "2" }

abbrev fund : Stake
fund = record { holder_kind = venture_fund_holder; holder_id = codes "vfund_1"; shares = codes "1" }

abbrev quote : DistributionQuote
quote = record {
  amount_cents = codes "10";
  total_shares = codes "3";
  allocations =
      record {
        holder_kind = agent_holder;
        holder_id = codes "agt_1";
        shares = codes "2";
        amount_cents = codes "7";
      }
      ∷ record {
        holder_kind = venture_fund_holder;
        holder_id = codes "vfund_1";
        shares = codes "1";
        amount_cents = codes "3";
      }
      ∷ [];
}

quoted : quote_investment_distribution (codes "10") (fund ∷ owner ∷ []) ≡ ok quote
unfolding quote_investment_distribution positive_integer aggregate add_shares owner_before quotes_of
    allocate sort insert is_positive_text natural_of trim text_eq print print_ℤ
quoted = refl

quote-Conserves_example : Conserves (codes "10") (fund ∷ owner ∷ []) quote
quote-Conserves_example = quote-Conserves (codes "10") (fund ∷ owner ∷ []) quoted

abbrev job : Job
job = record {
  id = codes "job_00000001";
  annual_wage_cents = codes "4000000";
  requirements = record { skill_code = codes "law"; minimum = pos 3; weight = pos 2 } ∷ [];
}

abbrev candidate : LaborCandidate
candidate = record {
  agent_id = codes "agt_00000001";
  skills = (codes "law", pos 5) ∷ [];
  reservation_wage_cents = codes "3500000";
  employment_status = codes "unemployed";
}

abbrev worker : LaborCandidate
worker = record candidate { agent_id = codes "agt_00000002"; employment_status = codes "employed" }

reads_wage : big_int (codes "4000000") ≡ ok (pos 4000000)
unfolding big_int trim
reads_wage = refl

reads_reservation : big_int (codes "3500000") ≡ ok (pos 3500000)
unfolding big_int trim
reads_reservation = refl

rank-Ranks_example :
    (ranked : List ScoredLaborCandidate) × (rank_labor_candidates job (candidate ∷ worker ∷ [])
      ≡ ok ranked)
    × Ranks job 4000000 (candidate ∷ worker ∷ []) ranked
rank-Ranks_example =
    rank-Ranks job 4000000 (candidate ∷ worker ∷ []) reads_wage
      ((3500000, reads_reservation), ((3500000, reads_reservation), tt))

abbrev signal : TriggerSignal
signal = record {
  agent_id = codes "agt_00000001";
  source_event_id = codes "evt_00000001";
  tick = pos 4;
  priority = pos 50;
  payload = message (codes "m") none;
}

abbrev inputs : List TriggerInput
inputs = shaped signal ∷ shaped signal ∷ unshaped (codes "7") ∷ []

abbrev canonical : TriggerSignal → Text
canonical s = s.source_event_id

abbrev fingerprint : TriggerInput → Text
fingerprint (shaped s) = s.source_event_id
fingerprint (unshaped text) = text

evaluate_triggers-all_example :
    (wake_set : WakeSet) × (evaluate_triggers canonical fingerprint 3 (pos 4) inputs none
      ≡ ok wake_set)
    × Perm (refused wake_set.dropped ++ handed wake_set.entries) inputs
    × (wake_set.input_count ≡ 3)
    × IsGrouped 3 wake_set.entries
evaluate_triggers-all_example =
    evaluate_triggers-all canonical fingerprint 3 4 inputs none (omega arith) (omega arith)

abbrev controller : Controller
controller = record {
  run_cost_ceiling_cents = 5;
  per_agent_daily_tokens = 1000;
  prices = [];
  frozen_modules = λ _. false;
  quarantines = [];
  agent_days = [];
  input_tokens = 0;
  cached_input_tokens = 0;
  output_tokens = 0;
  cost_microcents = 0;
  warning_emitted = false;
  exhausted_emitted = false;
  auto_pause_requested = false;
  llm_enabled = true;
  events = [];
}

abbrev request : LlmRequest
request = record {
  tick = pos 4;
  module_id = agent_decisions;
  agent_id = some (codes "agt_00000001");
  tier = tier_three;
  request_hash = codes "h";
}

abbrev priced : Controller
priced = record controller {
  prices =
      (
        codes "m",
        record {
          input_microcents_per_token = pos 1000;
          cached_input_microcents_per_token = none;
          output_microcents_per_token = pos 1000;
        },
      )
      ∷ [];
}

abbrev usage : LlmUsage
usage = record {
  cached = false;
  input_tokens = pos 4000;
  cached_input_tokens = none;
  output_tokens = pos 1000;
  model = codes "m";
}

abbrev general : LlmRequest
general = record request { agent_id = none }

abbrev exhausted : Controller
exhausted = record priced {
  input_tokens = 4000;
  output_tokens = 1000;
  cost_microcents = 5000000;
  warning_emitted = true;
  exhausted_emitted = true;
  auto_pause_requested = true;
  events = usage_recorded ∷ budget_warn ∷ budget_auto_pause ∷ auto_pause_requested ∷ [];
}

abbrev receipt : Receipt
receipt = record {
  charged = true;
  cost_microcents = 5000000;
  run_cost_microcents = 5000000;
  warning_emitted = true;
  exhausted_emitted = true;
  auto_pause_requested = true;
}

recorded : record_success priced general usage 4 ≡ ok (exhausted, receipt)
unfolding record_success price_of llm_cost_microcents token_count charge_agent charge_run reached
    text_eq add_numbers
recorded = refl

tracked : IsTracked priced
tracked = unfold reached in (refl, refl, refl)

record_success-IsTracked_example : IsTracked exhausted
record_success-IsTracked_example =
    record_success-IsTracked priced general usage 4 {after = exhausted} {receipt = receipt} tracked
      recorded
