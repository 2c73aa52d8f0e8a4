-- ===== src/Legal.antt =====
-- packages/shared/src/legal.ts: legal contracts.
pub mod Schema
pub mod Lifecycle
pub mod Firing
pub mod Consistency
pub mod Rent
use worldsimulator.Prelude.{ℕ, Bool, true, false, List, Option}
use worldsimulator.Prelude.Int.{ℤ}
use worldsimulator.Prelude.Decimal.{Text}
use worldsimulator.Ledger.Types.{ActorRef}

pub data LegalContractType : Type 0 where
  incorporation employment service lease investment : LegalContractType

pub data LegalContractStatus : Type 0 where
  draft signed active completed terminated breached : LegalContractStatus

pub data PartyKind : Type 0 where
  agent_party company_party institution_party : PartyKind

pub record LegalParty : Type 0 where
  pub kind : PartyKind
  pub id : Text
  pub role : Text
  pub signed_tick : Option ℤ

-- The terms, with the fields of each template in the order of its schema.
pub data LegalContractTerms : Type 0 where
  incorporation_terms :
      (company_name jurisdiction founder_agent_id founding_capital_cents total_shares : Text)
      → LegalContractTerms
  employment_terms :
      (job_id employer_id employee_agent_id annual_wage_cents : Text)
      → (start_tick notice_days : ℤ) → LegalContractTerms
  service_terms :
      (provider_id client_id scope fee_cents : Text) → (due_tick : ℤ) → LegalContractTerms
  lease_terms :
      (lessor_id lessee_id property_ref rent_cents : Text)
      → (start_tick end_tick : ℤ) → LegalContractTerms
  investment_terms :
      (proposal_id company_id investor_fund_id investor_firm_id amount_cents : Text)
      → (pre_money_valuation_cents price_per_share_cents shares_issued : Text)
      → (total_shares_before total_shares_after : Text) → LegalContractTerms

pub data ObligationKind : Type 0 where
  payment deliverable notice : ObligationKind

pub data ObligationStatus : Type 0 where
  pending fired done waived : ObligationStatus

-- A value of `params`; what is neither a number nor a text is not told apart further.
pub data ParamValue : Type 0 where
  number_param : ℤ → ParamValue
  text_param : Text → ParamValue
  other_param : ParamValue

pub record LegalObligation : Type 0 where
  pub id : Text
  pub due_tick : ℤ
  pub recurrence_ticks : Option ℤ
  pub kind : ObligationKind
  pub params : List (Text × ParamValue)
  pub status : ObligationStatus
  pub fired_tick : Option ℤ
  pub completed_tick : Option ℤ

pub data BreachPredicate : Type 0 where
  overdue_obligation invalid_transition missing_signature : BreachPredicate

pub record LegalBreach : Type 0 where
  pub id : Text
  pub predicate : BreachPredicate
  pub tick : ℤ
  pub details : List (Text × ParamValue)

pub record LegalContract : Type 0 where
  pub id : Text
  pub run_id : Text
  pub type : LegalContractType
  pub parties : List LegalParty
  pub terms : LegalContractTerms
  pub obligations : List LegalObligation
  pub drafted_by : ActorRef
  pub fee_cents : Text
  pub status : LegalContractStatus
  pub created_tick : ℤ
  pub effective_tick : ℤ
  pub terminal_tick : Option ℤ
  pub breaches : List LegalBreach

abbrev pub type_index : LegalContractType → ℕ
type_index incorporation = 0
type_index employment = 1
type_index service = 2
type_index lease = 3
type_index investment = 4

abbrev pub kind_index : PartyKind → ℕ
kind_index agent_party = 0
kind_index company_party = 1
kind_index institution_party = 2

abbrev pub template : LegalContractTerms → LegalContractType
template (incorporation_terms _ _ _ _ _) = incorporation
template (employment_terms _ _ _ _ _ _) = employment
template (service_terms _ _ _ _ _) = service
template (lease_terms _ _ _ _ _ _) = lease
template (investment_terms _ _ _ _ _ _ _ _ _ _) = investment
