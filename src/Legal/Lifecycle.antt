-- ===== src/Legal/Lifecycle.antt =====
-- packages/engine/src/legal-contracts.ts: drafting, signing and the statuses of a contract.
use worldsimulator.Prelude.{
  Bool, true, false, not, ◌&&◌, ◌||◌, List, [], ◌∷◌, map, Option, none, some, every, ◌==◌,
  if◌then◌else◌,
}
use worldsimulator.Prelude.Int.{ℤ, pos, ltb_ℤ, eqb_ℤ}
use worldsimulator.Prelude.Decimal.{Text}
use worldsimulator.Prelude.BigInts.{big_int}
use worldsimulator.Prelude.Texts.{codes}
use worldsimulator.Prelude.Results.{
  Result, ok, validation_failed, conflict, permission_denied, ◌>>=◌, ◌>>◌, throw_if,
}
use worldsimulator.Ledger.Types.{ActorRef}
use worldsimulator.Ids.{Counters, next}
use worldsimulator.Legal.{
  LegalContractType, LegalContractStatus, draft, signed, active, completed, terminated, breached,
  PartyKind, LegalParty, LegalContractTerms, incorporation_terms, employment_terms, service_terms,
  lease_terms, investment_terms, payment, pending, ParamValue, number_param, text_param,
  LegalObligation, LegalContract, type_index, template,
}
use worldsimulator.Legal.Schema.{parse_contract, same_party}

-- `LEGAL_CONTRACT_TRANSITIONS[current].includes(next)`
unfoldable pub may_become : LegalContractStatus → LegalContractStatus → Bool
may_become draft signed = true
may_become signed active = true
may_become active completed = true
may_become active terminated = true
may_become active breached = true
may_become _ _ = false

pub record ContractTemplateInput : Type 0 where
  pub id : Text
  pub run_id : Text
  pub type : LegalContractType
  pub parties : List LegalParty
  pub terms : LegalContractTerms
  pub drafted_by : ActorRef
  pub fee_cents : Option Text
  pub created_tick : ℤ
  pub effective_tick : ℤ

abbrev pub or_no_fee : Option Text → Text
or_no_fee none = codes "0"
or_no_fee (some fee) = fee

-- `obligation(…)`
unfoldable pub obligation_of :
    Counters
    → (due_tick : ℤ) → (recurrence_ticks : Option ℤ) → List (Text × ParamValue)
    → Result (Counters × List LegalObligation)
obligation_of ids due_tick recurrence_ticks params = do
  drawn ← next ids (codes "obl")
  ok (
    drawn.0,
    record {
      id = drawn.1;
      due_tick = due_tick;
      recurrence_ticks = recurrence_ticks;
      kind = payment;
      params = params;
      status = pending;
      fired_tick = none;
      completed_tick = none;
    }
        ∷ [],
  )

abbrev unsigned : LegalParty → LegalParty
unsigned p = record p { signed_tick = none }

-- `templateObligations(input)`
unfoldable pub template_obligations :
    Counters → ContractTemplateInput → LegalContractTerms → Result (Counters × List LegalObligation)
unfolding big_int
template_obligations ids input (incorporation_terms _ _ _ _ _) = do
  fee ← big_int (or_no_fee input.fee_cents)
  if eqb_ℤ fee (pos 0)
      then ok (ids, [])
      else obligation_of ids input.effective_tick none (
          (codes "purpose", text_param (codes "incorporation_fee"))
          ∷ (codes "amountCents", text_param (or_no_fee input.fee_cents))
          ∷ [])
template_obligations ids input (employment_terms _ _ _ _ _ _) = ok (ids, [])
template_obligations ids input (service_terms _ _ _ fee due_tick) =
    obligation_of ids due_tick none (
      (codes "purpose", text_param (codes "service_fee"))
      ∷ (codes "amountCents", text_param fee)
      ∷ [])
template_obligations ids input (lease_terms _ _ _ rent start_tick end_tick) =
    obligation_of ids start_tick (some (pos 30)) (
      (codes "purpose", text_param (codes "lease_rent"))
      ∷ (codes "amountCents", text_param rent)
      ∷ (codes "endTick", number_param end_tick)
      ∷ [])
template_obligations ids input (investment_terms _ _ _ _ _ _ _ _ _ _) = ok (ids, [])

unfoldable pub create_contract_from_template :
    Counters → ContractTemplateInput → Result (Counters × LegalContract)
create_contract_from_template ids input = do
  throw_if (not (type_index (template input.terms) == type_index input.type)) validation_failed
  throw_if (ltb_ℤ input.effective_tick input.created_tick) validation_failed
  obligations ← template_obligations ids input input.terms
  contract ← parse_contract (record {
    id = input.id;
    run_id = input.run_id;
    type = input.type;
    parties = map unsigned input.parties;
    terms = input.terms;
    obligations = obligations.1;
    drafted_by = input.drafted_by;
    fee_cents = or_no_fee input.fee_cents;
    status = draft;
    created_tick = input.created_tick;
    effective_tick = input.effective_tick;
    terminal_tick = none;
    breaches = [];
  })
  ok (obligations.0, contract)

abbrev pub is_some {ℓ} : {A : Type ℓ} → Option A → Bool
is_some none = false
is_some (some _) = true

abbrev pub has_signed : LegalParty → Bool
has_signed p = is_some p.signed_tick

unfoldable pub all_parties_signed : LegalContract → Bool
all_parties_signed c = every has_signed c.parties

abbrev pub is_draft : LegalContractStatus → Bool
is_draft draft = true
is_draft _ = false

abbrev pub is_signed : LegalContractStatus → Bool
is_signed signed = true
is_signed _ = false

abbrev pub is_active : LegalContractStatus → Bool
is_active active = true
is_active _ = false

abbrev pub is_terminal : LegalContractStatus → Bool
is_terminal completed = true
is_terminal terminated = true
is_terminal breached = true
is_terminal _ = false

-- What `signLegalContract` does to one party: a signature is never replaced.
unfoldable pub sign_party : (kind : PartyKind) (id : Text) (tick : ℤ) → LegalParty → LegalParty
sign_party kind id tick p =
    if same_party p kind id && not (has_signed p) then record p { signed_tick = some tick } else p

abbrev pub some_party : PartyKind → Text → List LegalParty → Bool
some_party kind id [] = false
some_party kind id (p ∷ ps) = same_party p kind id || some_party kind id ps

unfoldable pub sign_legal_contract :
    LegalContract → (kind : PartyKind) → (id : Text) → (tick : ℤ) → Result LegalContract
sign_legal_contract c kind id tick = do
  throw_if (not (is_draft c.status)) conflict
  let parties = map (sign_party kind id tick) c.parties
  throw_if (not (some_party kind id c.parties)) permission_denied
  parse_contract
      (record c { parties = parties; status = if every has_signed parties then signed else draft })

unfoldable pub transition_legal_contract :
    LegalContract → LegalContractStatus → (tick : ℤ) → Result LegalContract
transition_legal_contract c target tick = do
  throw_if (not (may_become c.status target)) conflict
  throw_if (is_signed target && not (all_parties_signed c)) conflict
  throw_if (is_active target && not (all_parties_signed c)) conflict
  throw_if (is_active target && ltb_ℤ tick c.effective_tick) conflict
  parse_contract
      (record c { status = target; terminal_tick = if is_terminal target then some tick else none })
