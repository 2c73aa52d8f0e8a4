-- ===== src/Legal/Consistency.antt =====
-- What every contract satisfies that the operations have made.
use worldsimulator.Prelude.{
  ◌≡◌, refl, sym, ap, subst, ◌∙◌, ◌==◌, Bool, true, false, not, ◌&&◌, List, [], ◌∷◌, map, none,
  some, every, if◌then◌else◌, arith,
}
use worldsimulator.Prelude.Int.{ℤ, ltb_ℤ}
use worldsimulator.Prelude.Decimal.{Text}
use worldsimulator.Prelude.Results.{
  Result, ok, err, zod_error, conflict, permission_denied, not_found, validation_failed, >>=-eq-ok,
  throw_if-eq-ok, ok-injective,
}
use worldsimulator.Ids.{Counters}
use worldsimulator.Legal.{
  LegalContractStatus, draft, signed, active, completed, terminated, breached, PartyKind,
  LegalParty, LegalObligation, LegalContract, type_index, template,
}
use worldsimulator.Legal.Schema.{trim_party, parse_contract, trimmed, is_contract}
use worldsimulator.Legal.Lifecycle.{
  may_become, ContractTemplateInput, create_contract_from_template, has_signed, is_some,
  all_parties_signed, is_terminal, is_draft, is_signed, is_active, sign_party, some_party,
  sign_legal_contract, transition_legal_contract, template_obligations,
}
use worldsimulator.Legal.Firing.{
  change_all, has_obligation, change_obligation, fire_legal_obligation, complete_legal_obligation,
  fire_obligation, complete_obligation,
}

-- A contract that is no draft any more has all signatures, and it has a terminal tick exactly if its
-- status is terminal.
abbrev pub IsConsistent : LegalContract → Type 0
IsConsistent c =
    (is_draft c.status ≡ false → every has_signed c.parties ≡ true)
    × (is_some c.terminal_tick ≡ is_terminal c.status)

every-trim : (ps : List LegalParty) → every has_signed (map trim_party ps) ≡ every has_signed ps
unfolding trim_party
every-trim [] = refl
every-trim (p ∷ ps) = ap (λ b. has_signed p && b) (every-trim ps)

if-eq-ok :
    {A : Type 0} (test : Bool) (a : A) {after : A}
    → (if test then ok a else err zod_error) ≡ ok after
    → a ≡ after
if-eq-ok true a h = ok-injective h
if-eq-ok false a h = absurd (ground arith)

parse-trimmed :
    (c : LegalContract) {after : LegalContract} → parse_contract c ≡ ok after → trimmed c ≡ after
unfolding parse_contract
parse-trimmed c h = if-eq-ok (is_contract (trimmed c)) (trimmed c) h

trimmed-IsConsistent : (c : LegalContract) → IsConsistent c → IsConsistent (trimmed c)
unfolding trimmed
trimmed-IsConsistent c h = (λ d. every-trim c.parties ∙ h.0 d, h.1)

parse-IsConsistent :
    (c : LegalContract) {after : LegalContract}
    → IsConsistent c
    → parse_contract c ≡ ok after
    → IsConsistent after
parse-IsConsistent c h e = subst IsConsistent (parse-trimmed c e) (trimmed-IsConsistent c h)

create-IsConsistent :
    (ids : Counters) (input : ContractTemplateInput) {r : Counters × LegalContract}
    → create_contract_from_template ids input ≡ ok r
    → IsConsistent r.1
unfolding create_contract_from_template
create-IsConsistent ids input h =
    let matching = not (type_index (template input.terms) == type_index input.type) in
    let h1 = (throw_if-eq-ok matching validation_failed _ h).1 in
    let early = ltb_ℤ input.effective_tick input.created_tick in
    let h2 = (throw_if-eq-ok early validation_failed _ h1).1 in
    let (obligations, one, h3) = >>=-eq-ok (template_obligations ids input input.terms) _ h2 in
    let (contract, parsed, done) = >>=-eq-ok (parse_contract _) _ h3 in
    let kept = parse-IsConsistent _ (λ d. absurd (ground arith), refl) parsed in
    subst (λ r. IsConsistent r.1) (ok-injective done) kept

-- The status that `signLegalContract` gives.
signed_status : (all : Bool) → is_draft (if all then signed else draft) ≡ false → all ≡ true
signed_status true h = refl
signed_status false h = absurd (ground arith)

not_terminal : (all : Bool) → is_terminal (if all then signed else draft) ≡ false
not_terminal true = refl
not_terminal false = refl

draft_is : (s : LegalContractStatus) → not (is_draft s) ≡ false → s ≡ draft
draft_is draft h = refl
draft_is signed h = absurd (ground arith)
draft_is active h = absurd (ground arith)
draft_is completed h = absurd (ground arith)
draft_is terminated h = absurd (ground arith)
draft_is breached h = absurd (ground arith)

sign-IsConsistent :
    (c : LegalContract) (kind : PartyKind) (id : Text) (tick : ℤ) {after : LegalContract}
    → IsConsistent c
    → sign_legal_contract c kind id tick ≡ ok after
    → IsConsistent after
unfolding sign_legal_contract
sign-IsConsistent c kind id tick h e =
    let (open_status, h1) = throw_if-eq-ok (not (is_draft c.status)) conflict _ e in
    let h2 = (throw_if-eq-ok (not (some_party kind id c.parties)) permission_denied _ h1).1 in
    let all = every has_signed (map (sign_party kind id tick) c.parties) in
    let before : is_terminal c.status ≡ false = rw (draft_is c.status open_status) refl in
    parse-IsConsistent _ (signed_status all, h.1 ∙ before ∙ sym (not_terminal all)) h2

-- A status that a contract moves to, once its guards have let it through.
moved :
    (from target : LegalContractStatus) (all : Bool)
    → not (may_become from target) ≡ false
    → (is_signed target && not all) ≡ false
    → (is_active target && not all) ≡ false
    → (is_draft from ≡ false → all ≡ true)
    → all ≡ true
unfolding may_become
moved draft signed all m s a h = ground arith
moved signed active all m s a h = h refl
moved active completed all m s a h = h refl
moved active terminated all m s a h = h refl
moved active breached all m s a h = h refl
moved from target all m s a h = absurd (ground arith)

terminal_some : (b : Bool) (tick : ℤ) → is_some (if b then some tick else none) ≡ b
terminal_some true tick = refl
terminal_some false tick = refl

transition-IsConsistent :
    (c : LegalContract) (target : LegalContractStatus) (tick : ℤ) {after : LegalContract}
    → IsConsistent c
    → transition_legal_contract c target tick ≡ ok after
    → IsConsistent after
unfolding transition_legal_contract all_parties_signed
transition-IsConsistent c target tick h e =
    let all = every has_signed c.parties in
    let (may, h1) = throw_if-eq-ok (not (may_become c.status target)) conflict _ e in
    let (sign, h2) = throw_if-eq-ok (is_signed target && not all) conflict _ h1 in
    let (activate, h3) = throw_if-eq-ok (is_active target && not all) conflict _ h2 in
    let h4 = (throw_if-eq-ok (is_active target && ltb_ℤ tick c.effective_tick) conflict _ h3).1 in
    parse-IsConsistent _
      (
        λ _. moved c.status target all may sign activate h.0,
        terminal_some (is_terminal target) tick,
      )
      h4

change-IsConsistent :
    (change : LegalObligation → Result LegalObligation) (c : LegalContract) (id : Text)
    {after : LegalContract}
    → IsConsistent c
    → change_obligation change c id ≡ ok after
    → IsConsistent after
unfolding change_obligation
change-IsConsistent change c id h e =
    let (obligations, one, h1) = >>=-eq-ok (change_all change id c.obligations) _ e in
    let h2 = (throw_if-eq-ok (not (has_obligation id c.obligations)) not_found _ h1).1 in
    parse-IsConsistent (record c { obligations = obligations }) h h2

-- The contracts that the operations make.
pub data Made : LegalContract → Type 0 where
  drafted :
      (ids : Counters) (input : ContractTemplateInput) {r : Counters × LegalContract}
      → create_contract_from_template ids input ≡ ok r
      → Made r.1
  after_signature :
      {c : LegalContract} (kind : PartyKind) (id : Text) (tick : ℤ) {after : LegalContract}
      → Made c
      → sign_legal_contract c kind id tick ≡ ok after
      → Made after
  after_transition :
      {c : LegalContract} (target : LegalContractStatus) (tick : ℤ) {after : LegalContract}
      → Made c
      → transition_legal_contract c target tick ≡ ok after
      → Made after
  after_firing :
      {c : LegalContract} (id : Text) (tick : ℤ) {after : LegalContract}
      → Made c
      → fire_legal_obligation c id tick ≡ ok after
      → Made after
  after_completion :
      {c : LegalContract} (id : Text) (tick : ℤ) {after : LegalContract}
      → Made c
      → complete_legal_obligation c id tick ≡ ok after
      → Made after

-- Every contract that drafting, signing, transitions and obligations lead to is consistent: outside
-- the status `draft` all its parties have signed, and it has a terminal tick exactly if its status
-- is terminal.
pub Made-IsConsistent : {c : LegalContract} → Made c → IsConsistent c
unfolding fire_legal_obligation complete_legal_obligation
Made-IsConsistent (drafted ids input e) = create-IsConsistent ids input e
Made-IsConsistent (after_signature kind id tick m e) =
    sign-IsConsistent _ kind id tick (Made-IsConsistent m) e
Made-IsConsistent (after_transition target tick m e) =
    transition-IsConsistent _ target tick (Made-IsConsistent m) e
Made-IsConsistent (after_firing id tick m e) =
    change-IsConsistent (fire_obligation tick) _ id (Made-IsConsistent m) e
Made-IsConsistent (after_completion id tick m e) =
    change-IsConsistent (complete_obligation tick) _ id (Made-IsConsistent m) e
