-- ===== src/Ledger/Authority.antt =====
-- Who may move money: a posting that returns, and is no replay, was allowed.
use worldsimulator.Prelude.{
  ◌≡◌, refl, ap, Bool, true, false, ◌&&◌, List, [], ◌∷◌, ◌++◌, some, arith, All, ◌⊎◌, inl, inr,
  Bool-cases, Option-cases,
}
use worldsimulator.Prelude.Decimal.{Text}
use worldsimulator.Prelude.Results.{ok}
use worldsimulator.Ledger.Types.{
  Transaction, Request, posting_request, Account, parse_transaction, Leg, ActorKind, agent_actor,
  institution, system, admin, AccountOwnerKind, agent, company, government, bank_internal,
  system_row, BankAccountType, checking, internal_asset, internal_liability, internal_income,
  internal_expense, equity, Direction, debit, credit, TransactionKind, payroll, purchase,
  loan_disbursement, loan_payment, tax, benefit, transfer, fee, dividend, mint, row_settlement,
}
use worldsimulator.Ledger.Tables.{Store, any}
use worldsimulator.Ledger.Channels.{
  account_of, controlled_kind_allows, assert_money_channel_authorized, if_controlled, is_system,
  is_privileged, is_credit, is_bank, is_row, is_source, held_by, assert_outbound_ownership,
}
use worldsimulator.Ledger.Posting.{PostResult, post}
use worldsimulator.Ledger.Inversion.{loaded_accounts, Passed}
use worldsimulator.Ledger.Laws.{Outcome, replay, fresh, post-Outcome}
use worldsimulator.Ledger.Owners.{Names, SpendsOwn, account_of-id, owns_credited-SpendsOwn}

-- Some leg names an account, and the two are as `P` says.
abbrev pub HasLeg : (Leg → Account → Type 0) → List Account → List Leg → Type 0
HasLeg P accounts legs =
    (leg : Leg) × (a : Account) × (front : List Leg) × (back : List Leg) × (legs
      ≡ front ++ (leg ∷ back))
    × Names accounts leg a
    × P leg a

-- A leg that draws new money from the bank's own equity or liabilities.
abbrev pub DrawsNew : Leg → Account → Type 0
DrawsNew leg a =
    (leg.direction ≡ credit)
    × (a.owner_kind ≡ bank_internal)
    × (a.type ≡ equity ⊎ a.type ≡ internal_liability)

-- Who may post a kind, and which account a leg of it must name.
abbrev pub IsAllowed : TransactionKind → ActorKind → List Account → List Leg → Type 0
IsAllowed mint actor accounts legs = (actor ≡ system) × HasLeg DrawsNew accounts legs
IsAllowed loan_disbursement actor accounts legs =
    (actor ≡ system) × HasLeg (λ _ a. a.owner_kind ≡ bank_internal) accounts legs
IsAllowed loan_payment actor accounts legs =
    (actor ≡ system) × HasLeg (λ _ a. a.owner_kind ≡ bank_internal) accounts legs
IsAllowed row_settlement actor accounts legs =
    (actor ≡ system) × HasLeg (λ _ a. a.owner_kind ≡ system_row) accounts legs
IsAllowed _ actor accounts legs = Unit

-- A test that holds of some leg and its account.
any-HasLeg :
    (P : Leg → Account → Type 0) (test : Leg → Bool) (accounts : List Account) (legs : List Leg)
    → ((leg : Leg) → test leg ≡ true → (a : Account) × Names accounts leg a × P leg a)
    → any test legs ≡ true
    → HasLeg P accounts legs
any-HasLeg P test accounts [] reads e = absurd (ground arith)
any-HasLeg P test accounts (leg ∷ rest) reads e = elim (Bool-cases (test leg)) [
  | inl found ↦ let (a, named, is) = reads leg found in (leg, a, [], rest, refl, named, is)
  | inr other ↦
      let (l, a, front, back, split, named, is) =
        any-HasLeg P test accounts rest reads (rw other at e) in
      (l, a, leg ∷ front, back, ap (λ ls. leg ∷ ls) split, named, is)
]

held_by-Names :
    (p : Account → Bool) (accounts : List Account) (leg : Leg)
    → held_by p accounts leg ≡ true
    → (a : Account) × Names accounts leg a × (p a ≡ true)
held_by-Names p accounts leg e = elim (Option-cases (account_of leg.account_id accounts)) [
  | inl missing ↦ absurd (ground arith)
  | inr (a, found) ↦ (a, (found, account_of-id leg.account_id accounts found), ground arith)
]

bank_of : (owner : AccountOwnerKind) → is_bank owner ≡ true → owner ≡ bank_internal
bank_of agent e = cc
bank_of company e = cc
bank_of government e = cc
bank_of bank_internal e = refl
bank_of system_row e = cc

row_of : (owner : AccountOwnerKind) → is_row owner ≡ true → owner ≡ system_row
row_of agent e = cc
row_of company e = cc
row_of government e = cc
row_of bank_internal e = cc
row_of system_row e = refl

source_of :
    (type : BankAccountType) → is_source type ≡ true → type ≡ equity ⊎ type ≡ internal_liability
source_of checking e = cc
source_of internal_asset e = cc
source_of internal_liability e = inr refl
source_of internal_income e = cc
source_of internal_expense e = cc
source_of equity e = inl refl

system_of : (actor : ActorKind) → is_system actor ≡ true → actor ≡ system
system_of agent_actor e = cc
system_of institution e = cc
system_of system e = refl
system_of admin e = cc

credit_of : (direction : Direction) → is_credit direction ≡ true → direction ≡ credit
credit_of debit e = cc
credit_of credit e = refl

any_held :
    (accounts : List Account) (legs : List Leg) (test : AccountOwnerKind → Bool)
    (owner : AccountOwnerKind)
    → ((k : AccountOwnerKind) → test k ≡ true → k ≡ owner)
    → any (held_by (λ a. test a.owner_kind) accounts) legs ≡ true
    → HasLeg (λ _ a. a.owner_kind ≡ owner) accounts legs
any_held accounts legs test owner reads =
    any-HasLeg (λ _ a. a.owner_kind ≡ owner) (held_by (λ a. test a.owner_kind) accounts) accounts
      legs
      (λ leg e.
        let (a, named, is) = held_by-Names (λ a. test a.owner_kind) accounts leg e in
        (a, named, reads a.owner_kind is))

any_source :
    (accounts : List Account) (legs : List Leg)
    → any
        (λ leg.
          is_credit leg.direction
          && held_by (λ a. is_bank a.owner_kind && is_source a.type) accounts leg)
        legs
      ≡ true
    → HasLeg DrawsNew accounts legs
any_source accounts legs =
    any-HasLeg DrawsNew
      (λ leg.
        is_credit leg.direction
        && held_by (λ a. is_bank a.owner_kind && is_source a.type) accounts leg)
      accounts legs
      (λ leg e.
        let (a, named, is) =
          held_by-Names (λ a. is_bank a.owner_kind && is_source a.type) accounts leg
            (ground arith) in
        (
          a,
          named,
          (
            credit_of leg.direction (ground arith),
            bank_of a.owner_kind (ground arith),
            source_of a.type (ground arith),
          ),
        ))

if_controlled-guards :
    (actor : ActorKind) (allowed : Bool)
    → if_controlled actor (some allowed) ≡ ok tt
    → (actor ≡ system) × (allowed ≡ true)
if_controlled-guards actor allowed e = (system_of actor (ground arith), ground arith)

controlled-IsAllowed :
    (kind : TransactionKind) (actor : ActorKind) (accounts : List Account) (legs : List Leg)
    → if_controlled actor (controlled_kind_allows kind accounts legs) ≡ ok tt
    → IsAllowed kind actor accounts legs
unfolding controlled_kind_allows
controlled-IsAllowed mint actor accounts legs e =
    let (by, allowed) = if_controlled-guards actor _ e in (by, any_source accounts legs allowed)
controlled-IsAllowed loan_disbursement actor accounts legs e =
    let (by, allowed) = if_controlled-guards actor _ e in
    (by, any_held accounts legs is_bank bank_internal bank_of allowed)
controlled-IsAllowed loan_payment actor accounts legs e =
    let (by, allowed) = if_controlled-guards actor _ e in
    (by, any_held accounts legs is_bank bank_internal bank_of allowed)
controlled-IsAllowed row_settlement actor accounts legs e =
    let (by, allowed) = if_controlled-guards actor _ e in
    (by, any_held accounts legs is_row system_row row_of allowed)
controlled-IsAllowed payroll actor accounts legs e = tt
controlled-IsAllowed purchase actor accounts legs e = tt
controlled-IsAllowed tax actor accounts legs e = tt
controlled-IsAllowed benefit actor accounts legs e = tt
controlled-IsAllowed transfer actor accounts legs e = tt
controlled-IsAllowed fee actor accounts legs e = tt
controlled-IsAllowed dividend actor accounts legs e = tt

privilege : (actor : ActorKind) → (actor ≡ system) ⊎ (actor ≡ admin) ⊎ (is_privileged actor ≡ false)
privilege agent_actor = inr (inr refl)
privilege institution = inr (inr refl)
privilege system = inl refl
privilege admin = inr (inl refl)

-- Unless the actor is the system or an administrator, every leg of a fresh posting that credits an
-- account, that is, spends from it, names an account whose owner id is the actor's, and which an
-- agent owns if the actor is one, and else a company or a government. Minting, the paying out and
-- paying back of loans and settlements with the rest of the world are posted by the system only. A
-- leg of a minting credits the equity or an internal liability of a bank; one of a loan's names a
-- bank's internal account; one of a settlement names the rest of the world's.
pub post_authorized :
    (hash : Request → Text) (s : Store) (input : Transaction) {s' : Store} {r : PostResult}
    → post hash s input ≡ ok (s', r)
    → r.duplicate ≡ false
    → (t : Transaction) × (parse_transaction input ≡ ok t)
      × ((t.actor.kind ≡ system)
          ⊎ (t.actor.kind ≡ admin)
          ⊎ All (SpendsOwn t.actor (loaded_accounts s t)) t.legs)
      × IsAllowed t.kind t.actor.kind (loaded_accounts s t) t.legs
unfolding assert_outbound_ownership assert_money_channel_authorized
post_authorized hash s input {s'} {r} e first =
    let (t, parsed, outcome) = post-Outcome hash s input e in
    let p = passed t outcome in
    (
      t,
      parsed,
      by_actor t p.owned,
      controlled-IsAllowed t.kind t.actor.kind (loaded_accounts s t) t.legs p.authorized,
    )
  where
    by_actor :
        (t : Transaction)
        → assert_outbound_ownership t (loaded_accounts s t) ≡ ok tt
        → (t.actor.kind ≡ system)
          ⊎ (t.actor.kind ≡ admin)
          ⊎ All (SpendsOwn t.actor (loaded_accounts s t)) t.legs
    by_actor t owned = elim (privilege t.actor.kind) [
      | inl by_system ↦ inl by_system
      | inr (inl by_admin) ↦ inr (inl by_admin)
      | inr (inr plain) ↦
          inr
            (inr (owns_credited-SpendsOwn t.actor (loaded_accounts s t) t.legs (rw plain at owned)))
    ]

    passed :
        (t : Transaction)
        → Outcome s t (hash (posting_request t)) s' r
        → Passed s t (hash (posting_request t)) s' r
    passed t (replay same dup _) = absurd (ground arith)
    passed t (fresh _ p) = p
