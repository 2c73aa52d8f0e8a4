-- ===== src/Ledger/Channels.antt =====
-- Who may move money: the controlled kinds, spending from an account, and opening one.
use worldsimulator.Prelude.{
  Bool, true, false, ◌&&◌, ◌||◌, not, List, [], ◌∷◌, Option, none, some, if◌then◌else◌,
}
use worldsimulator.Prelude.Decimal.{Text}
use worldsimulator.Prelude.Texts.{text_eq}
use worldsimulator.Prelude.Results.{permission_denied, Result, ok, err, ◌>>◌, throw_if}
use worldsimulator.Ledger.Types.{
  AccountOwnerKind, agent, company, government, bank_internal, system_row, BankAccountType,
  internal_liability, equity, TransactionKind, mint, loan_disbursement, loan_payment,
  row_settlement, Direction, debit, credit, ActorKind, agent_actor, system, admin, ActorRef, Leg,
  Transaction, Account,
}
use worldsimulator.Ledger.Tables.{any}

-- `accounts.get(id)`
unfoldable pub account_of : Text → List Account → Option Account
account_of id [] = none
account_of id (a ∷ rest) = if text_eq a.id id then some a else account_of id rest

abbrev pub is_system : ActorKind → Bool
is_system system = true
is_system _ = false

abbrev pub is_privileged : ActorKind → Bool
is_privileged system = true
is_privileged admin = true
is_privileged _ = false

abbrev pub is_credit : Direction → Bool
is_credit credit = true
is_credit debit = false

abbrev pub is_row : AccountOwnerKind → Bool
is_row system_row = true
is_row _ = false

abbrev pub is_bank : AccountOwnerKind → Bool
is_bank bank_internal = true
is_bank _ = false

abbrev pub is_source : BankAccountType → Bool
is_source equity = true
is_source internal_liability = true
is_source _ = false

-- `accounts.get(leg.accountId)?.ownerKind === …`
abbrev pub held_by : (Account → Bool) → List Account → Leg → Bool
held_by p accounts leg = elim (account_of leg.account_id accounts) [ none ↦ false | some a ↦ p a ]

-- What `assertMoneyChannelAuthorized` wants of the legs, by kind; `none` for the other kinds.
unfoldable pub controlled_kind_allows : TransactionKind → List Account → List Leg → Option Bool
unfolding account_of
controlled_kind_allows mint accounts legs = some (
    any
      (λ leg.
        is_credit leg.direction
        && held_by (λ a. is_bank a.owner_kind && is_source a.type) accounts leg)
      legs)
controlled_kind_allows loan_disbursement accounts legs =
    some (any (held_by (λ a. is_bank a.owner_kind) accounts) legs)
controlled_kind_allows loan_payment accounts legs =
    some (any (held_by (λ a. is_bank a.owner_kind) accounts) legs)
controlled_kind_allows row_settlement accounts legs =
    some (any (held_by (λ a. is_row a.owner_kind) accounts) legs)
controlled_kind_allows _ accounts legs = none

-- The guards of a controlled kind, in order; none for the other kinds.
abbrev pub if_controlled : ActorKind → Option Bool → Result (Unit {0})
if_controlled actor none = ok tt
if_controlled actor (some allowed) =
    throw_if (not (is_system actor)) permission_denied >> throw_if (not allowed) permission_denied

unfoldable pub assert_money_channel_authorized : Transaction → List Account → Result (Unit {0})
unfolding controlled_kind_allows
assert_money_channel_authorized t accounts =
    if_controlled t.actor.kind (controlled_kind_allows t.kind accounts t.legs)

-- The kinds of account that an actor of a kind may own.
abbrev pub owner_kind_matches : ActorKind → AccountOwnerKind → Bool
owner_kind_matches agent_actor agent = true
owner_kind_matches agent_actor _ = false
owner_kind_matches _ company = true
owner_kind_matches _ government = true
owner_kind_matches _ _ = false

-- `ownsAccount`
unfoldable pub owns_account : ActorRef → Account → Bool
owns_account actor a = owner_kind_matches actor.kind a.owner_kind && text_eq a.owner_id actor.id

-- The loop over the legs; every account has been found by then.
unfoldable pub owns_credited : ActorRef → List Account → List Leg → Result (Unit {0})
unfolding account_of owns_account
owns_credited actor accounts [] = ok tt
owns_credited actor accounts (leg ∷ rest) =
    let tail = owns_credited actor accounts rest in
    if not (is_credit leg.direction) then tail else elim (account_of leg.account_id accounts) [
      | none ↦ err permission_denied
      | some a ↦ if owns_account actor a then tail else err permission_denied
    ]

unfoldable pub assert_outbound_ownership : Transaction → List Account → Result (Unit {0})
unfolding owns_credited
assert_outbound_ownership t accounts =
    if is_privileged t.actor.kind then ok tt else owns_credited t.actor accounts t.legs

unfoldable pub assert_can_open_account : ActorRef → AccountOwnerKind → Text → Result (Unit {0})
assert_can_open_account actor owner_kind owner_id =
    if is_privileged actor.kind
      || (owner_kind_matches actor.kind owner_kind && text_eq actor.id owner_id)
    then ok tt
    else err permission_denied
