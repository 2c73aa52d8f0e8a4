-- ===== src/Ledger/Owners.antt =====
-- Whose account a leg spends from.
use worldsimulator.Prelude.{
  ◌≡◌, refl, ap, subst, true, List, [], ◌∷◌, some, arith, All, ◌⊎◌, inl, inr, Bool-cases,
  Option-cases,
}
use worldsimulator.Prelude.Decimal.{Text}
use worldsimulator.Prelude.Texts.{text_eq, text_eq→≡}
use worldsimulator.Prelude.Results.{ok}
use worldsimulator.Ledger.Types.{
  Account, Leg, ActorRef, ActorKind, agent_actor, institution, system, admin, AccountOwnerKind,
  agent, company, government, bank_internal, system_row, credit,
}
use worldsimulator.Ledger.Channels.{
  account_of, is_credit, owner_kind_matches, owns_account, owns_credited,
}

-- The account that a leg names, among the loaded ones.
abbrev pub Names : List Account → Leg → Account → Type 0
Names accounts leg a = (account_of leg.account_id accounts ≡ some a) × (a.id ≡ leg.account_id)

-- The kind of account that an unprivileged actor can be the owner of.
abbrev pub MayOwn : ActorKind → AccountOwnerKind → Type 0
MayOwn agent_actor owner = owner ≡ agent
MayOwn _ owner = owner ≡ company ⊎ owner ≡ government

-- A leg that spends names an account of the actor.
abbrev pub SpendsOwn : ActorRef → List Account → Leg → Type 0
SpendsOwn actor accounts leg =
    leg.direction ≡ credit
    → (a : Account) × Names accounts leg a
      × (a.owner_id ≡ actor.id)
      × MayOwn actor.kind a.owner_kind

pub account_of-id :
    (id : Text) (accounts : List Account) {a : Account}
    → account_of id accounts ≡ some a
    → a.id ≡ id
unfolding account_of
account_of-id id [] e = cc
account_of-id id (b ∷ rest) {a} e = elim (Bool-cases (text_eq b.id id)) [
  | inl same ↦
      let e' : some b ≡ some a = rw same at e in
      subst (λ o. o.id ≡ id) (some-injective e') (text_eq→≡ b.id id same)
  | inr other ↦ account_of-id id rest (rw other at e)
]
  where
    some-injective : {a b : Account} → some a ≡ some b → a ≡ b
    some-injective e = cc

owner_kind_matches-MayOwn :
    (actor : ActorKind) (owner : AccountOwnerKind)
    → owner_kind_matches actor owner ≡ true
    → MayOwn actor owner
owner_kind_matches-MayOwn agent_actor agent e = refl
owner_kind_matches-MayOwn agent_actor company e = cc
owner_kind_matches-MayOwn agent_actor government e = cc
owner_kind_matches-MayOwn agent_actor bank_internal e = cc
owner_kind_matches-MayOwn agent_actor system_row e = cc
owner_kind_matches-MayOwn institution agent e = cc
owner_kind_matches-MayOwn institution company e = inl refl
owner_kind_matches-MayOwn institution government e = inr refl
owner_kind_matches-MayOwn institution bank_internal e = cc
owner_kind_matches-MayOwn institution system_row e = cc
owner_kind_matches-MayOwn system agent e = cc
owner_kind_matches-MayOwn system company e = inl refl
owner_kind_matches-MayOwn system government e = inr refl
owner_kind_matches-MayOwn system bank_internal e = cc
owner_kind_matches-MayOwn system system_row e = cc
owner_kind_matches-MayOwn admin agent e = cc
owner_kind_matches-MayOwn admin company e = inl refl
owner_kind_matches-MayOwn admin government e = inr refl
owner_kind_matches-MayOwn admin bank_internal e = cc
owner_kind_matches-MayOwn admin system_row e = cc

owns_account-IsOwner :
    (actor : ActorRef) (a : Account)
    → owns_account actor a ≡ true
    → (a.owner_id ≡ actor.id) × MayOwn actor.kind a.owner_kind
unfolding owns_account
owns_account-IsOwner actor a e = (
  text_eq→≡ a.owner_id actor.id (ground arith),
  owner_kind_matches-MayOwn actor.kind a.owner_kind (ground arith),
)

pub owns_credited-SpendsOwn :
    (actor : ActorRef) (accounts : List Account) (legs : List Leg)
    → owns_credited actor accounts legs ≡ ok tt
    → All (SpendsOwn actor accounts) legs
unfolding owns_credited
owns_credited-SpendsOwn actor accounts [] e = tt
owns_credited-SpendsOwn actor accounts (leg ∷ rest) e = (
  λ credited. first_owned (ap is_credit credited),
  owns_credited-SpendsOwn actor accounts rest (ground arith),
)
  where
    first_owned :
        is_credit leg.direction ≡ true
        → (a : Account) × Names accounts leg a
          × (a.owner_id ≡ actor.id)
          × MayOwn actor.kind a.owner_kind
    first_owned credited = elim (Option-cases (account_of leg.account_id accounts)) [
      | inl missing ↦ absurd (ground arith)
      | inr (a, found) ↦
          let (named, kind) = owns_account-IsOwner actor a (ground arith) in
          (a, (found, account_of-id leg.account_id accounts found), named, kind)
    ]
