-- ===== src/Ledger/Laws.antt =====
-- What `post` promises: money is conserved, floors hold, and a replay changes nothing.
use worldsimulator.Prelude.{
  ◌≡◌, sym, ◌∙◌, true, false, List, [], ◌∷◌, none, some, ap, subst, inl, inr, Option-cases,
  Bool-cases, if◌then◌else◌,
}
use worldsimulator.Prelude.Int.{pos_part, neg_part, int_laws}
use worldsimulator.Prelude.Decimal.{Text}
use worldsimulator.Prelude.Texts.{text_eq, text_eq_refl}
use worldsimulator.Prelude.Results.{Result, ok, err, conflict, >>=-eq-ok, ok-injective}
use worldsimulator.Ledger.Types.{
  Transaction, Request, posting_request, Account, Stored, parse_transaction,
}
use worldsimulator.Ledger.Tables.{Store, find_by_idempotency_key, get_accounts}
use worldsimulator.Ledger.Posting.{PostResult, no_legs, post_parsed, post}
use worldsimulator.Ledger.Balances.{
  total, IsAboveFloor, matched-account_of, balance_column, floor_column,
}
use worldsimulator.Ledger.Deltas.{Deltas, tally_legs-IsBalanced}
use worldsimulator.Ledger.Saving.{AllUnwritten, update_all}
use worldsimulator.Ledger.Inversion.{loaded_accounts, Passed, post_fresh_inversion}

-- The result of a replay.
abbrev pub replayed : Transaction → PostResult
replayed t = record { transaction = t; duplicate = true; resulting_balances = [] }

-- A call that returns was a replay, which leaves the store, or a fresh posting that passed.
pub data Outcome (s : Store) (t : Transaction) (h : Text) (s' : Store) (r : PostResult)
    : Type 0 where
  replay : s ≡ s' → r.duplicate ≡ true → r.resulting_balances ≡ [] → Outcome s t h s' r
  fresh :
      find_by_idempotency_key t.run_id t.idempotency_key s.transactions ≡ none
      → Passed s t h s' r
      → Outcome s t h s' r

post_parsed-Outcome :
    (s : Store) (t : Transaction) (h : Text) {s' : Store} {r : PostResult}
    → post_parsed s t h ≡ ok (s', r)
    → Outcome s t h s' r
unfolding post_parsed
post_parsed-Outcome s t h {s'} {r} e =
    elim (Option-cases (find_by_idempotency_key t.run_id t.idempotency_key s.transactions)) [
      | inl new ↦ fresh new (post_fresh_inversion s t h (rw (new, post_parsed) at e))
      | inr (prior, found) ↦ prior_outcome prior (rw (found, post_parsed) at e)
    ]
  where
    refused : ◌≡◌ {A = Result (Store × PostResult)} (err conflict) (ok (s', r)) → ⊥
    refused e = cc

    prior_outcome :
        (prior : Stored)
        → if◌then◌else◌ {A = Result (Store × PostResult)}
            (text_eq prior.request_hash h)
            (ok (s, replayed prior.transaction))
            (err conflict)
          ≡ ok (s', r)
        → Outcome s t h s' r
    prior_outcome prior e = elim (Bool-cases (text_eq prior.request_hash h)) [
      | inl same ↦
          let done = ok-injective (rw same at e) in
          replay (ap (λ x. x.0) done) (sym (ap (λ x. x.1.duplicate) done))
            (sym (ap (λ x. x.1.resulting_balances) done))
      | inr other ↦ absurd (refused (rw other at e))
    ]

pub post-Outcome :
    (hash : Request → Text) (s : Store) (input : Transaction) {s' : Store} {r : PostResult}
    → post hash s input ≡ ok (s', r)
    → (t : Transaction) × (parse_transaction input ≡ ok t)
      × Outcome s t (hash (posting_request t)) s' r
unfolding post
post-Outcome hash s input {s'} {r} e =
    let (t, parsed, e₁) = >>=-eq-ok (parse_transaction input) _ e in
    (t, parsed, post_parsed-Outcome s t (hash (posting_request t)) e₁)

-- Before the first `UPDATE` every row has what was loaded.
pub all_unwritten :
    (run : Text) (ids : List Text) (A : List Account) (ds : Deltas)
    → AllUnwritten run (get_accounts run ids A) A ds
all_unwritten run ids A [] = tt
all_unwritten run ids A ((id, d) ∷ ds) = (
  λ a found one. (
    matched-account_of balance_column run id ids A found one,
    matched-account_of floor_column run id ids A found one,
  ),
  all_unwritten run ids A ds,
)

-- Whatever is posted, the money in all accounts together stays the same, and if no account was
-- below its floor then none is afterwards.
pub post-total :
    (hash : Request → Text) (s : Store) (input : Transaction) {s' : Store} {r : PostResult}
    → post hash s input ≡ ok (s', r)
    → (total s'.accounts ≡ total s.accounts) × (IsAboveFloor s.accounts → IsAboveFloor s'.accounts)
post-total hash s input {s'} {r} e =
    let (t, _, outcome) = post-Outcome hash s input e in by_outcome t outcome
  where
    by_outcome :
        (t : Transaction)
        → Outcome s t (hash (posting_request t)) s' r
        → (total s'.accounts ≡ total s.accounts)
          × (IsAboveFloor s.accounts → IsAboveFloor s'.accounts)
    by_outcome t (replay same _ _) =
        (ap (λ x. total x.accounts) (sym same), subst (λ x. IsAboveFloor x.accounts) same)
    by_outcome t (fresh _ p) =
        let (dist, deltas) = tally_legs-IsBalanced t.legs no_legs (tt, omega int_laws) p.tallied in
        let (moved, kept) =
          update_all t.run_id (loaded_accounts s t) s.accounts p.tally.deltas dist
            (all_unwritten t.run_id _ s.accounts p.tally.deltas) p.computed p.updated in
        (
          omega (
            int_laws,
            ap pos_part moved,
            ap neg_part moved,
            ap pos_part deltas,
            ap neg_part deltas,
            ap pos_part p.balanced,
            ap neg_part p.balanced,
          ),
          kept,
        )

find_stored :
    (t : Transaction) (h : Text) (stored rest : List Stored)
    → stored ≡ record { transaction = t; request_hash = h } ∷ rest
    → find_by_idempotency_key t.run_id t.idempotency_key stored
      ≡ some (record { transaction = t; request_hash = h })
unfolding find_by_idempotency_key
find_stored t h stored rest e = rw e (rw (text_eq_refl t.run_id, text_eq_refl t.idempotency_key))

post_parsed_again :
    (s' : Store) (t : Transaction) (h : Text) (rest : List Stored)
    → s'.transactions ≡ record { transaction = t; request_hash = h } ∷ rest
    → post_parsed s' t h ≡ ok (s', replayed t)
unfolding post_parsed
post_parsed_again s' t h rest stored =
    rw (find_stored t h s'.transactions rest stored, post_parsed) (rw (text_eq_refl h))

-- A fresh posting under an unused key, when the same input is posted again: the second call
-- returns a duplicate that reports the first transaction, and does not change the store.
pub post_again :
    (hash : Request → Text) (s : Store) (input : Transaction) {s' : Store} {r : PostResult}
    → post hash s input ≡ ok (s', r)
    → r.duplicate ≡ false
    → post hash s' input ≡ ok (s', replayed r.transaction)
unfolding post
post_again hash s input {s'} {r} e first =
    let (t, parsed, outcome) = post-Outcome hash s input e in by_outcome t parsed outcome
  where
    by_outcome :
        (t : Transaction)
        → parse_transaction input ≡ ok t
        → Outcome s t (hash (posting_request t)) s' r
        → post hash s' input ≡ ok (s', replayed r.transaction)
    by_outcome t parsed (replay _ dup _) = absurd (false_true (sym first ∙ dup))
      where
        false_true : false ≡ true → ⊥
        false_true h = cc
    by_outcome t parsed (fresh _ p) =
        rw (parsed, post)
          (rw p.reported
            (post_parsed_again s' t (hash (posting_request t)) s.transactions p.stored))
