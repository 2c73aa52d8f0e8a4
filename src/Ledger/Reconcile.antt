-- ===== src/Ledger/Reconcile.antt =====
-- What `post` reports and writes, against what `reconcileLedgerBalance` rebuilds from the legs.
use worldsimulator.Prelude.{
  ◌≡◌, ◌≢◌, map, arith, refl, sym, ◌∙◌, Bool, true, false, List, [], ◌∷◌, some, All, inl, inr, ap,
  subst, Bool-cases, if◌then◌else◌, filter,
}
use worldsimulator.Prelude.Int.{ℤ, pos, pos_part, neg_part, ◌+ℤ◌, ◌-ℤ◌, neg, int_laws}
use worldsimulator.Prelude.Decimal.{Text}
use worldsimulator.Prelude.Texts.{text_eq, text_eq→≡, text_eq-sym, text_eq_refl}
use worldsimulator.Prelude.Results.{ok, >>=-eq-ok, ok-injective}
use worldsimulator.Money.{money}
use worldsimulator.Ledger.Types.{
  Direction, debit, credit, Leg, Account, Transaction, Request, posting_request, parse_transaction,
}
use worldsimulator.Ledger.Tables.{Store}
use worldsimulator.Ledger.Channels.{account_of}
use worldsimulator.Ledger.Posting.{
  add_delta, Tally, no_legs, tally_leg, tally_legs, signed, reconcile_ledger_balance,
  resulting_balances, PostResult, post,
}
use worldsimulator.Ledger.Deltas.{Deltas, Fresh, Distinct, tally_legs-IsBalanced}
use worldsimulator.Ledger.Saving.{resulting_nothing, resulting_first}
use worldsimulator.Ledger.Inversion.{loaded_accounts, Passed}
use worldsimulator.Ledger.Laws.{Outcome, replay, fresh, post-Outcome, all_unwritten}
use worldsimulator.Ledger.Rows.{delta_of, moved, IsMoved, moved-IsMoved, update_balances-moved}
use worldsimulator.Ledger.Reported.{IsReported, resulting-IsReported}

-- The legs of one account.
abbrev pub legs_of : Text → List Leg → List Leg
legs_of id = filter (λ leg. text_eq leg.account_id id)

delta_of-add_delta :
    (id k : Text) (x : ℤ) (ds : Deltas)
    → delta_of id (add_delta k x ds) ≡ delta_of id ds +ℤ (if text_eq k id then x else pos 0)
unfolding add_delta
delta_of-add_delta id k x [] = elim (Bool-cases (text_eq k id)) [
  | inl same ↦ rw same (omega int_laws)
  | inr other ↦ rw other (omega int_laws)
]
delta_of-add_delta id k x ((j, d) ∷ ds) = elim (Bool-cases (text_eq j k)) [
  | inl merged ↦ rw merged (rw (text_eq→≡ j k merged) (merge (text_eq k id)))
  | inr apart ↦
      let ih = delta_of-add_delta id k x ds in
      rw apart (omega (int_laws, ap pos_part ih, ap neg_part ih))
]
  where
    merge :
        (b : Bool)
        → (if b then d +ℤ x else pos 0) +ℤ delta_of id ds
          ≡ (if b then d else pos 0) +ℤ delta_of id ds +ℤ (if b then x else pos 0)
    merge true = omega int_laws
    merge false = omega int_laws

delta_of-tally_leg :
    (id : Text) (d : Direction) (k : Text) (x : ℤ) (t : Tally)
    → delta_of id (tally_leg d k x t).deltas
      ≡ delta_of id t.deltas +ℤ (if text_eq k id then signed d x else pos 0)
delta_of-tally_leg id debit k x t = delta_of-add_delta id k x t.deltas
delta_of-tally_leg id credit k x t = delta_of-add_delta id k (neg x) t.deltas

-- Rebuilding from the legs of `id` adds what the loop over all legs adds to its delta.
reconcile-tally_legs :
    (id : Text) (legs : List Leg) (t : Tally) (b : ℤ) {u : Tally}
    → tally_legs legs t ≡ ok u
    → reconcile_ledger_balance b (legs_of id legs)
      ≡ ok (b +ℤ (delta_of id u.deltas -ℤ delta_of id t.deltas))
unfolding tally_legs reconcile_ledger_balance
reconcile-tally_legs id [] t b {u} e = ap ok (
    subst (λ v. b ≡ b +ℤ (delta_of id v.deltas -ℤ delta_of id t.deltas)) (ok-injective e)
      (omega int_laws))
reconcile-tally_legs id (leg ∷ rest) t b {u} e =
    let (x, read, e') = >>=-eq-ok (money leg.amount_cents) _ e in
    let t' = tally_leg leg.direction leg.account_id x t in
    let step = delta_of-tally_leg id leg.direction leg.account_id x t in
    elim (Bool-cases (text_eq leg.account_id id)) [
      | inl mine ↦
          let step' = rw mine at step in
          rw (mine, read)
            (reconcile-tally_legs id rest t' (b +ℤ signed leg.direction x) {u = u} e'
              ∙ ap ok (omega (int_laws, ap pos_part step', ap neg_part step')))
      | inr other ↦
          let step' = rw other at step in
          rw other (
            reconcile-tally_legs id rest t' b {u = u} e'
            ∙ ap ok (omega (int_laws, ap pos_part step', ap neg_part step')))
    ]

delta_of-Fresh : (id : Text) (ds : Deltas) → Fresh id ds → delta_of id ds ≡ pos 0
delta_of-Fresh id [] f = refl
delta_of-Fresh id ((k, d) ∷ ds) f = rw (f.0, delta_of-Fresh id ds f.1) (omega int_laws)

abbrev Listed : Deltas → Deltas → Type 0
Listed all = All (λ kd. delta_of kd.0 all ≡ kd.1)

Listed-behind :
    (id : Text) (d : ℤ) (all ds : Deltas) → Fresh id ds → Listed all ds → Listed ((id, d) ∷ all) ds
Listed-behind id d all [] f l = tt
Listed-behind id d all ((k, e) ∷ ds) f l = (
  rw (text_eq-sym id k ∙ f.0) (omega (int_laws, ap pos_part l.0, ap neg_part l.0)),
  Listed-behind id d all ds f.1 l.1,
)

Listed-all : (ds : Deltas) → Distinct ds → Listed ds ds
Listed-all [] h = tt
Listed-all ((id, d) ∷ ds) h = (
  rw (text_eq_refl id, delta_of-Fresh id ds h.0) (omega int_laws),
  Listed-behind id d ds ds h.0 (Listed-all ds h.1),
)

-- Each balance is the loaded one, moved as the legs of its account say.
abbrev pub Reconciles : List Account → List Leg → List (Text × ℤ) → Type 0
Reconciles loaded legs = All (λ kb.
    (a : Account)
    → account_of kb.0 loaded ≡ some a
    → reconcile_ledger_balance a.balance_cents (legs_of kb.0 legs) ≡ ok kb.1)

resulting-Reconciles :
    (loaded : List Account) (legs : List Leg) {u : Tally} (ds : Deltas) {bs : List (Text × ℤ)}
    → tally_legs legs no_legs ≡ ok u
    → Listed u.deltas ds
    → resulting_balances loaded ds ≡ ok bs
    → Reconciles loaded legs bs
resulting-Reconciles loaded legs {u} [] {bs} t l e =
    subst (Reconciles loaded legs) (sym (resulting_nothing loaded e)) tt
resulting-Reconciles loaded legs {u} ((id, d) ∷ ds) {bs} t l e =
    let (a, found, _, rest, e', shape) = resulting_first loaded id d ds e in
    subst (Reconciles loaded legs) (sym shape) (
      λ a' found'. rw (some_same (sym found' ∙ found)) (
          reconcile-tally_legs id legs no_legs a.balance_cents {u = u} t
          ∙ ap ok (omega (int_laws, ap pos_part l.0, ap neg_part l.0))),
      resulting-Reconciles loaded legs {u = u} ds {bs = rest} t l.1 e',
    )
  where
    some_same : {a b : Account} → some a ≡ some b → a ≡ b
    some_same e = cc

-- A row, and the same row after the posting: only the balance can differ, and it is the one rebuilt
-- from the legs of the account, if the account is of the transaction's run; else it is the same.
abbrev pub IsRebuilt : Transaction → Account → Account → Type 0
IsRebuilt t a b =
    (b ≡ record a { balance_cents = b.balance_cents })
    × (a.run_id ≡ t.run_id
        → reconcile_ledger_balance a.balance_cents (legs_of a.id t.legs) ≡ ok b.balance_cents)
    × (a.run_id ≢ t.run_id → b.balance_cents ≡ a.balance_cents)

moved-IsRebuilt :
    (t : Transaction) (a : Account) {b : Account} {u : Tally}
    → tally_legs t.legs no_legs ≡ ok u
    → IsMoved t.run_id u.deltas a b
    → IsRebuilt t a b
moved-IsRebuilt t a {b} {u} tallied h = (h.0, mine, apart)
  where
    mine :
        a.run_id ≡ t.run_id
        → reconcile_ledger_balance a.balance_cents (legs_of a.id t.legs) ≡ ok b.balance_cents
    mine same =
        let here : text_eq a.run_id t.run_id ≡ true = rw same (text_eq_refl t.run_id) in
        let balance = rw here at h.1 in
        reconcile-tally_legs a.id t.legs no_legs a.balance_cents {u = u} tallied
        ∙ ap ok (omega (int_laws, ap pos_part balance, ap neg_part balance))

    apart : a.run_id ≢ t.run_id → b.balance_cents ≡ a.balance_cents
    apart other = elim (Bool-cases (text_eq a.run_id t.run_id)) [
      | inl same ↦ absurd (other (text_eq→≡ a.run_id t.run_id same))
      | inr there ↦
          let balance = rw there at h.1 in
          omega (int_laws, ap pos_part balance, ap neg_part balance)
    ]

-- A fresh posting writes every row of the table of accounts so: a row of the transaction's run gets
-- the balance that `reconcileLedgerBalance` rebuilds from its balance before and the legs of its
-- account, and keeps its other columns; a row of another run stays as it was. Each balance that is
-- reported is the rebuilt one too, and that of every account with a leg is reported.
pub post-Reconciles :
    (hash : Request → Text) (s : Store) (input : Transaction) {s' : Store} {r : PostResult}
    → post hash s input ≡ ok (s', r)
    → r.duplicate ≡ false
    → (t : Transaction) × (parse_transaction input ≡ ok t)
      × (written : Account → Account) × (s'.accounts ≡ map written s.accounts)
      × ((a : Account) → IsRebuilt t a (written a))
      × Reconciles (loaded_accounts s t) t.legs r.resulting_balances
      × All (IsReported r.resulting_balances) t.legs
post-Reconciles hash s input {s'} {r} e first =
    let (t, parsed, outcome) = post-Outcome hash s input e in
    let p = passed t outcome in
    let (dist, _) = tally_legs-IsBalanced t.legs no_legs (tt, omega int_laws) p.tallied in
    let unwritten = all_unwritten t.run_id _ s.accounts p.tally.deltas in
    (
      t,
      parsed,
      moved t.run_id p.tally.deltas,
      update_balances-moved t.run_id (loaded_accounts s t) s.accounts p.tally.deltas dist unwritten
          p.computed p.updated,
      λ a. moved-IsRebuilt t a {u = p.tally} p.tallied (moved-IsMoved t.run_id p.tally.deltas a),
      rw p.reported (
          resulting-Reconciles (loaded_accounts s t) t.legs {u = p.tally} p.tally.deltas p.tallied
            (Listed-all p.tally.deltas dist) p.computed),
      rw p.reported
          (resulting-IsReported (loaded_accounts s t) t.legs {u = p.tally} p.tallied p.computed),
    )
  where
    passed :
        (t : Transaction)
        → Outcome s t (hash (posting_request t)) s' r
        → Passed s t (hash (posting_request t)) s' r
    passed t (replay same dup _) = absurd (ground arith)
    passed t (fresh _ p) = p
