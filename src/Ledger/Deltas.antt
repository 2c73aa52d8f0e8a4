-- ===== src/Ledger/Deltas.antt =====
-- The deltas of a posting: one for each account, together the debits less the credits.
use worldsimulator.Prelude.{◌≡◌, subst, ◌∙◌, false, List, [], ◌∷◌, All, inl, inr, Bool-cases, ap}
use worldsimulator.Prelude.Int.{ℤ, pos, pos_part, neg_part, ◌+ℤ◌, ◌-ℤ◌, neg, int_laws}
use worldsimulator.Prelude.Decimal.{Text}
use worldsimulator.Prelude.Texts.{text_eq, text_eq-sym}
use worldsimulator.Prelude.Results.{ok, >>=-eq-ok, ok-injective}
use worldsimulator.Money.{money}
use worldsimulator.Ledger.Types.{Direction, debit, credit, Leg}
use worldsimulator.Ledger.Posting.{add_delta, Tally, tally_leg, tally_legs}

abbrev pub Deltas : Type 0
Deltas = List (Text × ℤ)

abbrev pub Fresh : Text → Deltas → Type 0
Fresh id = All (λ kd. text_eq kd.0 id ≡ false)

-- No account has two deltas.
abbrev pub Distinct : Deltas → Type 0
Distinct [] = Unit
Distinct ((id, d) ∷ rest) = Fresh id rest × Distinct rest

abbrev pub sum_deltas : Deltas → ℤ
sum_deltas [] = pos 0
sum_deltas ((id, d) ∷ rest) = d +ℤ sum_deltas rest

add_delta-Fresh :
    (id k : Text) (x : ℤ) (ds : Deltas)
    → text_eq id k ≡ false
    → Fresh k ds
    → Fresh k (add_delta id x ds)
unfolding add_delta
add_delta-Fresh id k x [] h f = (h, tt)
add_delta-Fresh id k x ((j, d) ∷ ds) h f = elim (Bool-cases (text_eq j id)) [
  | inl same ↦ rw same f
  | inr other ↦ rw other (f.0, add_delta-Fresh id k x ds h f.1)
]

add_delta-Distinct : (id : Text) (x : ℤ) (ds : Deltas) → Distinct ds → Distinct (add_delta id x ds)
unfolding add_delta
add_delta-Distinct id x [] h = (tt, tt)
add_delta-Distinct id x ((j, d) ∷ ds) h = elim (Bool-cases (text_eq j id)) [
  | inl same ↦ rw same h
  | inr other ↦
      rw other
        (add_delta-Fresh id j x ds (text_eq-sym id j ∙ other) h.0, add_delta-Distinct id x ds h.1)
]

sum-add_delta :
    (id : Text) (x : ℤ) (ds : Deltas) → sum_deltas (add_delta id x ds) ≡ sum_deltas ds +ℤ x
unfolding add_delta
sum-add_delta id x [] = omega int_laws
sum-add_delta id x ((j, d) ∷ ds) = elim (Bool-cases (text_eq j id)) [
  | inl same ↦ rw same (omega int_laws)
  | inr other ↦
      let ih = sum-add_delta id x ds in rw other (omega (int_laws, ap pos_part ih, ap neg_part ih))
]

-- What the loop over the legs keeps.
abbrev pub IsBalanced : Tally → Type 0
IsBalanced t = Distinct t.deltas × (sum_deltas t.deltas ≡ t.debit_cents -ℤ t.credit_cents)

tally_leg-IsBalanced :
    (d : Direction) (id : Text) (x : ℤ) (t : Tally) → IsBalanced t → IsBalanced (tally_leg d id x t)
tally_leg-IsBalanced debit id x t h =
    let s = sum-add_delta id x t.deltas in
    (
      add_delta-Distinct id x t.deltas h.0,
      omega (int_laws, ap pos_part s, ap neg_part s, ap pos_part h.1, ap neg_part h.1),
    )
tally_leg-IsBalanced credit id x t h =
    let s = sum-add_delta id (neg x) t.deltas in
    (
      add_delta-Distinct id (neg x) t.deltas h.0,
      omega (int_laws, ap pos_part s, ap neg_part s, ap pos_part h.1, ap neg_part h.1),
    )

pub tally_legs-IsBalanced :
    (legs : List Leg) (t : Tally) {u : Tally}
    → IsBalanced t
    → tally_legs legs t ≡ ok u
    → IsBalanced u
unfolding tally_legs
tally_legs-IsBalanced [] t {u} h e = subst IsBalanced (ok-injective e) h
tally_legs-IsBalanced (leg ∷ rest) t {u} h e =
    let (x, _, e') = >>=-eq-ok (money leg.amount_cents) _ e in
    tally_legs-IsBalanced rest (tally_leg leg.direction leg.account_id x t)
      (tally_leg-IsBalanced leg.direction leg.account_id x t h) e'
