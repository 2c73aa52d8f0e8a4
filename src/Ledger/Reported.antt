-- ===== src/Ledger/Reported.antt =====
-- The balance of every account with a leg is reported.
use worldsimulator.Prelude.{
  ◌≡◌, ◌||◌, All-map_imp, arith, refl, ◌∙◌, Bool, true, false, List, [], ◌∷◌, All, inl, inr, subst,
  Bool-cases,
}
use worldsimulator.Prelude.Int.{ℤ, neg}
use worldsimulator.Prelude.Decimal.{Text}
use worldsimulator.Prelude.Texts.{text_eq, text_eq→≡, text_eq_refl}
use worldsimulator.Prelude.Results.{ok, >>=-eq-ok, ok-injective}
use worldsimulator.Money.{money}
use worldsimulator.Ledger.Types.{Direction, debit, credit, Leg, Account}
use worldsimulator.Ledger.Posting.{
  add_delta, Tally, no_legs, tally_leg, tally_legs, resulting_balances,
}
use worldsimulator.Ledger.Deltas.{Deltas}
use worldsimulator.Ledger.Saving.{resulting_first}

-- Whether an account has an entry.
abbrev pub has_key : Text → List (Text × ℤ) → Bool
has_key id [] = false
has_key id ((k, _) ∷ rest) = text_eq id k || has_key id rest

or_again : (a b : Bool) → a || b ≡ a || (a || b)
or_again false b = refl
or_again true b = refl

or_swap : (a b c : Bool) → a || (b || c) ≡ b || (a || c)
or_swap false b c = refl
or_swap true false c = refl
or_swap true true c = refl

has_key-add_delta :
    (id k : Text) (x : ℤ) (ds : Deltas)
    → has_key id (add_delta k x ds) ≡ text_eq id k || has_key id ds
unfolding add_delta
has_key-add_delta id k x [] = refl
has_key-add_delta id k x ((j, d) ∷ ds) = elim (Bool-cases (text_eq j k)) [
  | inl merged ↦ rw merged (
      subst (λ l. text_eq id j || has_key id ds ≡ text_eq id l || (text_eq id j || has_key id ds))
        (text_eq→≡ j k merged) (or_again (text_eq id j) (has_key id ds)))
  | inr apart ↦
      rw (apart, has_key-add_delta id k x ds)
        (or_swap (text_eq id j) (text_eq id k) (has_key id ds))
]

has_key-tally_leg :
    (id : Text) (d : Direction) (k : Text) (x : ℤ) (t : Tally)
    → has_key id (tally_leg d k x t).deltas ≡ text_eq id k || has_key id t.deltas
has_key-tally_leg id debit k x t = has_key-add_delta id k x t.deltas
has_key-tally_leg id credit k x t = has_key-add_delta id k (neg x) t.deltas

-- A key stays through the loop over the legs.
key_stays :
    (id : Text) (legs : List Leg) (t : Tally) {u : Tally}
    → tally_legs legs t ≡ ok u
    → has_key id t.deltas ≡ true
    → has_key id u.deltas ≡ true
unfolding tally_legs
key_stays id [] t e h = subst (λ v. has_key id v.deltas ≡ true) (ok-injective e) h
key_stays id (leg ∷ rest) t {u} e h =
    let (x, read, e') = >>=-eq-ok (money leg.amount_cents) _ e in
    key_stays id rest (tally_leg leg.direction leg.account_id x t) {u = u} e'
      (has_key-tally_leg id leg.direction leg.account_id x t ∙ ground arith)

tally_legs-has_key :
    (legs : List Leg) (t : Tally) {u : Tally}
    → tally_legs legs t ≡ ok u
    → All (λ leg. has_key leg.account_id u.deltas ≡ true) legs
unfolding tally_legs
tally_legs-has_key [] t e = tt
tally_legs-has_key (leg ∷ rest) t {u} e =
    let (x, read, e') = >>=-eq-ok (money leg.amount_cents) _ e in
    let t' = tally_leg leg.direction leg.account_id x t in
    (
      key_stays leg.account_id rest t' {u = u} e' (
          has_key-tally_leg leg.account_id leg.direction leg.account_id x t
          ∙ rw (text_eq_refl leg.account_id) refl),
      tally_legs-has_key rest t' {u = u} e',
    )

resulting-has_key :
    (id : Text) (loaded : List Account) (ds : Deltas) {bs : List (Text × ℤ)}
    → resulting_balances loaded ds ≡ ok bs
    → has_key id ds ≡ true
    → has_key id bs ≡ true
resulting-has_key id loaded [] e h = absurd (ground arith)
resulting-has_key id loaded ((k, d) ∷ ds) e h =
    let (a, _, _, rest, e', shape) = resulting_first loaded k d ds e in
    rw shape (elim (Bool-cases (text_eq id k)) [
      | inl here ↦ rw here refl
      | inr there ↦ rw there (resulting-has_key id loaded ds e' (rw there at h))
    ])

abbrev pub IsReported : List (Text × ℤ) → Leg → Type 0
IsReported reported leg = has_key leg.account_id reported ≡ true

pub resulting-IsReported :
    (loaded : List Account) (legs : List Leg) {u : Tally} {bs : List (Text × ℤ)}
    → tally_legs legs no_legs ≡ ok u
    → resulting_balances loaded u.deltas ≡ ok bs
    → All (IsReported bs) legs
resulting-IsReported loaded legs {u} {bs} t e =
    All-map_imp (λ leg. has_key leg.account_id u.deltas ≡ true) (IsReported bs) legs
      (λ leg h. resulting-has_key leg.account_id loaded u.deltas {bs = bs} e h)
      (tally_legs-has_key legs no_legs {u = u} t)
