-- ===== src/Ledger/Rows.antt =====
-- The rows of the table of accounts after the `UPDATE`s of a posting, each for itself.
use worldsimulator.Prelude.{
  ◌≡◌, refl, sym, ◌∙◌, List, [], ◌∷◌, map, arith, inl, inr, ap, subst, Bool-cases, if◌then◌else◌,
}
use worldsimulator.Prelude.Int.{ℤ, pos, pos_part, neg_part, ◌+ℤ◌, int_laws}
use worldsimulator.Prelude.Decimal.{Text}
use worldsimulator.Prelude.Texts.{text_eq, text_eq-sym}
use worldsimulator.Prelude.Results.{ok}
use worldsimulator.Ledger.Types.{Account}
use worldsimulator.Ledger.Tables.{is_account, update_rows, changes, update_balances}
use worldsimulator.Ledger.Posting.{resulting_balances}
use worldsimulator.Ledger.Balances.{
  matched, balance_column, changes_same, changes_other, matched_no_row,
}
use worldsimulator.Ledger.Deltas.{Deltas, Distinct}
use worldsimulator.Ledger.Saving.{
  resulting_nothing, resulting_first, update_nothing, update_first, AllUnwritten,
  update-AllUnwritten,
}

-- The sum of the deltas of one account.
abbrev pub delta_of : Text → Deltas → ℤ
delta_of id [] = pos 0
delta_of id ((k, d) ∷ ds) = (if text_eq k id then d else pos 0) +ℤ delta_of id ds

module _ (run : Text) where
  -- A row after the delta of one account.
  abbrev moved_one : Text → ℤ → Account → Account
  moved_one id d a = record a {
    balance_cents = (if is_account run id a then a.balance_cents +ℤ d else a.balance_cents);
  }

  -- A row after all deltas.
  unfoldable pub moved : Deltas → Account → Account
  moved [] a = a
  moved ((id, d) ∷ ds) a = moved ds (moved_one id d a)

  map-moved :
      (id : Text) (d : ℤ) (ds : Deltas) (A : List Account)
      → map (moved ds) (map (moved_one id d) A) ≡ map (moved ((id, d) ∷ ds)) A
  unfolding moved
  map-moved id d ds [] = refl
  map-moved id d ds (a ∷ A) = ap (λ B. moved ds (moved_one id d a) ∷ B) (map-moved id d ds A)

  moved_nothing : (A : List Account) → A ≡ map (moved []) A
  unfolding moved
  moved_nothing [] = refl
  moved_nothing (a ∷ A) = ap (λ B. a ∷ B) (moved_nothing A)

  -- Without a row of the account both leave the table.
  update_none :
      (id : Text) (b d : ℤ) (A : List Account)
      → changes run id A ≡ 0
      → update_rows run id b A ≡ map (moved_one id d) A
  unfolding update_rows
  update_none id b d [] h = refl
  update_none id b d (a ∷ A) h = elim (Bool-cases (is_account run id a)) [
    | inl same ↦ absurd (omega (arith, changes_same run id a A same))
    | inr other ↦
        rw other
          (ap (λ B. a ∷ B) (update_none id b d A (omega (arith, changes_other run id a A other))))
  ]

  -- Writing the moved balance of the only row is moving that row.
  update-moved_one :
      (id : Text) (v d : ℤ) (A : List Account)
      → changes run id A ≡ 1
      → matched balance_column run id A ≡ v
      → update_rows run id (v +ℤ d) A ≡ map (moved_one id d) A
  unfolding update_rows
  update-moved_one id v d [] h m = absurd (unfold changes in omega arith)
  update-moved_one id v d (a ∷ A) h m = elim (Bool-cases (is_account run id a)) [
    | inl same ↦
        let none_left : changes run id A ≡ 0 = omega (arith, changes_same run id a A same) in
        let here = rw same at m in
        let rest = matched_no_row balance_column run id A none_left in
        let balance : v ≡ a.balance_cents =
          omega
            (int_laws, ap pos_part here, ap neg_part here, ap pos_part rest, ap neg_part rest) in
        rw same (
          ap (λ z. record a { balance_cents = z +ℤ d } ∷ update_rows run id (v +ℤ d) A) balance
          ∙ ap (λ B. record a { balance_cents = a.balance_cents +ℤ d } ∷ B)
              (update_none id (v +ℤ d) d A none_left))
    | inr other ↦
        let there = rw other at m in
        rw other (
          ap (λ B. a ∷ B)
            (update-moved_one id v d A (omega (arith, changes_other run id a A other))
              (omega (int_laws, ap pos_part there, ap neg_part there))))
  ]

  -- Writing every balance moves every row by the deltas of its account.
  pub update_balances-moved :
      (loaded A : List Account) (ds : Deltas) {bs : List (Text × ℤ)} {B : List Account}
      → Distinct ds
      → AllUnwritten run loaded A ds
      → resulting_balances loaded ds ≡ ok bs
      → update_balances run bs A ≡ ok B
      → B ≡ map (moved ds) A
  update_balances-moved loaded A [] {bs} {B} dist u e w =
      sym (
        update_nothing run A
          (subst (λ x. update_balances run x A ≡ ok B) (resulting_nothing loaded e) w))
      ∙ moved_nothing A
  update_balances-moved loaded A ((id, d) ∷ ds) {bs} {B} dist u e w =
      let (a, found, covered, bs', e', shape) = resulting_first loaded id d ds e in
      let (one, w') =
        update_first run id (a.balance_cents +ℤ d) bs' A
          (subst (λ x. update_balances run x A ≡ ok B) shape w) in
      let A' = update_rows run id (a.balance_cents +ℤ d) A in
      let (p, _) = u.0 a found one in
      update_balances-moved loaded A' ds {bs = bs'} {B = B} dist.1
        (update-AllUnwritten run loaded A id (a.balance_cents +ℤ d) ds dist.0 u.1) e' w'
      ∙ ap (map (moved ds)) (update-moved_one id a.balance_cents d A one p)
      ∙ map-moved id d ds A

  -- No column but the balance changes, and that by the deltas of the account if it is of the run.
  abbrev pub IsMoved : Deltas → Account → Account → Type 0
  IsMoved ds a b =
      (b ≡ record a { balance_cents = b.balance_cents })
      × (b.balance_cents
          ≡ a.balance_cents +ℤ (if text_eq a.run_id run then delta_of a.id ds else pos 0))

  IsMoved-one :
      (id : Text) (d : ℤ) (ds : Deltas) (a : Account) {b : Account}
      → IsMoved ds (moved_one id d a) b
      → IsMoved ((id, d) ∷ ds) a b
  unfolding is_account
  IsMoved-one id d ds a h = elim (Bool-cases (text_eq a.run_id run)) [
    | inl mine ↦ elim (Bool-cases (text_eq a.id id)) [
      | inl same ↦
          let balance = rw (mine, same) at h.1 in
          (
            h.0,
            rw (mine, text_eq-sym id a.id ∙ same)
                (omega (int_laws, ap pos_part balance, ap neg_part balance)),
          )
      | inr other ↦
          let balance = rw (mine, other) at h.1 in
          (
            h.0,
            rw (mine, text_eq-sym id a.id ∙ other)
                (omega (int_laws, ap pos_part balance, ap neg_part balance)),
          )
    ]
    | inr apart ↦ let balance = rw apart at h.1 in (h.0, rw apart balance)
  ]

  pub moved-IsMoved : (ds : Deltas) (a : Account) → IsMoved ds a (moved ds a)
  unfolding moved
  moved-IsMoved [] a = (
    refl,
    elim (Bool-cases (text_eq a.run_id run)) [
      | inl mine ↦ rw mine (omega int_laws)
      | inr apart ↦ rw apart (omega int_laws)
    ],
  )
  moved-IsMoved ((id, d) ∷ ds) a = IsMoved-one id d ds a (moved-IsMoved ds (moved_one id d a))
