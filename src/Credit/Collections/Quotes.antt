-- ===== src/Credit/Collections/Quotes.antt =====
-- A collection quote covers every installment that it names, once, in full.
use worldsimulator.Prelude.{
  ℕ, ◌+◌, ◌<◌, ◌≡◌, sym, ◌∙◌, ap, true, false, List, [], ◌∷◌, map, arith, not, ◌==◌, ◌||◌,
}
use worldsimulator.Prelude.Int.{ℤ, ◌<ℤ◌, leb_ℤ, pos}
use worldsimulator.Prelude.Decimal.{Text, natural_of, natural_of-print}
use worldsimulator.Prelude.Texts.{text_eq, text_eq→≡}
use worldsimulator.Prelude.Results.{
  ok, validation_failed, conflict, >>=-eq-ok, throw_if-eq-ok, ok-injective,
}
use worldsimulator.Credit.Collections.{
  Installment, is_completed, parse_installments, Quote, Sums, has_id, add_installment, no_sums,
  sum_installments, quote_loan_collection,
}

abbrev pub sum_principal : List Installment → ℕ
sum_principal [] = 0
sum_principal (i ∷ is') = natural_of i.principal_due_cents + sum_principal is'

abbrev pub sum_interest : List Installment → ℕ
sum_interest [] = 0
sum_interest (i ∷ is') = natural_of i.interest_due_cents + sum_interest is'

-- Each belongs to the loan and is open, none has an id of `seen`, and the numbers rise above
-- `number`.
abbrev pub IsCollectible : Text → List Text → ℤ → List Installment → Type 0
IsCollectible loan_id seen number [] = Unit
IsCollectible loan_id seen number (i ∷ rest) =
    (i.loan_id ≡ loan_id)
    × (is_completed i.status ≡ false)
    × (has_id i.id seen ≡ false)
    × (number <ℤ i.installment_number)
    × IsCollectible loan_id (i.id ∷ seen) i.installment_number rest

sums_step :
    (loan_id : Text) (i : Installment) (rest : List Installment) (s : Sums) {t : Sums}
    → sum_installments loan_id (i ∷ rest) s ≡ ok t
    → (text_eq i.loan_id loan_id ≡ true)
      × (is_completed i.status ≡ false)
      × (has_id i.id s.seen ≡ false)
      × (leb_ℤ i.installment_number s.previous_number ≡ false)
      × (sum_installments loan_id rest (add_installment i s) ≡ ok t)
unfolding sum_installments
sums_step loan_id i rest s e =
    let (mine, e₁) = throw_if-eq-ok (not (text_eq i.loan_id loan_id)) validation_failed _ e in
    let (open_, e₂) = throw_if-eq-ok (is_completed i.status) conflict _ e₁ in
    let (fresh, e₃) =
      throw_if-eq-ok (has_id i.id s.seen || leb_ℤ i.installment_number s.previous_number)
        validation_failed _ e₂ in
    (ground arith, open_, ground arith, ground arith, e₃)

sums_all :
    (loan_id : Text) (is' : List Installment) (s : Sums) {t : Sums}
    → sum_installments loan_id is' s ≡ ok t
    → IsCollectible loan_id s.seen s.previous_number is'
      × (t.principal ≡ s.principal + sum_principal is')
      × (t.interest ≡ s.interest + sum_interest is')
sums_all loan_id [] s {t} e =
    let same : s ≡ t = unfold sum_installments in ok-injective e in
    (tt, rw (← same) (omega arith), rw (← same) (omega arith))
sums_all loan_id (i ∷ rest) s {t} e =
    let (mine, open_, fresh, above, e') = sums_step loan_id i rest s e in
    let (c, p, q) = sums_all loan_id rest (add_installment i s) {t = t} e' in
    ((text_eq→≡ i.loan_id loan_id mine, open_, fresh, ground arith, c), omega arith, omega arith)

-- A quote that is returned names the installments in order. They belong to the first one's loan,
-- are open, have no id twice and rising numbers; the principal and the interest are the sums of
-- theirs, the total is the sum of both, and it is positive.
pub quote_loan_collection-IsCollectible :
    (first : Installment) (rest : List Installment) {q : Quote}
    → quote_loan_collection (first ∷ rest) ≡ ok q
    → IsCollectible first.loan_id [] (pos 0) (first ∷ rest)
      × (q.installment_ids ≡ map (λ i. i.id) (first ∷ rest))
      × (natural_of q.principal_cents ≡ sum_principal (first ∷ rest))
      × (natural_of q.interest_cents ≡ sum_interest (first ∷ rest))
      × (natural_of q.total_cents ≡ sum_principal (first ∷ rest) + sum_interest (first ∷ rest))
      × (0 < natural_of q.total_cents)
unfolding quote_loan_collection
quote_loan_collection-IsCollectible first rest {q} e =
    let (_, parsed, e₁) = >>=-eq-ok (parse_installments (first ∷ rest)) _ e in
    let (s, summed, e₂) = >>=-eq-ok (sum_installments first.loan_id (first ∷ rest) no_sums) _ e₁ in
    let (positive, e₃) = throw_if-eq-ok (s.principal + s.interest == 0) validation_failed _ e₂ in
    let (c, p, i) = sums_all first.loan_id (first ∷ rest) no_sums summed in
    let done = sym (ok-injective e₃) in
    let total_eq =
      ap (λ x. natural_of x.total_cents) done ∙ natural_of-print (s.principal + s.interest) in
    (
      c,
      ap (λ x. x.installment_ids) done,
      ap (λ x. natural_of x.principal_cents) done ∙ natural_of-print s.principal ∙ omega arith,
      ap (λ x. natural_of x.interest_cents) done ∙ natural_of-print s.interest ∙ omega arith,
      total_eq ∙ omega arith,
      rw total_eq (ground arith),
    )
