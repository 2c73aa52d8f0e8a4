-- ===== src/Ledger/Saving.antt =====
-- Saving a posting: the balances that were computed from the deltas, written one row at a time.
use worldsimulator.Prelude.{
  ◌≡◌, sym, ◌∙◌, false, List, [], ◌∷◌, some, arith, All, inl, inr, ap, subst, Option-cases,
}
use worldsimulator.Prelude.Int.{ℤ, pos, pos_part, neg_part, ◌+ℤ◌, ltb_ℤ, int_laws}
use worldsimulator.Prelude.Decimal.{Text}
use worldsimulator.Prelude.Texts.{text_eq, text_eq-sym}
use worldsimulator.Prelude.Results.{
  ok, err, insufficient_funds, not_found, >>=-eq-ok, throw_if-eq-ok, ok-injective,
}
use worldsimulator.Ledger.Types.{Account}
use worldsimulator.Ledger.Tables.{update_rows, changes, update_balances}
use worldsimulator.Ledger.Channels.{account_of}
use worldsimulator.Ledger.Posting.{resulting_balances}
use worldsimulator.Ledger.Balances.{
  total, matched, balance_column, floor_column, IsAboveFloor, total-update_one, matched-update_ne,
  changes-update, update-IsAboveFloor,
}
use worldsimulator.Ledger.Deltas.{Deltas, Fresh, Distinct, sum_deltas}

-- Inversions of the two loops.
pub resulting_nothing :
    (loaded : List Account) {bs : List (Text × ℤ)} → resulting_balances loaded [] ≡ ok bs → bs ≡ []
unfolding resulting_balances
resulting_nothing loaded e = sym (ok-injective e)

pub resulting_first :
    (loaded : List Account) (id : Text) (d : ℤ) (ds : Deltas) {bs : List (Text × ℤ)}
    → resulting_balances loaded ((id, d) ∷ ds) ≡ ok bs
    → (a : Account) × (account_of id loaded ≡ some a)
      × (ltb_ℤ (a.balance_cents +ℤ d) a.floor_cents ≡ false)
      × (rest : List (Text × ℤ)) × (resulting_balances loaded ds ≡ ok rest)
      × (bs ≡ (id, a.balance_cents +ℤ d) ∷ rest)
unfolding resulting_balances
resulting_first loaded id d ds e = elim (Option-cases (account_of id loaded)) [
  | inl missing ↦ absurd (unfound (rw (missing, resulting_balances) at e))
  | inr (a, found) ↦
      let (covered, more) =
        throw_if-eq-ok (ltb_ℤ (a.balance_cents +ℤ d) a.floor_cents) insufficient_funds _
          (rw (found, resulting_balances) at e) in
      let (rest, e', shape) = >>=-eq-ok (resulting_balances loaded ds) _ more in
      (a, found, covered, rest, e', sym (ok-injective shape))
]
  where
    unfound : {B : Type 0} {b : B} → err not_found ≡ ok b → ⊥
    unfound h = cc

pub update_nothing :
    (run : Text) (A : List Account) {B : List Account} → update_balances run [] A ≡ ok B → A ≡ B
unfolding update_balances
update_nothing run A e = ok-injective e

pub update_first :
    (run id : Text) (b : ℤ) (bs : List (Text × ℤ)) (A : List Account) {B : List Account}
    → update_balances run ((id, b) ∷ bs) A ≡ ok B
    → (changes run id A ≡ 1) × (update_balances run bs (update_rows run id b A) ≡ ok B)
unfolding update_balances
update_first run id b bs A e = ground arith

module _ (run : Text) (loaded : List Account) where
  -- The row of `id` in `A`, if there is one alone, still has what was loaded for it.
  abbrev Unwritten : List Account → Text → Type 0
  Unwritten A id =
      (a : Account)
      → account_of id loaded ≡ some a
      → changes run id A ≡ 1
      → (matched balance_column run id A ≡ a.balance_cents)
        × (matched floor_column run id A ≡ a.floor_cents)

  abbrev pub AllUnwritten : List Account → Deltas → Type 0
  AllUnwritten A = All (λ kd. Unwritten A kd.0)

  update-Unwritten :
      (A : List Account) (id k : Text) (b : ℤ)
      → text_eq k id ≡ false
      → Unwritten A k
      → Unwritten (update_rows run id b A) k
  update-Unwritten A id k b apart u a e one =
      let apart' = text_eq-sym id k ∙ apart in
      let (p, q) = u a e (sym (changes-update run id k b A) ∙ one) in
      (
        matched-update_ne balance_column run id k b A apart' ∙ p,
        matched-update_ne floor_column run id k b A apart' ∙ q,
      )

  pub update-AllUnwritten :
      (A : List Account) (id : Text) (b : ℤ) (ds : Deltas)
      → Fresh id ds
      → AllUnwritten A ds
      → AllUnwritten (update_rows run id b A) ds
  update-AllUnwritten A id b [] f u = tt
  update-AllUnwritten A id b ((k, d) ∷ ds) f u =
      (update-Unwritten A id k b f.0 u.0, update-AllUnwritten A id b ds f.1 u.1)

  -- What one round of `resulting_balances` and one `UPDATE` do to the table.
  update_step :
      (A : List Account) (id : Text) (d : ℤ) (a : Account)
      → account_of id loaded ≡ some a
      → ltb_ℤ (a.balance_cents +ℤ d) a.floor_cents ≡ false
      → changes run id A ≡ 1
      → Unwritten A id
      → (total (update_rows run id (a.balance_cents +ℤ d) A) ≡ total A +ℤ d)
        × (IsAboveFloor A → IsAboveFloor (update_rows run id (a.balance_cents +ℤ d) A))
  update_step A id d a e covered one u =
      let (p, q) = u a e one in
      let written = total-update_one run id (a.balance_cents +ℤ d) A one in
      (
        omega (int_laws, ap pos_part written, ap neg_part written, ap pos_part p, ap neg_part p),
        update-IsAboveFloor run id (a.balance_cents +ℤ d) A (omega arith)
            (λ _. rw q (ground arith)),
      )

  -- Writing every balance moves the total by the sum of the deltas, and crosses no floor.
  pub update_all :
      (A : List Account) (ds : Deltas) {bs : List (Text × ℤ)} {B : List Account}
      → Distinct ds
      → AllUnwritten A ds
      → resulting_balances loaded ds ≡ ok bs
      → update_balances run bs A ≡ ok B
      → (total B ≡ total A +ℤ sum_deltas ds) × (IsAboveFloor A → IsAboveFloor B)
  update_all A [] {bs} {B} dist u e w =
      let same : A ≡ B =
        update_nothing run A
          (subst (λ x. update_balances run x A ≡ ok B) (resulting_nothing loaded e) w) in
      (
        subst (λ x. total x ≡ total A +ℤ pos 0) same (omega int_laws),
        λ above. subst IsAboveFloor same above,
      )
  update_all A ((id, d) ∷ ds) {bs} {B} dist u e w =
      let (a, found, covered, bs', e', shape) = resulting_first loaded id d ds e in
      let (one, w') =
        update_first run id (a.balance_cents +ℤ d) bs' A
          (subst (λ x. update_balances run x A ≡ ok B) shape w) in
      let A' = update_rows run id (a.balance_cents +ℤ d) A in
      let (moved, kept) = update_step A id d a found covered one u.0 in
      let (rest, kept') =
        update_all A' ds {bs = bs'} {B = B} dist.1
          (update-AllUnwritten A id (a.balance_cents +ℤ d) ds dist.0 u.1) e' w' in
      (
        omega (int_laws, ap pos_part moved, ap neg_part moved, ap pos_part rest, ap neg_part rest),
        λ above. kept' (kept above),
      )
