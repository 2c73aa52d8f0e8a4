-- ===== src/Ledger/Balances.antt =====
-- How the `UPDATE`s of a posting change the table of accounts: one row for each balance, and no
-- column but the balance.
use worldsimulator.Prelude.{
  ℕ, suc, ◌+◌, ◌≤◌, ◌≡◌, refl, ap, ◌∙◌, true, false, List, [], ◌∷◌, none, some, arith,
  if◌then◌else◌, All, inl, inr, Bool-cases,
}
use worldsimulator.Prelude.Int.{ℤ, pos, pos_part, neg_part, ◌+ℤ◌, ◌≤ℤ◌, int_laws}
use worldsimulator.Prelude.Decimal.{Text}
use worldsimulator.Prelude.Texts.{text_eq, text_eq→≡}
use worldsimulator.Ledger.Types.{Account}
use worldsimulator.Ledger.Tables.{is_account, get_accounts, update_rows, changes}
use worldsimulator.Ledger.Channels.{account_of}

-- The money in all accounts.
abbrev pub total : List Account → ℤ
total [] = pos 0
total (a ∷ as') = a.balance_cents +ℤ total as'

-- The sum of a column over the rows of one account.
abbrev pub matched : (Account → ℤ) → Text → Text → List Account → ℤ
matched f run id [] = pos 0
matched f run id (a ∷ as') = (if is_account run id a then f a else pos 0) +ℤ matched f run id as'

abbrev pub balance_column : Account → ℤ
balance_column a = a.balance_cents

abbrev pub floor_column : Account → ℤ
floor_column a = a.floor_cents

-- No account is below its floor.
abbrev pub IsAboveFloor : List Account → Type 0
IsAboveFloor = All (λ a. a.floor_cents ≤ℤ a.balance_cents)

pub changes_same :
    (run id : Text) (a : Account) (A : List Account)
    → is_account run id a ≡ true
    → changes run id (a ∷ A) ≡ suc (changes run id A)
unfolding changes
changes_same run id a A h = rw h (omega arith)

pub changes_other :
    (run id : Text) (a : Account) (A : List Account)
    → is_account run id a ≡ false
    → changes run id (a ∷ A) ≡ changes run id A
unfolding changes
changes_other run id a A h = rw h (omega arith)

-- A row as an `UPDATE` leaves it.
abbrev written : Account → ℤ → Account
written a b = record a { balance_cents = b }

is_account-written :
    (run k : Text) (a : Account) (b : ℤ) → is_account run k (written a b) ≡ is_account run k a
unfolding is_account
is_account-written run k a b = refl

update_no_row :
    (run id : Text) (b : ℤ) (A : List Account)
    → changes run id A ≡ 0
    → total (update_rows run id b A) ≡ total A
unfolding update_rows
update_no_row run id b [] h = refl
update_no_row run id b (a ∷ A) h = elim (Bool-cases (is_account run id a)) [
  | inl same ↦ absurd (omega (arith, changes_same run id a A same))
  | inr other ↦ rw other (
      ap (λ z. a.balance_cents +ℤ z)
        (update_no_row run id b A (omega (arith, changes_other run id a A other))))
]

pub matched_no_row :
    (f : Account → ℤ) (run id : Text) (A : List Account)
    → changes run id A ≡ 0
    → matched f run id A ≡ pos 0
matched_no_row f run id [] h = refl
matched_no_row f run id (a ∷ A) h = elim (Bool-cases (is_account run id a)) [
  | inl same ↦ absurd (omega (arith, changes_same run id a A same))
  | inr other ↦
      rw (other, matched_no_row f run id A (omega (arith, changes_other run id a A other)))
        (omega int_laws)
]

pub total-update_one :
    (run id : Text) (b : ℤ) (A : List Account)
    → changes run id A ≡ 1
    → total (update_rows run id b A) +ℤ matched balance_column run id A ≡ total A +ℤ b
unfolding update_rows
total-update_one run id b [] h = absurd (unfold changes in omega arith)
total-update_one run id b (a ∷ A) h = elim (Bool-cases (is_account run id a)) [
  | inl same ↦
      let none_left : changes run id A ≡ 0 = omega (arith, changes_same run id a A same) in
      rw same (
        omega (
          int_laws,
          ap pos_part (update_no_row run id b A none_left),
          ap neg_part (update_no_row run id b A none_left),
          ap pos_part (matched_no_row balance_column run id A none_left),
          ap neg_part (matched_no_row balance_column run id A none_left),
        ))
  | inr other ↦
      let ih = total-update_one run id b A (omega (arith, changes_other run id a A other)) in
      rw other (omega (int_laws, ap pos_part ih, ap neg_part ih))
]

-- Another account's rows keep their columns, and every account keeps its number of rows.
is_account_apart :
    (run id k : Text) (a : Account)
    → text_eq id k ≡ false
    → is_account run id a ≡ true
    → is_account run k a ≡ false
unfolding is_account
is_account_apart run id k a apart h =
    let same : a.id ≡ id = text_eq→≡ a.id id (ground arith) in rw same (rw apart (ground arith))

pub matched-update_ne :
    (f : Account → ℤ) (run id k : Text) (b : ℤ) (A : List Account)
    → text_eq id k ≡ false
    → matched f run k (update_rows run id b A) ≡ matched f run k A
unfolding update_rows
matched-update_ne f run id k b [] apart = refl
matched-update_ne f run id k b (a ∷ A) apart =
    let ih = matched-update_ne f run id k b A apart in
    elim (Bool-cases (is_account run id a)) [
      | inl same ↦
          let other = is_account_apart run id k a apart same in
          rw (same, is_account-written run k a b, other) (ap (λ z. pos 0 +ℤ z) ih)
      | inr other ↦ rw other (ap (λ z. (if is_account run k a then f a else pos 0) +ℤ z) ih)
    ]

pub changes-update :
    (run id k : Text) (b : ℤ) (A : List Account)
    → changes run k (update_rows run id b A) ≡ changes run k A
unfolding update_rows changes
changes-update run id k b [] = refl
changes-update run id k b (a ∷ A) =
    let ih = changes-update run id k b A in
    elim (Bool-cases (is_account run id a)) [
      | inl same ↦
          rw (same, is_account-written run k a b)
            (ap (λ (n : ℕ). (if is_account run k a then 1 else 0) + n) ih)
      | inr other ↦ rw other (ap (λ (n : ℕ). (if is_account run k a then 1 else 0) + n) ih)
    ]

-- The floors stay, and a balance that is written at or above the floor of its one row keeps
-- every account above its floor.
pub update-IsAboveFloor :
    (run id : Text) (b : ℤ) (A : List Account)
    → changes run id A ≤ 1
    → (changes run id A ≡ 1 → matched floor_column run id A ≤ℤ b)
    → IsAboveFloor A
    → IsAboveFloor (update_rows run id b A)
unfolding update_rows
update-IsAboveFloor run id b [] h k s = tt
update-IsAboveFloor run id b (a ∷ A) h k s = elim (Bool-cases (is_account run id a)) [
  | inl same ↦
      let none_left : changes run id A ≡ 0 = omega (arith, changes_same run id a A same) in
      let only : a.floor_cents +ℤ pos 0 ≤ℤ b = rw same at (
        rw (matched_no_row floor_column run id A none_left) at
          (k (omega (arith, changes_same run id a A same)))) in
      rw same (
        omega int_laws,
        update-IsAboveFloor run id b A (omega arith) (λ e. absurd (omega arith)) s.1,
      )
  | inr other ↦ rw other (
    s.0,
    update-IsAboveFloor run id b A (omega (arith, changes_other run id a A other))
        (λ e. later_floor k other e) s.1,
  )
]
  where
    later_floor :
        (changes run id (a ∷ A) ≡ 1 → matched floor_column run id (a ∷ A) ≤ℤ b)
        → is_account run id a ≡ false
        → changes run id A ≡ 1
        → matched floor_column run id A ≤ℤ b
    later_floor k other e =
        let step = rw other at (k (changes_other run id a A other ∙ e)) in omega int_laws

-- The account that `post` reads is the row that the `UPDATE` writes.
no_account_of :
    (run id : Text) (ids : List Text) (A : List Account)
    → changes run id A ≡ 0
    → account_of id (get_accounts run ids A) ≡ none
unfolding account_of get_accounts is_account changes
no_account_of run id ids [] h = refl
no_account_of run id ids (a ∷ A) h = ground (arith, no_account_of run id ids A)

first_found :
    (f : Account → ℤ) (run id : Text) (ids : List Text) (x : Account) (A : List Account)
    {a : Account}
    → account_of id (get_accounts run ids (x ∷ A)) ≡ some a
    → is_account run id x ≡ true
    → account_of id (get_accounts run ids A) ≡ none
    → f x +ℤ pos 0 ≡ f a
unfolding get_accounts account_of is_account
first_found f run id ids x A {a} e same none_left =
    let found : x ≡ a = ground arith in rw found (omega int_laws)

later_found :
    (run id : Text) (ids : List Text) (x : Account) (A : List Account) {a : Account}
    → account_of id (get_accounts run ids (x ∷ A)) ≡ some a
    → is_account run id x ≡ false
    → account_of id (get_accounts run ids A) ≡ some a
unfolding get_accounts account_of is_account
later_found run id ids x A {a} e other = ground arith

pub matched-account_of :
    (f : Account → ℤ) (run id : Text) (ids : List Text) (A : List Account) {a : Account}
    → account_of id (get_accounts run ids A) ≡ some a
    → changes run id A ≡ 1
    → matched f run id A ≡ f a
unfolding get_accounts
matched-account_of f run id ids [] e h = absurd (unfold changes in omega arith)
matched-account_of f run id ids (x ∷ A) {a} e h = elim (Bool-cases (is_account run id x)) [
  | inl same ↦
      let none_left : changes run id A ≡ 0 = omega (arith, changes_same run id x A same) in
      rw (same, matched_no_row f run id A none_left)
        (first_found f run id ids x A e same (no_account_of run id ids A none_left))
  | inr other ↦
      let ih =
        matched-account_of f run id ids A {a = a} (later_found run id ids x A e other)
          (omega (arith, changes_other run id x A other)) in
      rw (other, ih) (omega int_laws)
]
