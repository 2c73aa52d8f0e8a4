-- ===== src/Prelude/Results.antt =====
-- What an operation returns or throws. An exception is told apart by the `code` of its
-- `EngineError` (packages/shared/src/envelope.ts), or by its class; messages and details are text
-- for people and are left out.
use worldsimulator.Prelude.Tests.{if◌then◌else◌, ltb, leb, ◌==◌}
use worldsimulator.Prelude.Int.{ℤ, pos, negsuc}
use Prim.Native.Nat.{ℕ, ◌≤◌, ◌+◌, ◌-◌, ◌%◌, ◌^◌}
use mathlib.Core.Logic.{◌⊎◌, inl, inr}
use mathlib.Core.Path.{◌≡◌, refl}
use native.Mathlib.Omega.{arith}
use mathlib.Core.Bool.{Bool, true, false, ◌||◌}

pub data Error : Type 0 where
  validation_failed permission_denied not_found conflict insufficient_funds limit_exceeded : Error
  schema_invalid internal : Error
  money_error range_error zod_error sql_error plain_error codec_error : Error

-- How a call ends: thrown, or returned.
pub data Result {ℓ} (T : Type ℓ) : Type ℓ where
  err : Error → Result T
  ok : T → Result T

pub Result-cases {ℓ} :
    {A : Type ℓ} (r : Result A) → ((a : A) × (r ≡ ok a)) ⊎ ((e : Error) × (r ≡ err e))
Result-cases (ok a) = inl (a, refl)
Result-cases (err e) = inr (e, refl)

infixl 5 ◌>>=◌
-- The statements after a call: they see what it returned, and are skipped when it threw.
abbrev pub ◌>>=◌ {ℓ κ} : {T : Type ℓ} {U : Type κ} → Result T → (T → Result U) → Result U
err thrown >>= next = err thrown
ok value >>= next = next value

-- `if (test) throw error`
abbrev pub throw_if : Bool → Error → Result (Unit {0})
throw_if true e = err e
throw_if false e = ok tt

abbrev pub is_ok {ℓ} : {A : Type ℓ} → Result A → Bool
is_ok (ok _) = true
is_ok (err _) = false

infixl 5 ◌>>◌
-- The statements after one that returns nothing.
abbrev pub ◌>>◌ {ℓ} : {T : Type ℓ} → Result (Unit {0}) → Result T → Result T
first >> rest = first >>= λ _. rest

-- If a call and the statements after it return, the call has returned a value, and they do from it.
pub >>=-eq-ok {ℓ κ} :
    {T : Type ℓ} {U : Type κ} (call : Result T) (next : T → Result U) {u : U}
    → call >>= next ≡ ok u
    → (value : T) × (call ≡ ok value) × (next value ≡ ok u)
>>=-eq-ok (err thrown) next returned = cc
>>=-eq-ok (ok value) next returned = (value, refl, returned)

pub throw_if-eq-ok {ℓ} :
    {B : Type ℓ} (t : Bool) (e : Error) (k : Result B) {b : B}
    → (throw_if t e >> k) ≡ ok b
    → (t ≡ false) × (k ≡ ok b)
throw_if-eq-ok true e k h = cc
throw_if-eq-ok false e k h = (refl, h)

-- `Number.MAX_SAFE_INTEGER`
abbrev pub max_safe : ℕ
max_safe = 9007199254740991

-- `assertSafeInteger(value, field, minimum)` of the rule modules. It returns the number, which is
-- a natural one, since every caller's minimum is.
unfoldable pub assert_safe_integer : ℤ → ℕ → Result ℕ
assert_safe_integer (pos n) minimum =
    if ltb max_safe n || ltb n minimum then err validation_failed else ok n
assert_safe_integer (negsuc n) minimum = err validation_failed

-- `safeNumber(value, field)`, at a natural number
unfoldable pub safe_number : ℕ → Result ℕ
safe_number n = if ltb max_safe n then err validation_failed else ok n

pub ok-injective {ℓ} : {A : Type ℓ} {a b : A} → ok a ≡ ok b → a ≡ b
ok-injective e = cc

-- A number that the source holds to `minimum..maximum`, both safe, as the natural number it is.
unfoldable pub bounded : ℤ → (minimum maximum : ℕ) → Result ℕ
bounded (pos n) minimum maximum =
    if ltb n minimum || ltb maximum n then err validation_failed else ok n
bounded (negsuc n) minimum maximum = err validation_failed

pub bounded-pos :
    (n minimum maximum : ℕ) → minimum ≤ n → n ≤ maximum → bounded (pos n) minimum maximum ≡ ok n
unfolding bounded
bounded-pos n minimum maximum h k = ground arith

pub bounded-eq-ok :
    (z : ℤ) (minimum maximum : ℕ) {n : ℕ}
    → bounded z minimum maximum ≡ ok n
    → (z ≡ pos n) × (minimum ≤ n) × (n ≤ maximum)
unfolding bounded
bounded-eq-ok (pos m) minimum maximum e = ground arith
bounded-eq-ok (negsuc m) minimum maximum e = cc

pub assert_safe_integer-pos :
    (n minimum : ℕ) → minimum ≤ n → n ≤ max_safe → assert_safe_integer (pos n) minimum ≡ ok n
unfolding assert_safe_integer
assert_safe_integer-pos n minimum h k = ground arith

pub assert_safe_integer-eq-ok :
    (z : ℤ) (minimum : ℕ) {n : ℕ}
    → assert_safe_integer z minimum ≡ ok n
    → (z ≡ pos n) × (minimum ≤ n) × (n ≤ max_safe)
unfolding assert_safe_integer
assert_safe_integer-eq-ok (pos m) minimum e = ground arith
assert_safe_integer-eq-ok (negsuc m) minimum e = cc

-- The sum of two safe integers as a number: above 2^53 only even numbers are representable, and a
-- tie goes to the multiple of four.
unfoldable pub add_numbers : ℕ → ℕ → ℕ
add_numbers a b =
    let s = a + b in
    if leb s (2 ^ 53) then s else if s % 4 == 1 then s - 1 else if s % 4 == 3 then s + 1 else s

pub add_numbers-exact : (m n : ℕ) → m + n ≤ max_safe → add_numbers m n ≡ m + n
unfolding add_numbers
add_numbers-exact m n h = ground arith
