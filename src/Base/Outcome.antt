-- ===== src/Base/Outcome.antt =====
-- core/include/ovf/core/result.hpp as exec/include/ovf/exec/error.hpp uses it: a value or an error.
-- An error keeps its code and its support data; the diagnostic text, which no code reads, is left
-- out.
use Prim.Native.Nat.{ℕ}
use mathlib.Core.Path.{◌≡◌, refl}
use mathlib.Core.Option.{Option, none, some}
use mathlib.Core.Bool.{Bool, true, false}

pub data ErrorCode : Type 0 where
  no_error invalid_argument invalid_identifier invalid_transition already_exists not_found :
      ErrorCode
  permission_denied busy superseded cancelled deadline_exceeded resource_exhausted : ErrorCode
  configuration_error communication_error backend_unavailable backend_error : ErrorCode
  persistence_error incompatible_abi unsupported internal_error : ErrorCode

pub record Error : Type 0 where
  pub code : ErrorCode
  pub support_data : ℕ

pub data Result {ℓ} (A : Type ℓ) : Type ℓ where
  -- `value()`.
  ok : A → Result A
  -- `error()`.
  err : Error → Result A

-- `MakeError`.
abbrev pub make_error : ErrorCode → ℕ → Error
make_error c d = record { code = c; support_data = d }

-- An error return.
abbrev pub fail {ℓ} : {A : Type ℓ} → ErrorCode → Result A
fail c = err (make_error c 0)

-- The rest of a method runs on the value; an error is returned at once.
infixl 5 ◌>>=◌
abbrev pub ◌>>=◌ {κ ℓ} :
    {From : Type κ} {To : Type ℓ} → Result From → (From → Result To) → Result To
err error >>= rest = err error
ok value >>= rest = rest value

-- The same for a `Result<void>`.
infixl 5 ◌>>◌
abbrev pub ◌>>◌ {κ} : {To : Type κ} → Result (Unit {0}) → Result To → Result To
done >> rest = done >>= λ nothing. rest

-- An early return of an error where the test holds.
abbrev pub reject_if : Bool → ErrorCode → Result (Unit {0})
reject_if true c = fail c
reject_if false c = ok tt

-- An early return of an error with support data where the test holds.
abbrev pub refuse_if : Bool → ErrorCode → ℕ → Result (Unit {0})
refuse_if true c d = err (make_error c d)
refuse_if false c d = ok tt

-- What a method did that succeeded: its first part gave a value, and the rest went on from there.
pub >>=-eq-ok {κ ℓ} :
    {From : Type κ} {To : Type ℓ} (first : Result From) (rest : From → Result To) {last : To}
    → (first >>= rest) ≡ ok last
    → (value : From) × (first ≡ ok value) × (rest value ≡ ok last)
>>=-eq-ok (err error) rest went = cc
>>=-eq-ok (ok value) rest went = (value, refl, went)

-- Inversion of an early return that was not taken.
pub reject_if-eq-ok {ℓ} :
    {A : Type ℓ} (b : Bool) (c : ErrorCode) (k : Result A) {a : A}
    → (reject_if b c >> k) ≡ ok a
    → (b ≡ false) × (k ≡ ok a)
reject_if-eq-ok true c k h = cc
reject_if-eq-ok false c k h = (refl, h)

pub refuse_if-eq-ok {ℓ} :
    {A : Type ℓ} (b : Bool) (c : ErrorCode) (d : ℕ) (k : Result A) {a : A}
    → (refuse_if b c d >> k) ≡ ok a
    → (b ≡ false) × (k ≡ ok a)
refuse_if-eq-ok true c d k h = cc
refuse_if-eq-ok false c d k h = (refl, h)

-- The value, or an early return of the error.
abbrev pub or_fail {ℓ} : {A : Type ℓ} → Option A → ErrorCode → Result A
or_fail none c = fail c
or_fail (some a) c = ok a

pub or_fail-eq-ok {ℓ κ} :
    {A : Type ℓ} {B : Type κ} (o : Option A) (c : ErrorCode) (f : A → Result B) {b : B}
    → (or_fail o c >>= f) ≡ ok b
    → (a : A) × (o ≡ some a) × (f a ≡ ok b)
or_fail-eq-ok none c f h = cc
or_fail-eq-ok (some a) c f h = (a, refl, h)
