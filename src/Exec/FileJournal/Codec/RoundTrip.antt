-- ===== src/Exec/FileJournal/Codec/RoundTrip.antt =====
-- exec/src/file_journal.cpp: what the Decoder makes of the output of the Encoder.
use openvehicleframework.Base.{
  ℕ, zero, suc, ◌+◌, ◌*◌, ◌/◌, ◌%◌, ◌^◌, ◌<◌, Bool, true, false, Option, some, none, List, [], ◌∷◌,
  ◌++◌, if◌then◌else◌, ltb, ◌==◌, length, all_of, arith, ◌≡◌, refl, ap, ◌∙◌, ErrorCode,
}
use openvehicleframework.Exec.Types.{TransitionPhase, FailureAction}
use openvehicleframework.Exec.Engine.{code_number, phase_number}
use openvehicleframework.Exec.FileJournal.Codec.{
  put_integer, Taken, goes_on, take_integer, put_string, take_bytes, take_string, put_each, put_ids,
  take_each, take_ids, bit, bit_at, phase_at, code_at, action_number, action_at, take_one,
}

-- The value has so many bytes.
abbrev pub fits : ℕ → ℕ → Bool
fits zero v = v == 0
fits (suc n) v = fits n (v / 256)

pub goes_on-eq {ℓ κ} :
    {A : Type ℓ} {B : Type κ} (k : A → List ℕ → Option B) (a : A) (rest : List ℕ) {t : Taken A}
    → t ≡ some (a, rest)
    → goes_on t k ≡ k a rest
unfolding goes_on
goes_on-eq k a rest e = ap (λ x. goes_on x k) e

-- One step of a decoder, and the rest of it.
pub step {ℓ κ} :
    {A : Type ℓ} {B : Type κ} (k : A → List ℕ → Option B) {a : A} {rest : List ℕ} {t : Taken A}
    {r : Option B}
    → t ≡ some (a, rest)
    → k a rest ≡ r
    → goes_on t k ≡ r
step k {a} {rest} e f = goes_on-eq k a rest e ∙ f

pub take_integer-put_integer :
    (n v : ℕ) (rest : List ℕ)
    → fits n v ≡ true
    → take_integer n (put_integer n v rest) ≡ some (v, rest)
unfolding take_integer put_integer
take_integer-put_integer zero v rest f = ground arith
take_integer-put_integer (suc n) v rest f =
    let e : (v % 256) + 256 * (v / 256) ≡ v = omega arith in
    goes_on-eq (λ x r. some ((v % 256) + 256 * x, r)) (v / 256) rest
      (take_integer-put_integer n (v / 256) rest f)
    ∙ ap (λ x. some (x, rest)) e

pub take_bytes-append :
    (text rest : List ℕ) → take_bytes (length text) (text ++ rest) ≡ some (text, rest)
unfolding take_bytes
take_bytes-append [] rest = refl
take_bytes-append (b ∷ text) rest =
    goes_on-eq (λ x r. some (b ∷ x, r)) text rest (take_bytes-append text rest)

pub fits_4 : (n : ℕ) → n < 2 ^ 32 → fits 4 n ≡ true
fits_4 n l = ground arith

pub take_string-put_string :
    (text rest : List ℕ)
    → length text < 2 ^ 32
    → take_string (put_string text rest) ≡ some (text, rest)
unfolding take_string put_string
take_string-put_string text rest l =
    goes_on-eq take_bytes (length text) (text ++ rest)
      (take_integer-put_integer 4 (length text) (text ++ rest) (fits_4 (length text) l))
    ∙ take_bytes-append text rest

take_each-put_each :
    (ids rest : List ℕ)
    → all_of (fits 8) ids ≡ true
    → take_each (length ids) (put_each ids rest) ≡ some (ids, rest)
unfolding take_each put_each
take_each-put_each [] rest f = refl
take_each-put_each (id ∷ ids) rest f =
    let ih = take_each-put_each ids rest (ground arith) in
    goes_on-eq (λ i r. goes_on (take_each (length ids) r) (λ is r'. some (i ∷ is, r'))) id
      (put_each ids rest) (take_integer-put_integer 8 id (put_each ids rest) (ground arith))
    ∙ goes_on-eq (λ is r. some (id ∷ is, r)) ids rest ih

length-put_integer : (n v : ℕ) (rest : List ℕ) → length (put_integer n v rest) ≡ n + length rest
unfolding put_integer
length-put_integer zero v rest = omega arith
length-put_integer (suc n) v rest = omega (arith, length-put_integer n (v / 256) rest)

length-put_each : (ids rest : List ℕ) → length (put_each ids rest) ≡ 8 * length ids + length rest
unfolding put_each
length-put_each [] rest = omega arith
length-put_each (id ∷ ids) rest =
    omega (arith, length-put_each ids rest, length-put_integer 8 id (put_each ids rest))

pub take_ids-put_ids :
    (ids rest : List ℕ)
    → all_of (fits 8) ids ≡ true
    → length ids < 2 ^ 32
    → take_ids (put_ids ids rest) ≡ some (ids, rest)
unfolding take_ids put_ids
take_ids-put_ids ids rest f l =
    let c : ltb (length (put_each ids rest) / 8) (length ids) ≡ false =
      ground (arith, length-put_each ids rest) in
    goes_on-eq (λ n r. if ltb (length r / 8) n then none else take_each n r) (length ids)
      (put_each ids rest)
      (take_integer-put_integer 4 (length ids) (put_each ids rest) (fits_4 (length ids) l))
    ∙ rw c (take_each-put_each ids rest f)

pub take_one-put_integer {ℓ} :
    {A : Type ℓ} (n : ℕ) (at : ℕ → Option A) (v : ℕ) (a : A) (rest : List ℕ)
    → fits n v ≡ true
    → at v ≡ some a
    → take_one n at (put_integer n v rest) ≡ some (a, rest)
unfolding take_one
take_one-put_integer n at v a rest f e =
    goes_on-eq _ v rest (take_integer-put_integer n v rest f) ∙ rw e refl

pub bit_at-bit : (b : Bool) → (fits 1 (bit b) ≡ true) × (bit_at (bit b) ≡ some b)
bit_at-bit true = (refl, refl)
bit_at-bit false = (refl, refl)

pub action_at-action_number :
    (a : FailureAction) → (fits 1 (action_number a) ≡ true) × (action_at (action_number a) ≡ some a)
action_at-action_number FailureAction.hold_observed_configuration = (refl, refl)
action_at-action_number FailureAction.enter_fallback_mode = (refl, refl)
action_at-action_number FailureAction.rollback_if_declared_safe = (refl, refl)
action_at-action_number FailureAction.stop_domain = (refl, refl)
action_at-action_number FailureAction.request_system_recovery = (refl, refl)

pub phase_at-phase_number :
    (p : TransitionPhase) → (fits 1 (phase_number p) ≡ true) × (phase_at (phase_number p) ≡ some p)
phase_at-phase_number TransitionPhase.received = (refl, refl)
phase_at-phase_number TransitionPhase.validated = (refl, refl)
phase_at-phase_number TransitionPhase.planned = (refl, refl)
phase_at-phase_number TransitionPhase.stopping = (refl, refl)
phase_at-phase_number TransitionPhase.starting = (refl, refl)
phase_at-phase_number TransitionPhase.awaiting_readiness = (refl, refl)
phase_at-phase_number TransitionPhase.committing = (refl, refl)
phase_at-phase_number TransitionPhase.succeeded = (refl, refl)
phase_at-phase_number TransitionPhase.rejected = (refl, refl)
phase_at-phase_number TransitionPhase.failed = (refl, refl)
phase_at-phase_number TransitionPhase.cancelled = (refl, refl)
phase_at-phase_number TransitionPhase.superseded = (refl, refl)
phase_at-phase_number TransitionPhase.deadline_exceeded = (refl, refl)
phase_at-phase_number TransitionPhase.recovery_failed = (refl, refl)
phase_at-phase_number TransitionPhase.recovering = (refl, refl)

pub code_at-code_number :
    (c : ErrorCode) → (fits 2 (code_number c) ≡ true) × (code_at (code_number c) ≡ some c)
code_at-code_number ErrorCode.no_error = (refl, refl)
code_at-code_number ErrorCode.invalid_argument = (refl, refl)
code_at-code_number ErrorCode.invalid_identifier = (refl, refl)
code_at-code_number ErrorCode.invalid_transition = (refl, refl)
code_at-code_number ErrorCode.already_exists = (refl, refl)
code_at-code_number ErrorCode.not_found = (refl, refl)
code_at-code_number ErrorCode.permission_denied = (refl, refl)
code_at-code_number ErrorCode.busy = (refl, refl)
code_at-code_number ErrorCode.superseded = (refl, refl)
code_at-code_number ErrorCode.cancelled = (refl, refl)
code_at-code_number ErrorCode.deadline_exceeded = (refl, refl)
code_at-code_number ErrorCode.resource_exhausted = (refl, refl)
code_at-code_number ErrorCode.configuration_error = (refl, refl)
code_at-code_number ErrorCode.communication_error = (refl, refl)
code_at-code_number ErrorCode.backend_unavailable = (refl, refl)
code_at-code_number ErrorCode.backend_error = (refl, refl)
code_at-code_number ErrorCode.persistence_error = (refl, refl)
code_at-code_number ErrorCode.incompatible_abi = (refl, refl)
code_at-code_number ErrorCode.unsupported = (refl, refl)
code_at-code_number ErrorCode.internal_error = (refl, refl)
