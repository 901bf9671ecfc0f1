-- ===== src/Exec/FileJournal/Codec.antt =====
-- exec/src/file_journal.cpp: Encoder and Decoder. What an encoder appends is put in front of what
-- is appended later; a decoder takes a value off the bytes that are left, or fails.
pub mod RoundTrip
use openvehicleframework.Base.{
  ℕ, zero, suc, ◌+◌, ◌*◌, ◌/◌, ◌%◌, ◌^◌, Bool, true, false, not, ◌&&◌, ◌||◌, Option, some, none,
  List, [], ◌∷◌, ◌++◌, if◌then◌else◌, ltb, length, get_elem?, ErrorCode, no_error, invalid_argument,
  invalid_identifier, invalid_transition, already_exists, not_found, permission_denied, busy,
  superseded, cancelled, deadline_exceeded, resource_exhausted, configuration_error,
  communication_error, backend_unavailable, backend_error, persistence_error, incompatible_abi,
  unsupported, internal_error,
}
use openvehicleframework.Exec.Types.{TransitionPhase, FailureAction}

-- `Encoder::Integer` for so many bytes.
unfoldable pub put_integer : ℕ → ℕ → List ℕ → List ℕ
put_integer zero v rest = rest
put_integer (suc n) v rest = (v % 256) ∷ put_integer n (v / 256) rest

-- What a `Decoder` answers: a value and the bytes that are left.
abbrev pub Taken {ℓ} : Type ℓ → Type ℓ
Taken A = Option (A × List ℕ)

-- A decoder that goes on with the value, if there is one.
unfoldable pub goes_on {ℓ κ} :
    {A : Type ℓ} {B : Type κ} → Taken A → (A → List ℕ → Option B) → Option B
goes_on none k = none
goes_on (some (a, rest)) k = k a rest

-- `Decoder::Integer` for so many bytes.
unfoldable pub take_integer : ℕ → List ℕ → Taken ℕ
take_integer zero bytes = some (0, bytes)
take_integer (suc n) [] = none
take_integer (suc n) (b ∷ bytes) = goes_on (take_integer n bytes) λ v rest. some (b + 256 * v, rest)

-- `Encoder::String`, of a text of fewer than 2^32 bytes.
unfoldable pub put_string : List ℕ → List ℕ → List ℕ
put_string text rest = put_integer 4 (length text) (text ++ rest)

-- The first bytes, if there are so many.
unfoldable pub take_bytes : ℕ → List ℕ → Taken (List ℕ)
take_bytes zero bytes = some ([], bytes)
take_bytes (suc n) [] = none
take_bytes (suc n) (b ∷ bytes) = goes_on (take_bytes n bytes) λ text rest. some (b ∷ text, rest)

-- `Decoder::String`.
unfoldable pub take_string : List ℕ → Taken (List ℕ)
take_string bytes = goes_on (take_integer 4 bytes) λ n rest. take_bytes n rest

-- `EncodeIds`, of fewer than 2^32 identifiers.
unfoldable pub put_each : List ℕ → List ℕ → List ℕ
put_each [] rest = rest
put_each (id ∷ ids) rest = put_integer 8 id (put_each ids rest)

unfoldable pub put_ids : List ℕ → List ℕ → List ℕ
put_ids ids rest = put_integer 4 (length ids) (put_each ids rest)

-- The loop of `DecodeIds`.
unfoldable pub take_each : ℕ → List ℕ → Taken (List ℕ)
take_each zero bytes = some ([], bytes)
take_each (suc n) bytes =
    goes_on (take_integer 8 bytes)
      λ id rest. goes_on (take_each n rest) λ ids rest'. some (id ∷ ids, rest')

-- `DecodeIds`.
unfoldable pub take_ids : List ℕ → Taken (List ℕ)
take_ids bytes =
    goes_on (take_integer 4 bytes)
      λ n rest. if ltb (length rest / 8) n then none else take_each n rest

-- `static_cast<std::uint8_t>` of a truth value, and back where it is no more than one.
abbrev pub bit : Bool → ℕ
bit false = 0
bit true = 1

abbrev pub bit_at : ℕ → Option Bool
bit_at n = get_elem? (false ∷ true ∷ []) n

abbrev pub phase_at : ℕ → Option TransitionPhase
phase_at n =
    get_elem?
      (TransitionPhase.received ∷ TransitionPhase.validated ∷ TransitionPhase.planned
        ∷ TransitionPhase.stopping ∷ TransitionPhase.starting ∷ TransitionPhase.awaiting_readiness
        ∷ TransitionPhase.committing ∷ TransitionPhase.succeeded ∷ TransitionPhase.rejected
        ∷ TransitionPhase.failed ∷ TransitionPhase.cancelled ∷ TransitionPhase.superseded
        ∷ TransitionPhase.deadline_exceeded ∷ TransitionPhase.recovery_failed
        ∷ TransitionPhase.recovering ∷ [])
      n

abbrev pub code_at : ℕ → Option ErrorCode
code_at n =
    get_elem?
      (no_error ∷ invalid_argument ∷ invalid_identifier ∷ invalid_transition ∷ already_exists
        ∷ not_found ∷ permission_denied ∷ busy ∷ superseded ∷ cancelled ∷ deadline_exceeded
        ∷ resource_exhausted ∷ configuration_error ∷ communication_error ∷ backend_unavailable
        ∷ backend_error ∷ persistence_error ∷ incompatible_abi ∷ unsupported ∷ internal_error ∷ [])
      n

abbrev pub action_number : FailureAction → ℕ
action_number FailureAction.hold_observed_configuration = 0
action_number FailureAction.enter_fallback_mode = 1
action_number FailureAction.rollback_if_declared_safe = 2
action_number FailureAction.stop_domain = 3
action_number FailureAction.request_system_recovery = 4

abbrev pub action_at : ℕ → Option FailureAction
action_at n =
    get_elem?
      (FailureAction.hold_observed_configuration ∷ FailureAction.enter_fallback_mode
        ∷ FailureAction.rollback_if_declared_safe ∷ FailureAction.stop_domain
        ∷ FailureAction.request_system_recovery ∷ [])
      n

-- An integer that is one of an enumeration.
unfoldable pub take_one {ℓ} : {A : Type ℓ} → ℕ → (ℕ → Option A) → List ℕ → Taken A
take_one n at bytes =
    goes_on (take_integer n bytes) λ v rest. elim (at v) [ none ↦ none | some a ↦ some (a, rest) ]
