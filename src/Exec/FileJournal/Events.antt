-- ===== src/Exec/FileJournal/Events.antt =====
-- exec/src/file_journal.cpp: Encode and Decode.
pub mod RoundTrip
use openvehicleframework.Base.{
  ℕ, Bool, true, false, not, ◌&&◌, ◌||◌, Option, some, none, List, [], ◌∷◌, if◌then◌else◌, ltb, leb,
  ◌==◌, is_empty, is_some, length, Result, ok, err, fail, ErrorCode, resource_exhausted,
  persistence_error,
}
use openvehicleframework.Exec.Types.{TransitionPhase, ApplicationState, FailureAction}
use openvehicleframework.Exec.Planner.{TransitionPlan}
use openvehicleframework.Exec.Engine.{code_number, phase_number}
use openvehicleframework.Exec.FileJournal.{TextError, Evidence, Failure, Event}
use openvehicleframework.Exec.FileJournal.Codec.{
  put_integer, Taken, goes_on, take_integer, put_string, take_string, put_ids, take_ids, bit,
  bit_at, phase_at, code_at, action_number, action_at, take_one,
}

-- A value that may be there, behind a byte that tells whether it is.
unfoldable pub put_option {ℓ} : {A : Type ℓ} → (A → List ℕ → List ℕ) → Option A → List ℕ → List ℕ
put_option put none rest = put_integer 1 0 rest
put_option put (some a) rest = put_integer 1 1 (put a rest)

unfoldable pub take_option {ℓ} : {A : Type ℓ} → (List ℕ → Taken A) → List ℕ → Taken (Option A)
take_option take bytes = goes_on (take_one 1 bit_at bytes) λ there rest.
    if there then goes_on (take rest) (λ a rest'. some (some a, rest')) else some (none, rest)

-- The error of a failure and that of its recovery.
unfoldable pub put_error : TextError → List ℕ → List ℕ
put_error e rest =
    put_integer 2 (code_number e.code) (put_integer 8 e.support_data (put_string e.message rest))

unfoldable pub take_error : List ℕ → Taken TextError
take_error bytes = goes_on (take_one 2 code_at bytes) λ code rest.
    goes_on (take_integer 8 rest) λ support_data rest'.
      goes_on (take_string rest') λ message rest''.
        some (record { code = code; support_data = support_data; message = message }, rest'')

abbrev pub put_id : ℕ → List ℕ → List ℕ
put_id id rest = put_integer 8 id rest

-- The evidence, without its state.
unfoldable pub put_evidence : Evidence → List ℕ → List ℕ
put_evidence e rest =
    put_integer 4 e.exit_code
      (put_integer 4 e.signal (put_integer 8 e.native_code (put_string e.message rest)))

unfoldable pub take_evidence : List ℕ → Taken Evidence
take_evidence bytes = goes_on (take_integer 4 bytes) λ exit_code rest.
    goes_on (take_integer 4 rest) λ signal rest'.
      goes_on (take_integer 8 rest') λ native_code rest''.
        goes_on (take_string rest'') λ message rest'''. some (
          record {
            state = ApplicationState.unknown;
            exit_code = exit_code;
            signal = signal;
            native_code = native_code;
            message = message;
          },
          rest''',
        )

-- What the second version of the format adds to a failure.
unfoldable pub put_recovery : Failure → List ℕ → List ℕ
put_recovery f rest = put_integer 1 (action_number f.recovery_action) (
    put_integer 1 (bit f.recovery_attempted) (
      put_integer 1 (bit f.recovery_succeeded) (
        put_option put_error f.recovery_error (
          put_option put_id f.recovered_mode (
            put_ids f.recovery_stopped_applications
              (put_ids f.recovery_started_applications rest))))))

unfoldable pub take_recovery : Failure → List ℕ → Taken Failure
take_recovery f bytes = goes_on (take_one 1 action_at bytes) λ action r1.
    goes_on (take_one 1 bit_at r1) λ attempted r2. goes_on (take_one 1 bit_at r2) λ succeeded r3.
      goes_on (take_option take_error r3) λ error r4.
        goes_on (take_option (take_integer 8) r4) λ mode r5. goes_on (take_ids r5) λ stopped r6.
          goes_on (take_ids r6) λ started r7. some (
            record f {
              recovery_action = action;
              recovery_attempted = attempted;
              recovery_succeeded = succeeded;
              recovery_error = error;
              recovered_mode = mode;
              recovery_stopped_applications = stopped;
              recovery_started_applications = started;
            },
            r7,
          )

unfoldable pub put_failure : Failure → List ℕ → List ℕ
put_failure f rest =
    put_error f.error
      (put_option put_id f.application (put_evidence f.evidence (put_recovery f rest)))

-- A failure of that version of the format; the first version has defaults for the recovery.
unfoldable pub take_failure : ℕ → List ℕ → Taken Failure
take_failure version bytes = goes_on (take_error bytes) λ error r1.
    goes_on (take_option (take_integer 8) r1) λ application r2.
      goes_on (take_evidence r2) λ evidence r3.
        let f : Failure = record {
          error = error;
          application = application;
          evidence = evidence;
          recovery_action = FailureAction.hold_observed_configuration;
          recovery_attempted = false;
          recovery_succeeded = false;
          recovery_error = none;
          recovered_mode = none;
          recovery_stopped_applications = [];
          recovery_started_applications = [];
        } in
        if leb 2 version then take_recovery f r3 else some (f, r3)

unfoldable pub put_plan : TransitionPlan → List ℕ → List ℕ
put_plan p rest = put_integer 8 p.generation (
    put_id p.domain (
      put_id p.source_mode (
        put_id p.target_mode (
          put_ids p.retain (
            put_ids p.stop
              (put_ids p.start (put_ids p.guarded_domains (put_ids p.affected_resources rest))))))))

unfoldable pub take_plan : List ℕ → Taken TransitionPlan
take_plan bytes = goes_on (take_integer 8 bytes) λ generation r1.
    goes_on (take_integer 8 r1) λ domain r2. goes_on (take_integer 8 r2) λ source r3.
      goes_on (take_integer 8 r3) λ target r4. goes_on (take_ids r4) λ retain r5.
        goes_on (take_ids r5) λ stop r6. goes_on (take_ids r6) λ start r7.
          goes_on (take_ids r7) λ guarded r8. goes_on (take_ids r8) λ resources r9. some (
            record {
              generation = generation;
              domain = domain;
              source_mode = source;
              target_mode = target;
              retain = retain;
              stop = stop;
              start = start;
              guarded_domains = guarded;
              affected_resources = resources;
            },
            r9,
          )

-- What `Encode` appends.
unfoldable pub put_event : Event → List ℕ
put_event e = put_integer 8 e.generation (
    put_id e.id (
      put_id e.domain (
        put_id e.source_mode (
          put_id e.target_mode (
            put_integer 1 (phase_number e.phase) (
              put_integer 8 e.updated_at
                (put_option put_failure e.failure (put_option put_plan e.plan []))))))))

-- `Encode`. A text or list of 2^32 or more is refused as too large too, since the limit is below.
unfoldable pub encode : ℕ → Event → Result (List ℕ)
encode maximum_size e =
    let bytes = put_event e in
    if ltb maximum_size (length bytes) then fail resource_exhausted else ok bytes

unfoldable pub take_event : ℕ → List ℕ → Option Event
take_event version bytes = goes_on (take_integer 8 bytes) λ generation r1.
    goes_on (take_integer 8 r1) λ id r2. goes_on (take_integer 8 r2) λ domain r3.
      goes_on (take_integer 8 r3) λ source r4. goes_on (take_integer 8 r4) λ target r5.
        goes_on (take_one 1 phase_at r5) λ phase r6. goes_on (take_integer 8 r6) λ updated r7.
          goes_on (take_option (take_failure version) r7) λ failure r8.
            goes_on (take_option take_plan r8) λ plan r9.
              if is_empty r9
              then some (record {
                generation = generation;
                id = id;
                domain = domain;
                source_mode = source;
                target_mode = target;
                phase = phase;
                updated_at = updated;
                failure = failure;
                plan = plan;
              })
              else none

-- `Decode`.
unfoldable pub decode : ℕ → List ℕ → Result Event
decode version bytes = elim (take_event version bytes) [
  | none ↦ fail persistence_error
  | some e ↦ ok e
]
