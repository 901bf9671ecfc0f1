-- ===== src/Exec/FileJournal/Events/RoundTrip.antt =====
-- exec/src/file_journal.cpp: Decode gives back what Encode was given.
use openvehicleframework.Base.{
  ℕ, ◌^◌, Bool, true, false, ◌&&◌, Option, some, none, List, [], ltb, length, all_of, arith, ◌≡◌,
  refl, ap, sym, ◌∙◌,
}
use openvehicleframework.Exec.Types.{ApplicationState}
use openvehicleframework.Exec.Planner.{TransitionPlan}
use openvehicleframework.Exec.Engine.{code_number, phase_number}
use openvehicleframework.Exec.FileJournal.{TextError, Evidence, Failure, Event}
use openvehicleframework.Exec.FileJournal.Codec.{
  Taken, take_integer, put_ids, take_ids, bit, bit_at, phase_at, code_at, action_number, action_at,
}
use openvehicleframework.Exec.FileJournal.Codec.RoundTrip.{
  step, fits, take_integer-put_integer, take_string-put_string, take_ids-put_ids,
  take_one-put_integer, bit_at-bit, action_at-action_number, phase_at-phase_number,
  code_at-code_number,
}
use openvehicleframework.Exec.FileJournal.Events.{
  put_option, take_option, put_error, take_error, put_id, put_evidence, take_evidence, put_recovery,
  take_recovery, put_failure, take_failure, put_plan, take_plan, put_event, take_event,
}

-- The fields are in the range of their types: integers of so many bytes, texts and lists with a
-- length of 32 bits.
abbrev pub short : {A : Type 0} → List A → Bool
short {A} xs = ltb (length xs) (2 ^ 32)

abbrev pub valid_ids : List ℕ → Bool
valid_ids ids = all_of (fits 8) ids && short ids

abbrev pub valid_error : TextError → Bool
valid_error e = fits 8 e.support_data && short e.message

abbrev pub valid_evidence : Evidence → Bool
valid_evidence e = fits 4 e.exit_code && fits 4 e.signal && fits 8 e.native_code && short e.message

abbrev pub valid_option {ℓ} : {A : Type ℓ} → (A → Bool) → Option A → Bool
valid_option v none = true
valid_option v (some a) = v a

abbrev pub valid_failure : Failure → Bool
valid_failure f =
    valid_error f.error
    && valid_option (fits 8) f.application
    && valid_evidence f.evidence
    && valid_option valid_error f.recovery_error
    && valid_option (fits 8) f.recovered_mode
    && valid_ids f.recovery_stopped_applications
    && valid_ids f.recovery_started_applications

abbrev pub valid_plan : TransitionPlan → Bool
valid_plan p =
    fits 8 p.generation
    && fits 8 p.domain
    && fits 8 p.source_mode
    && fits 8 p.target_mode
    && valid_ids p.retain
    && valid_ids p.stop
    && valid_ids p.start
    && valid_ids p.guarded_domains
    && valid_ids p.affected_resources

abbrev pub valid_event : Event → Bool
valid_event e =
    fits 8 e.generation
    && fits 8 e.id
    && fits 8 e.domain
    && fits 8 e.source_mode
    && fits 8 e.target_mode
    && fits 8 e.updated_at
    && valid_option valid_failure e.failure
    && valid_option valid_plan e.plan

take_option-put_option {ℓ} :
    {A : Type ℓ} (put : A → List ℕ → List ℕ) (take : List ℕ → Taken A) (f : A → A) (o : Option A)
    (rest : List ℕ)
    → ((a : A) → o ≡ some a → take (put a rest) ≡ some (f a, rest))
    → take_option take (put_option put o rest)
      ≡ some (elim o [ none ↦ none | some a ↦ some (f a) ], rest)
unfolding take_option put_option
take_option-put_option put take f none rest h =
    step _ (take_one-put_integer 1 bit_at 0 false rest refl refl) refl
take_option-put_option put take f (some a) rest h =
    step _ (take_one-put_integer 1 bit_at 1 true (put a rest) refl refl) (step _ (h a refl) refl)

-- An option that is decoded as it was.
take_option_same {ℓ} :
    {A : Type ℓ} (v : A → Bool) (put : A → List ℕ → List ℕ) (take : List ℕ → Taken A)
    → ((a : A) (rest : List ℕ) → v a ≡ true → take (put a rest) ≡ some (a, rest))
    → (o : Option A) (rest : List ℕ) → valid_option v o ≡ true
    → take_option take (put_option put o rest) ≡ some (o, rest)
unfolding take_option put_option
take_option_same v put take h none rest c =
    step _ (take_one-put_integer 1 bit_at 0 false rest refl refl) refl
take_option_same v put take h (some a) rest c =
    step _ (take_one-put_integer 1 bit_at 1 true (put a rest) refl refl) (step _ (h a rest c) refl)

take_error-put_error :
    (e : TextError) (rest : List ℕ)
    → valid_error e ≡ true
    → take_error (put_error e rest) ≡ some (e, rest)
unfolding take_error put_error
take_error-put_error e rest v =
    let c = code_at-code_number e.code in
    step _ (take_one-put_integer 2 code_at (code_number e.code) e.code _ c.0 c.1) (
      step _ (take_integer-put_integer 8 e.support_data _ (ground arith))
        (step _ (take_string-put_string e.message rest (ground arith)) refl))

take_id-put_id :
    (id : ℕ) (rest : List ℕ) → fits 8 id ≡ true → take_integer 8 (put_id id rest) ≡ some (id, rest)
take_id-put_id id rest f = take_integer-put_integer 8 id rest f

take_list-put_ids :
    (ids rest : List ℕ) → valid_ids ids ≡ true → take_ids (put_ids ids rest) ≡ some (ids, rest)
take_list-put_ids ids rest v = take_ids-put_ids ids rest (ground arith) (ground arith)

-- The evidence loses its state.
abbrev pub without_state : Evidence → Evidence
without_state e = record e { state = ApplicationState.unknown }

take_evidence-put_evidence :
    (e : Evidence) (rest : List ℕ)
    → valid_evidence e ≡ true
    → take_evidence (put_evidence e rest) ≡ some (without_state e, rest)
unfolding take_evidence put_evidence
take_evidence-put_evidence e rest v =
    step _ (take_integer-put_integer 4 e.exit_code _ (ground arith)) (
      step _ (take_integer-put_integer 4 e.signal _ (ground arith)) (
        step _ (take_integer-put_integer 8 e.native_code _ (ground arith))
          (step _ (take_string-put_string e.message rest (ground arith)) refl)))

take_recovery-put_recovery :
    (g f : Failure) (rest : List ℕ)
    → valid_failure f ≡ true
    → take_recovery g (put_recovery f rest)
      ≡ some
          (record f { error = g.error; application = g.application; evidence = g.evidence }, rest)
unfolding take_recovery put_recovery
take_recovery-put_recovery g f rest v =
    let a = action_at-action_number f.recovery_action in
    let b = bit_at-bit f.recovery_attempted in
    let c = bit_at-bit f.recovery_succeeded in
    step _
      (take_one-put_integer 1 action_at (action_number f.recovery_action) f.recovery_action _ a.0
        a.1)
      (step _
        (take_one-put_integer 1 bit_at (bit f.recovery_attempted) f.recovery_attempted _ b.0 b.1)
        (step _
          (take_one-put_integer 1 bit_at (bit f.recovery_succeeded) f.recovery_succeeded _ c.0 c.1)
          (step _
            (take_option_same valid_error put_error take_error take_error-put_error f.recovery_error
              _ (ground arith))
            (step _
              (take_option_same (fits 8) put_id (take_integer 8) take_id-put_id f.recovered_mode _
                (ground arith))
              (step _ (take_list-put_ids f.recovery_stopped_applications _ (ground arith)) (
                step _ (take_list-put_ids f.recovery_started_applications rest (ground arith))
                  refl))))))

-- The failure as it is decoded.
abbrev pub stored_failure : Failure → Failure
stored_failure f = record f { evidence = without_state f.evidence }

take_failure-put_failure :
    (f : Failure) (rest : List ℕ)
    → valid_failure f ≡ true
    → take_failure 2 (put_failure f rest) ≡ some (stored_failure f, rest)
unfolding take_failure put_failure
take_failure-put_failure f rest v = step _ (take_error-put_error f.error _ (ground arith)) (
    step _
      (take_option_same (fits 8) put_id (take_integer 8) take_id-put_id f.application _
        (ground arith))
      (step _ (take_evidence-put_evidence f.evidence _ (ground arith))
        (take_recovery-put_recovery _ f rest v)))

take_plan-put_plan :
    (p : TransitionPlan) (rest : List ℕ)
    → valid_plan p ≡ true
    → take_plan (put_plan p rest) ≡ some (p, rest)
unfolding take_plan put_plan
take_plan-put_plan p rest v = step _ (take_integer-put_integer 8 p.generation _ (ground arith)) (
    step _ (take_id-put_id p.domain _ (ground arith)) (
      step _ (take_id-put_id p.source_mode _ (ground arith)) (
        step _ (take_id-put_id p.target_mode _ (ground arith)) (
          step _ (take_list-put_ids p.retain _ (ground arith)) (
            step _ (take_list-put_ids p.stop _ (ground arith)) (
              step _ (take_list-put_ids p.start _ (ground arith)) (
                step _ (take_list-put_ids p.guarded_domains _ (ground arith))
                  (step _ (take_list-put_ids p.affected_resources rest (ground arith)) refl))))))))

-- The event as it is decoded.
abbrev pub stored : Event → Event
stored e = record e { failure = elim e.failure [ none ↦ none | some f ↦ some (stored_failure f) ] }

and_each :
    (a b c d e f g h : Bool)
    → (a && b && c && d && e && f && g && h) ≡ true
    → (a ≡ true)
      × (b ≡ true)
      × (c ≡ true)
      × (d ≡ true)
      × (e ≡ true)
      × (f ≡ true)
      × (g ≡ true)
      × (h ≡ true)
and_each a b c d e f g h x = (
  ground arith,
  ground arith,
  ground arith,
  ground arith,
  ground arith,
  ground arith,
  ground arith,
  ground arith,
)

valid-some :
    {A : Type 0} (v : A → Bool) (o : Option A) (a : A)
    → valid_option v o ≡ true
    → o ≡ some a
    → v a ≡ true
valid-some v o a c e = sym (ap (valid_option v) e) ∙ c

pub take_event-put_event :
    (e : Event) → valid_event e ≡ true → take_event 2 (put_event e) ≡ some (stored e)
unfolding take_event put_event
take_event-put_event e v =
    let p = phase_at-phase_number e.phase in
    let w = and_each _ _ _ _ _ _ _ _ v in
    step _ (take_integer-put_integer 8 e.generation _ w.0) (
      step _ (take_id-put_id e.id _ w.1) (
        step _ (take_id-put_id e.domain _ w.2) (
          step _ (take_id-put_id e.source_mode _ w.3) (
            step _ (take_id-put_id e.target_mode _ w.4) (
              step _ (take_one-put_integer 1 phase_at (phase_number e.phase) e.phase _ p.0 p.1) (
                step _ (take_integer-put_integer 8 e.updated_at _ w.5) (
                  step _
                    (take_option-put_option put_failure (take_failure 2) stored_failure e.failure _
                      (λ f q.
                        take_failure-put_failure f _ (valid-some valid_failure e.failure f w.6 q)))
                    (step _
                      (take_option_same valid_plan put_plan take_plan take_plan-put_plan e.plan []
                        w.7)
                      refl))))))))
