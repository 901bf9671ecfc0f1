-- ===== src/Exec/Engine/Refusals.antt =====
-- exec/src/engine.cpp: a request whose mode is not defined, from `AcceptModeFrom` to the next
-- `Create`.
use openvehicleframework.Base.{
  ℕ, Bool, true, false, not, none, List, [], ◌∷◌, ◌++◌, ◌≡◌, refl, ap, sym, subst, arith, leb,
  is_some, ◌==◌, Result, ok, err, Error, ErrorCode, inl, inr, ◌⊎◌, ◌>>=◌, ◌>>◌, refuse_if,
  Bool-cases, make_error, configuration_error, not_found,
}
use openvehicleframework.Exec.Types.{ExecutionModel}
use openvehicleframework.Exec.Model.{find_domain, find_mode}
use openvehicleframework.Exec.Planner.{SystemConfiguration, build_plan, plan, initial_configuration}
use openvehicleframework.Exec.Engine.{TransitionSnapshot, JournalEvent, Environment}
use openvehicleframework.Exec.Engine.Actions.{
  Live, accept_mode_from, accept_planned, fail_transition, record_phase, recorded,
}
use openvehicleframework.Exec.Engine.Replay.{
  Replayed, before_replay, is_known_transition, replay_event, replay_events, create,
}

-- The call returned an error.
abbrev pub IsRefused {ℓ} : {A : Type ℓ} → Result A → Type ℓ
IsRefused r = (e : Error) × (r ≡ err e)

>>=-IsRefused {ℓ κ} :
    {A : Type ℓ} {B : Type κ} (r : Result A) (f : A → Result B)
    → ((a : A) → IsRefused (f a))
    → IsRefused (r >>= f)
>>=-IsRefused (ok a) f h = h a
>>=-IsRefused (err e) f h = (e, refl)

refuse_if-IsRefused {ℓ} :
    {A : Type ℓ} (b : Bool) (c : ErrorCode) (d : ℕ) (k : Result A)
    → (b ≡ true) ⊎ IsRefused k
    → IsRefused (refuse_if b c d >> k)
refuse_if-IsRefused true c d k h = (make_error c d, refl)
refuse_if-IsRefused false c d k (inl h) = cc
refuse_if-IsRefused false c d k (inr h) = h

-- The planner refuses a mode that the domain does not define.
plan-undefined :
    (m : ExecutionModel) (c : SystemConfiguration) (d target : ℕ)
    → find_mode m (record { domain = d; mode = target }) ≡ none
    → IsRefused (plan m c d target)
unfolding plan build_plan
plan-undefined m c d target h = elim (Bool-cases (c.generation == m.generation)) [
  | inl a ↦ elim (Bool-cases (is_some (find_domain m d))) [
    | inl b ↦ (make_error not_found 0, rw (a, b, h) refl)
    | inr b ↦ (make_error not_found 0, rw (a, b) refl)
  ]
  | inr a ↦ (make_error configuration_error 0, rw a refl)
]

-- Whether the event tells of a mode that its domain does not define as its target.
abbrev pub HasUndefinedTarget : ExecutionModel → JournalEvent → Type 0
HasUndefinedTarget m e =
    find_mode m (record { domain = e.transition.domain; mode = e.transition.target_mode }) ≡ none

recorded-world :
    (env : Environment) (m : ExecutionModel) (t : TransitionSnapshot) (r : Result (Unit {0}))
    → (s : Live env.World) → (recorded env m t r s).1.world ≡ s.world
unfolding recorded
recorded-world env m t (ok u) s = refl
recorded-world env m t (err e) s = refl

-- A request for a mode that its domain does not define, made before its deadline, returns an error,
-- and the last thing that it does is to hand the journal an event with that mode as the target.
pub undefined_mode_is_journalled :
    (env : Environment) (m : ExecutionModel) (c : SystemConfiguration)
    → (domain target deadline : ℕ) (s : Live env.World)
    → find_mode m (record { domain = domain; mode = target }) ≡ none
    → leb deadline (env.now s.world).0 ≡ false
    → IsRefused (accept_mode_from env m c domain target deadline s).0
      × (w : env.World) × (e : JournalEvent) × HasUndefinedTarget m e
      × ((accept_mode_from env m c domain target deadline s).1.world ≡ (env.append e w).1)
unfolding accept_mode_from accept_planned fail_transition record_phase recorded
undefined_mode_is_journalled env m c domain target deadline s h late =
    let (x, planned) = plan-undefined m c domain target h in
    rw (late, planned) ((_, refl), _, _, h, recorded-world env m _ _ _)

unknown_target :
    (m : ExecutionModel) (e : JournalEvent)
    → HasUndefinedTarget m e
    → not (is_known_transition m e.transition) ≡ true
unknown_target m e h = ground (arith, ap is_some h)

replay_event-undefined :
    (m : ExecutionModel) (e : JournalEvent) (r : Replayed)
    → HasUndefinedTarget m e
    → IsRefused (replay_event m e r)
unfolding replay_event
replay_event-undefined m e r h = refuse_if-IsRefused _ _ _ _ (
    inr (
      refuse_if-IsRefused (not (is_known_transition m e.transition)) _ _ _
        (inl (unknown_target m e h))))

replay_events-undefined :
    (m : ExecutionModel) (before : List JournalEvent) (e : JournalEvent)
    → (after : List JournalEvent) (r : Replayed) → HasUndefinedTarget m e
    → IsRefused (replay_events m (before ++ e ∷ after) r)
unfolding replay_events
replay_events-undefined m [] e after r h =
    let (x, refused) = replay_event-undefined m e r h in (x, rw refused refl)
replay_events-undefined m (b ∷ before) e after r h =
    >>=-IsRefused (replay_event m b r) _ λ r'. replay_events-undefined m before e after r' h

-- If the journal holds an event whose target mode its domain does not define, the engine cannot be
-- created from it, whatever else the journal holds and whatever the units do.
pub create_refuses_undefined_mode :
    (env : Environment) (m : ExecutionModel) (w : env.World)
    → (before : List JournalEvent) (e : JournalEvent) (after : List JournalEvent)
    → (env.replay w).0 ≡ ok (before ++ e ∷ after)
    → HasUndefinedTarget m e
    → IsRefused (create env m w)
unfolding create
create_refuses_undefined_mode env m w before e after journal h =
    >>=-IsRefused (initial_configuration m) _ λ c.
      let (x, refused) = replay_events-undefined m before e after (before_replay c) h in
      rw (journal, refused) (x, refl)

-- With a journal that replays, after what it held, the event that it was handed last, one request
-- for a mode that the domain does not define, made before its deadline, leaves a journal from which
-- the engine cannot be created again.
pub undefined_mode_blocks_restart :
    (env : Environment) (m : ExecutionModel) (c : SystemConfiguration)
    → (domain target deadline : ℕ) (s : Live env.World)
    → ((e : JournalEvent) (w : env.World)
        → (before : List JournalEvent) × ((env.replay (env.append e w).1).0
            ≡ ok (before ++ e ∷ [])))
    → find_mode m (record { domain = domain; mode = target }) ≡ none
    → leb deadline (env.now s.world).0 ≡ false
    → IsRefused (create env m (accept_mode_from env m c domain target deadline s).1.world)
undefined_mode_blocks_restart env m c domain target deadline s keeps h late =
    let (refused, w, e, undefined, same) =
      undefined_mode_is_journalled env m c domain target deadline s h late in
    let (before, journal) = keeps e w in
    subst (λ x. IsRefused (create env m x)) (sym same)
      (create_refuses_undefined_mode env m (env.append e w).1 before e [] journal undefined)
