-- ===== src/Exec/Engine/Policies.antt =====
-- exec/src/engine.cpp: what `Execute` and `ApplyRecoveryPlan` take for a started unit.
use openvehicleframework.Base.{◌≡◌, arith, Bool, true, false, ◌&&◌, ◌||◌}
use openvehicleframework.Exec.Types.{ApplicationState, ReadinessPolicy}
use openvehicleframework.Exec.Engine.Recovery.{is_starting, recovery_state_reached}
use openvehicleframework.Exec.Engine.Execution.{state_reached}

-- The policies under which the unit has to say in some way that it is ready, other than by the
-- lifecycle channel.
abbrev pub is_reported_otherwise : ReadinessPolicy → Bool
is_reported_otherwise ReadinessPolicy.lifecycle_channel = false
is_reported_otherwise ReadinessPolicy.process_started = false
is_reported_otherwise _ = true

-- Recovery takes a unit for started when a transition does, and besides a unit that is still
-- starting under each policy other than the lifecycle channel and the start of the process.
pub policies_differ :
    (policy : ReadinessPolicy) (state : ApplicationState)
    → recovery_state_reached policy state
      ≡ (state_reached policy state || (is_reported_otherwise policy && is_starting state))
unfolding recovery_state_reached state_reached
policies_differ ReadinessPolicy.lifecycle_channel state = ground arith
policies_differ ReadinessPolicy.process_started state = ground arith
policies_differ ReadinessPolicy.supervisor_notification state = ground arith
policies_differ ReadinessPolicy.successful_exit state = ground arith
policies_differ ReadinessPolicy.socket_available state = ground arith
policies_differ ReadinessPolicy.mount_present state = ground arith
