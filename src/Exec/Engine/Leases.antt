-- ===== src/Exec/Engine/Leases.antt =====
-- exec/src/engine.cpp: the lease that `Execute` takes for a plan.
use openvehicleframework.Base.{◌++◌}
use openvehicleframework.Exec.Planner.{TransitionPlan}
use openvehicleframework.Exec.Scheduler.{TransitionResources}

-- Everything that a plan touches.
abbrev pub touched : TransitionPlan → TransitionResources
touched p = record {
  domains = p.guarded_domains;
  units = p.stop ++ p.start;
  exclusive_resources = p.affected_resources;
}
