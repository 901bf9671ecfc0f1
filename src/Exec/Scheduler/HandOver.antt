-- ===== src/Exec/Scheduler/HandOver.antt =====
-- exec/src/scheduler.cpp: a call that waits for the lease of another transition.
