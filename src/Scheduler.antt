-- ===== src/Scheduler.antt =====
-- miniengine/scheduler.py: the scheduling steps, over an engine that is a parameter. Locks, the
-- thread, time and the log are left out; a step is one call of `step` by the loop.
pub mod Interface
pub mod State
pub mod Steps
mod Tests
