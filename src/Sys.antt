-- ===== src/Sys.antt =====
-- Tasks and their scheduling: kernel/src/sys/task.c, kernel/src/sys/schedule.c.
pub mod State
pub mod Chain
pub mod Task
pub mod Kill
pub mod Create
pub mod Schedule
mod Tests
