-- ===== src/Kernel.antt =====
-- The directory kernel/: tasks, the scheduler, timers and the calls that act on tasks.
pub mod Task
pub mod Sched
pub mod Sleep
pub mod Timer
pub mod Sys
pub mod Mktime
pub mod Signal
pub mod Kill
pub mod Wait
pub mod Tick
pub mod Fork
pub mod Exit
pub mod Format
pub mod Tests
