-- ===== src/Clean.antt =====
-- main/motor.c: the cleaning scenario and the scenarios beside it, as a task among other tasks.
pub mod World
pub mod Flags
pub mod Wait
pub mod Origin
pub mod Recovery
pub mod Cycle
pub mod Manage
pub mod Interlock
pub mod Exits
