-- ===== src/Clean/Exits.antt =====
-- How the scenarios of main/motor.c leave the machine.
pub mod Spin
pub mod SpinParts
pub mod Ends
