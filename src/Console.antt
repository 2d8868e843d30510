-- ===== src/Console.antt =====
-- main/main.c: the console on the first serial line
pub mod RxRing
pub mod Fifo
pub mod Command
pub mod Parser
pub mod Stream
pub mod Lines
pub mod Stops
pub mod Boot
