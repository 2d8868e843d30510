-- ===== src/Mqtt.antt =====
-- main/mqtt: what the box tells the server, and what it makes of the server's answers.
pub mod Json
pub mod Tx
pub mod TrackerTx
pub mod Topics
pub mod Queue
