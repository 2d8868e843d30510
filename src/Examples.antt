-- ===== src/Examples.antt =====
-- Concrete runs of the parts, at which the theorems are applied.
mod Scenario
mod Motors
mod Weights
mod Panel
mod Distances
mod Lines
mod Lights
mod Trackers
mod Currents
mod Wireless
mod Messages
mod Phone
