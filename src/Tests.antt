-- ===== src/Tests.antt =====
-- Runs at concrete inputs, and the theorems applied to such inputs.
mod Snapshots
mod Addresses
mod Configuration
mod Broker
mod Store
mod Feedback
