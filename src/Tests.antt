-- ===== src/Tests.antt =====
-- Concrete runs of the components, and instances of the theorems at them.
mod Sessions
mod Inputs
mod Exports
mod Batches
mod Runs
mod Deliveries
mod Pipes
mod Streams
mod Meters
mod Sinks
mod Setups
mod Commands
