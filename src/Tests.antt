-- ===== src/Tests.antt =====
-- Concrete runs, and the theorems at concrete inputs.
mod Data
mod Demo
mod Slots
mod Services
mod Asserts
mod FakePool
mod Metrics
mod Host
mod Daemons
mod Lives
mod Main
mod Pools
mod Quiet
mod Boots
mod Requests
