-- ===== src/Tests/Unit.antt =====
-- The tests of the sources, run on the model: a test is a Boolean, and a theorem says that those of a
-- file hold.
mod Pipes
mod Policies
mod Capabilities
mod Scripts
mod Brokers
mod Approvals
mod Contracts
mod Trail
