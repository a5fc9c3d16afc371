-- ===== src/Tests.antt =====
-- Concrete runs of the server, and the theorems at concrete inputs.
mod Samples
mod Runs
mod Broker
mod Wire
mod Pipelined
mod Sessions
mod Queues
mod Logins
mod Inspector
mod Consumers
mod Inspections
mod Requests
mod Mixture
mod Contents
