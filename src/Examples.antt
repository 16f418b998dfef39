-- ===== src/Examples.antt =====
-- The theorems at concrete inputs, over a codec that is known to round-trip.
mod Scalar
mod Codec
mod Plain
mod Logs
mod Sessions
mod Recoveries
mod Routes
mod Backends
mod Candidates
mod Accounts
mod Journals
mod Acceptances
mod Deployments
mod Queues
mod Portfolios
mod Runtimes
mod Renderings
mod Preparations
mod Texts
mod Policies
