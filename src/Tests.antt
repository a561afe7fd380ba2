-- ===== src/Tests.antt =====
-- Concrete runs of the definitions, and the witnesses of the theorems.
mod Samples
mod Processing
mod Folios
mod States
mod Guards
mod Intakes
mod Webhooks
mod Ruts
mod Payloads
mod Rcofs
mod Repositories
mod Polls
mod Crons
mod Cafs
mod Clients
mod Preflights
mod Brandings
mod Artifacts
mod Signatures
