-- ===== src/Rcof.antt =====
-- src/application/integrations/generate-rcof.use-case.ts: the daily report of used folios (RCOF).
pub mod Day
pub mod Report
