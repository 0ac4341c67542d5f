-- ===== src/Tests.antt =====
-- The theorems at concrete inputs, and runs of the definitions.
mod Reports
mod Oracle
mod Ledger
mod NoOracle
mod Revalidate
mod Pvideo
mod Compare
mod Package
mod Manifest
mod Audio
mod Catalog
mod Reference
mod Sync
