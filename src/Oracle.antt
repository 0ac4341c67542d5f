-- ===== src/Oracle.antt =====
-- utils/oracle_validation.py: functional hash reports, consensus and the determinism ledger.
pub mod Difference
pub mod Values
pub mod Kats
pub mod Canonical
pub mod Record
pub mod Contract
pub mod Report
pub mod RecordShape
pub mod Shape
pub mod View
pub mod Consensus
pub mod Retail
pub mod Manifest
pub mod Validate
pub mod Ledger
pub mod Revalidate
