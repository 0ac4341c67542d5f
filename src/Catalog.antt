-- ===== src/Catalog.antt =====
-- utils/test_catalog.py: the catalog of the tests and the files that are generated from it.
pub mod Entry
pub mod Entries
pub mod Validate
pub mod Document
pub mod Diagnosis
pub mod Print
pub mod Plan
pub mod Text
pub mod Guide
pub mod Render
pub mod Update
