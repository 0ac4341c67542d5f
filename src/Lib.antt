-- ===== src/Lib.antt =====
-- xemu-perf-tests: a model of the Python tools that build, check and compare what the guest tests of
-- this repository report about xemu, with the theorems that make the tools correct.
--
-- The guest program writes one record for each test. utils/oracle_validation.py normalizes the
-- records into a report, checks reports, forms a consensus of several, validates reports against it
-- and keeps a ledger of what was seen; utils/revalidate_oracles.py does so for reports that are
-- already sealed. utils/hash_compare.py compares the hashes of whole runs.
-- utils/pvideo_overlay_oracle.py judges captured images. utils/x87_status_reference.py and
-- utils/cpu_jump_cache_reference.py derive references without a guest.
-- utils/test_catalog.py generates the catalog of the tests, its plans and its guides.
-- utils/audio_torture_cases.py plans audio cases, and utils/package_runner_suite.py packages the
-- image and its catalog for the test runner. cmake/modules/SyncResourceDirs.py copies resources
-- during the build.
--
-- Where each part is modelled:
--   Base       truth tests, lists, Python's methods of str, numerals, and Result: what a call returns
--              or raises. `invalid` is the error that a module raises on purpose, `nondeterminism` is
--              SameBackendNondeterminism, `crash` an exception of Python's own.
--   Json       the values of json.loads, dicts in insertion order, Python's == on them, sorted keys.
--   Oracle     utils/oracle_validation.py: Values (_integer, _hash), Kats (record_kats), Canonical
--              (canonical_json, json_sha256), Record (record_hashes, record_comparison_policy,
--              eligible_record_hashes), Contract (record_contract, record_internal_oracle), Report
--              (normalized_records, build_report), RecordShape and Shape
--              (_validate_normalized_records, _validate_report_shape), View (comparison_records),
--              Difference (first_difference), Consensus (build_consensus), Retail
--              (build_retail_consensus), Manifest (_validate_oracle_shape), Validate
--              (validate_against_oracle), Ledger (update_determinism_ledger); and Revalidate, the run
--              of utils/revalidate_oracles.py on the files that it reads.
--   Compare    utils/hash_compare.py: Records (load_run and what it calls), Rows (the loop over the
--              records), and in Compare itself compare_runs, render_human and the exit code.
--   Pvideo     utils/pvideo_overlay_oracle.py: classify, resize_coverage.
--   Package    utils/package_runner_suite.py: Iso (embedded_catalog), Category (category), Catalog and
--              Manifest (manifest), and in Package itself package.
--   Audio      utils/audio_torture_cases.py: Audio (_intended_paths), Build (build_cases), Validate
--              (validate).
--   Catalog    utils/test_catalog.py: Entry and Entries (entries), Validate (validate), Document
--              (catalog), Print (json.dumps), Plan (resolved_plan), Text (cpp, markdown,
--              catalog_json), Diagnosis (failure_diagnosis), Guide (failure_guide_markdown), Render
--              (render), Update (main on a dict of files).
--   Reference  X87 (utils/x87_status_reference.py), JumpCache (utils/cpu_jump_cache_reference.py).
--   Sync       cmake/modules/SyncResourceDirs.py: Sync (_build_relative_paths), Files (glob and paths),
--              Copy (_copy_if_needed, _sync_resource_dir), Perform (perform_sync).
--   Tests      runs at concrete inputs and the theorems applied to them.
-- The theorems stand in child modules named for what they prove.
--
-- State: the ledger's file is a value that update_determinism_ledger takes and returns, since the
-- code reads, checks and replaces it under one lock, and any number of runs is a derivation of
-- Oracle.Ledger.History.Reached; the output path of package is a directory that
-- is absent or holds files, and each write may fail; the walk through an image's directory carries
-- its stack, its visited offsets and the catalog found. The files that the catalog generator and the
-- resource copy write are dicts from paths.
--
-- Parameters: SHA-256 and the text of a float (Oracle.Canonical.Platform), json.loads of a text and
-- str of floats, lists and dicts (Compare.Records.Python), SHA-256 and json.loads of bytes
-- (Package.Manifest.Library), and Pillow's size and pixels (Pvideo.Image).
--
-- Bounds: the only loop that is not over a finite list or a fixed range, in embedded_catalog, runs on
-- rounds; 65537 are enough, because every round visits a new offset and at most 65536 are visited.
-- 64-bit and 32-bit arithmetic has its wrap-around written out.
--
-- Not modelled: reading and writing of files, locks, command lines and printing;
-- utils/create_test_suite.py and .github/scripts/summarize_test_suites.py; the guest program
-- in C++, PowerShell, templates, build files and data.
pub mod Base
pub mod Json
pub mod Oracle
pub mod Pvideo
pub mod Compare
pub mod Package
pub mod Audio
pub mod Catalog
pub mod Reference
pub mod Sync
mod Tests
