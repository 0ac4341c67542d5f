-- ===== src/Tests/Revalidate.antt =====
-- The theorem on utils/revalidate_oracles.py at two reports of a baseline and one candidate.
use xemu_perf_tests.Base.{String, false, [], ◌∷◌, ◌≡◌, refl}
use xemu_perf_tests.Base.Result.{Result, ok, err}
use xemu_perf_tests.Json.{obj, end}
use xemu_perf_tests.Oracle.Ledger.{holds}
use xemu_perf_tests.Oracle.Difference.{first_difference}
use xemu_perf_tests.Oracle.Consensus.{build_consensus}
use xemu_perf_tests.Oracle.Validate.{validate_against_oracle}
use xemu_perf_tests.Oracle.Manifest.{validate_oracle_shape}
use xemu_perf_tests.Oracle.Revalidate.{Input, Evidence, revalidate}
use xemu_perf_tests.Oracle.Revalidate.Passed.{Passed, revalidate-Passed}
use xemu_perf_tests.Tests.Reports.{toy, runs, report}

input : String → Input
unfolding runs report
input id = record { before = id; file = holds (obj (report id)); after = id }

abbrev evidence_of : Result Evidence → Evidence
evidence_of (ok written) = written
evidence_of (err e) = record { consensus = end; revalidation = end }

evidence : Evidence
unfolding runs report revalidate input
evidence =
    evidence_of (revalidate toy "00" false (input "one" ∷ input "two" ∷ []) (input "three" ∷ []))

evidence_written :
    revalidate toy "00" false (input "one" ∷ input "two" ∷ []) (input "three" ∷ []) ≡ ok evidence
unfolding evidence first_difference build_consensus validate_against_oracle validate_oracle_shape
evidence_written = refl

revalidate-Passed_example :
    Passed toy false (input "one" ∷ input "two" ∷ []) (input "three" ∷ []) evidence
revalidate-Passed_example =
    revalidate-Passed toy "00" false (input "one" ∷ input "two" ∷ []) (input "three" ∷ []) evidence
      evidence_written
