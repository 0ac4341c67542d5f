-- ===== src/Tests/Pvideo.antt =====
-- The theorems on utils/pvideo_overlay_oracle.py at concrete captures.
use xemu_perf_tests.Base.{
  List, String, false, [], ◌∷◌, ◌++◌, none, true, ◌≡◌, refl, ◌↔◌, inl, inr, string_dec,
}
use xemu_perf_tests.Base.Int.{pos}
use xemu_perf_tests.Base.Result.{ok}
use xemu_perf_tests.Pvideo.{
  Image, background, resize_sequence, compress, classify, resize_coverage, sample, Candidate,
  matches,
}
use xemu_perf_tests.Pvideo.Cycle.{
  IsPart, Alternates, Covers, resize_coverage-passed_iff, resize_coverage-compressed,
}
use xemu_perf_tests.Pvideo.States.{classify_complete}

abbrev captures : List String
captures = "unknown" ∷ "normal128" ∷ resize_sequence ++ ("inverse128" ∷ "unknown" ∷ [])

coverage_passed : (resize_coverage captures).passed ≡ true
unfolding resize_coverage string_dec
coverage_passed = refl

resize_coverage-passed_iff_example :
    ((resize_coverage captures).passed ≡ true) ↔ IsPart resize_sequence (compress 0 none captures)
resize_coverage-passed_iff_example = resize_coverage-passed_iff captures

resize_coverage-compressed_example :
    Alternates none (resize_coverage captures).compressed
    × Covers 0 captures (resize_coverage captures).compressed
resize_coverage-compressed_example = resize_coverage-compressed captures

abbrev plain : Image
plain = record { width = 660; height = 500; getpixel = λ x y. background }

abbrev disabled : Candidate
disabled = record { state = "disabled"; side = 0; inverted = false }

plain_is_disabled : matches (sample plain 10 10 640 480) disabled ≡ true
unfolding matches
plain_is_disabled = refl

classify_complete_example : classify plain (pos 10) (pos 10) (pos 640) (pos 480) ≡ ok "disabled"
classify_complete_example =
    classify_complete plain 10 10 640 480 disabled refl (inr (inr (inr (inr (inl refl)))))
      plain_is_disabled
