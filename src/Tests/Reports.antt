-- ===== src/Tests/Reports.antt =====
-- Two guest records, their reports and a stand-in for SHA-256, for the tests of the oracle tools.
use Prim.Native.Char.{code}
use xemu_perf_tests.Base.{ℕ, ◌+◌, ◌*◌, ◌%◌, ◌^◌, String, [], ◌∷◌, ◌≡◌, refl, string_dec, false}
use xemu_perf_tests.Base.Int.{pos}
use xemu_perf_tests.Base.Numerals.{hex_padded, decimal}
use xemu_perf_tests.Base.Result.{Result, ok, err}
use xemu_perf_tests.Base.Text.{
  ends_with, contains_text, lower, strip, upper, starts_with, remove_prefix, remove_suffix,
}
use xemu_perf_tests.Json.{null, bool, int, str, obj, Fields, end, field}
use xemu_perf_tests.Json.Equality.{py_eq}
use xemu_perf_tests.Json.Keys.{sorted, sorted_union, sorted_pairs}
use xemu_perf_tests.Oracle.Values.{integer, hash, text}
use xemu_perf_tests.Oracle.Kats.{
  counterpart, normalize_kat_node, select_kats, record_kats, finish_dict,
}
use xemu_perf_tests.Oracle.Canonical.{Platform, canonical_json, json_sha256}
use xemu_perf_tests.Oracle.Record.{eligible_record_hashes}
use xemu_perf_tests.Oracle.Contract.{record_contract, record_internal_oracle}
use xemu_perf_tests.Oracle.Report.{Observation, build_report}
use xemu_perf_tests.Oracle.Shape.{validate_report_shape}
use xemu_perf_tests.Oracle.View.{comparison_records}

-- Any function of the text into 64 digits will do here.
fold : String → ℕ → ℕ
fold String.[] n = n
fold (String.◌∷◌ c s) n = fold s ((n * 131 + code c) % 2 ^ 61)

pub toy : Platform
unfolding fold hex_padded
toy = record { sha256 = λ s. hex_padded 64 (fold s 7); float_repr = λ m k. "0.0" }

-- All that a run of the oracle tools on concrete data computes with.
unfoldable pub runs : Unit {0}
unfolding toy decimal string_dec py_eq sorted sorted_union sorted_pairs integer hash text
    counterpart normalize_kat_node select_kats record_kats finish_dict canonical_json json_sha256
    eligible_record_hashes record_contract record_internal_oracle build_report validate_report_shape
    comparison_records ends_with contains_text lower strip upper starts_with remove_prefix
    remove_suffix
runs = tt

abbrev pub metadata : Fields
metadata = field "source_kat" (str "00000180") (
    field "tile_kat" (obj (field "expected" (int (pos 3)) (field "actual" (int (pos 3)) end))) (
      field "framebuffer_comparison_eligible" (bool false) (
        field "framebuffer_comparison_reason" (str "racy")
          (field "oracle_status" (str "pass") end))))

abbrev pub entry : String → Fields
entry name = field "name" (str name) (
    field "framebuffer_fnv1a64" (str " 0x00112233AABBCCDD ") (
      field "iterations" (int (pos 40)) (
        field "sample_count" (int (pos 10)) (
          field "measurement_iterations_multiplier" (int (pos 4)) (
            field "warmup_iterations" (int (pos 3)) (
              field "gpu_completion_mode" (str "per_iteration")
                (field "metadata" (obj metadata) end)))))))

abbrev pub observation : String → Observation
observation id = record {
  guest_image_sha256 = str "ABCDEF0123456789abcdef0123456789abcdef0123456789abcdef0123456789";
  job_config = obj end;
  source_backend = str "vulkan";
  source_type = str "XEMU";
  observation_id = str id;
  build = null;
  surface_scale = int (pos 1);
  hardware = obj end;
}

abbrev pub value_of : Result Fields → Fields
value_of (ok fs) = fs
value_of (err e) = end

unfoldable pub report : String → Fields
unfolding runs
report id = value_of (build_report toy (entry "b" ∷ entry "a" ∷ []) (observation id))

pub report_is_valid : validate_report_shape toy (report "one") ≡ ok tt
unfolding runs report
report_is_valid = refl
