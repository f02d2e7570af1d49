-- ===== src/State/Tests.antt =====
-- Runs of src/state.rs on the inputs of its unit tests, and the theorems at concrete inputs.
use fast_downloader.Prelude.{
  ℕ, ◌≤◌, ◌<◌, ◌≡◌, ◌↔◌, ◌⊎◌, refl, false, none, some, List, [], ◌∷◌, length, max, arith,
}
use fast_downloader.Prelude.Text.{codes, text_eq}
use fast_downloader.Prelude.Words.{add_u64}
use fast_downloader.Error.{ok, err, state_corrupted, start_expected}
use fast_downloader.State.{
  WorkerRange, DownloadState, new, validate, validate_workers, total_downloaded, split_workers,
  split_loop, effective_threads, matches_resource, is_weak,
}
use fast_downloader.State.Validity.{IsValid, validate-IsValid}
use fast_downloader.State.Resource.{Differ, SameStrong, matches_resource-eq-false}
use fast_downloader.State.Split.{split_workers-validate}
use fast_downloader.State.Chunks.{size, split_workers-short}

abbrev range : ℕ → ℕ → ℕ → WorkerRange
range s c e = record { start = s; current = c; end = e }

-- The state of the unit test `validate-good`.
abbrev good : DownloadState
good = record {
  version = 2;
  url = codes "u";
  file_size = 100;
  etag = none;
  last_modified = none;
  workers = range 0 0 50 ∷ range 50 70 100 ∷ [];
}

validate-good : validate good ≡ ok tt
unfolding validate validate_workers
validate-good = refl

validate_gap :
    validate (new (codes "u") 100 (range 0 0 40 ∷ range 50 50 100 ∷ []))
    ≡ err (state_corrupted (start_expected 1 50 40))
unfolding validate validate_workers new
validate_gap = refl

split_with_min_chunk_reduces_threads :
    split_workers 1000 16 500 ≡ some (range 0 0 500 ∷ range 500 500 1000 ∷ [])
unfolding split_workers split_loop effective_threads add_u64
split_with_min_chunk_reduces_threads = refl

matches_resource_weak_etag :
    matches_resource
      (record good { etag = some (codes "W/a"); last_modified = some (codes "Mon") })
      (some (codes "W/a"))
      (some (codes "Tue"))
    ≡ false
unfolding matches_resource is_weak text_eq
matches_resource_weak_etag = refl

validate-IsValid_example : (validate good ≡ ok tt) ↔ IsValid good
validate-IsValid_example = validate-IsValid good

matches_resource-eq-false_example :
    (matches_resource good none none ≡ false)
    ↔ (Differ none none ⊎ ((¬ SameStrong none none) × Differ none none))
matches_resource-eq-false_example = matches_resource-eq-false good none none

split_workers-validate_example :
    (ws : List WorkerRange) × (split_workers 1000 4 0 ≡ some ws)
    × (validate (new (codes "u") 1000 ws) ≡ ok tt)
    × (0 < length ws)
    × (length ws ≤ max 4 1)
    × (total_downloaded (new (codes "u") 1000 ws) ≡ 0)
split_workers-validate_example =
    split_workers-validate (codes "u") 1000 4 0 (omega arith) (omega arith)

abbrev two_ranges : List WorkerRange
two_ranges = range 0 0 500 ∷ range 500 500 1000 ∷ []

split_workers-short_example :
    (w : WorkerRange) × (ws : List WorkerRange) × (split_workers 1000 16 600 ≡ some (w ∷ ws))
    × (0 < length ws)
    × (size w < 600)
split_workers-short_example =
    split_workers-short 1000 16 600 (omega arith) (omega arith) (omega arith) (omega arith)
      (omega arith)
