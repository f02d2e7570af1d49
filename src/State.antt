-- ===== src/State.antt =====
-- src/state.rs: the saved progress of a download and the checks that allow a resume.
-- Numbers are `u64`; a text is its bytes. The operations are here and the proofs in the children.
pub mod Partition
pub mod Validity
pub mod Resource
pub mod Split
pub mod Chunks
mod Tests
use fast_downloader.Prelude.{
  ℕ, zero, suc, ◌+◌, ◌-◌, ◌/◌, ◌%◌, Bool, true, false, not, ◌||◌, Option, none, some, List, [], ◌∷◌,
  ◌++◌, min, max, ltb, leb, ◌==◌, if◌then◌else◌,
}
use fast_downloader.Prelude.Text.{Text, codes, text_eq, starts_with}
use fast_downloader.Prelude.Words.{add_u64, sub_u64}
use fast_downloader.Error.{
  Result, ok, err, ◌>>=◌, state_corrupted, version_mismatch, no_workers, start_expected,
  end_before_start, current_out_of_range, workers_cover,
}

abbrev pub state_file_version : ℕ
state_file_version = 2

pub record WorkerRange : Type 0 where
  pub start : ℕ
  pub current : ℕ
  pub end : ℕ

-- `saturating_sub` is the subtraction of ℕ, which stops at 0.
pub remaining : WorkerRange → ℕ
remaining w = w.end - w.current

pub is_done : WorkerRange → Bool
is_done w = leb w.end w.current

pub record DownloadState : Type 0 where
  pub version : ℕ
  pub url : Text
  pub file_size : ℕ
  pub etag : Option Text
  pub last_modified : Option Text
  pub workers : List WorkerRange

unfoldable pub new : Text → ℕ → List WorkerRange → DownloadState
new url file_size workers = record {
  version = state_file_version;
  url = url;
  file_size = file_size;
  etag = none;
  last_modified = none;
  workers = workers;
}

unfoldable pub with_resource_id : DownloadState → Option Text → Option Text → DownloadState
with_resource_id s etag last_modified = record s { etag = etag; last_modified = last_modified }

unfoldable pub is_weak : Text → Bool
unfolding starts_with
is_weak etag = starts_with etag (codes "W/")

-- `match (self.last_modified, last_modified)`
pub matches_last_modified : Option Text → Option Text → Bool
matches_last_modified (some saved) (some current) = text_eq saved current
matches_last_modified (some saved) none = true
matches_last_modified none current = true

-- `if let (Some(saved), Some(current)) = …`; what is left to `Last-Modified` is `fallback`.
pub matches_etag : Option Text → Option Text → Bool → Bool
matches_etag (some saved) (some current) fallback =
    if not (text_eq saved current) then false else if not (is_weak saved) then true else fallback
matches_etag (some saved) none fallback = fallback
matches_etag none current fallback = fallback

pub matches_resource : DownloadState → Option Text → Option Text → Bool
unfolding matches_etag matches_last_modified
matches_resource s etag last_modified =
    matches_etag s.etag etag (matches_last_modified s.last_modified last_modified)

-- The loop of `validate` from worker `i` on; the result is the last `expected_start`.
unfoldable pub validate_workers : ℕ → ℕ → List WorkerRange → Result ℕ
validate_workers i expected_start [] = ok expected_start
validate_workers i expected_start (w ∷ ws) =
    if not (w.start == expected_start)
    then err (state_corrupted (start_expected i w.start expected_start))
    else if ltb w.end w.start
    then err (state_corrupted (end_before_start i w.end w.start))
    else if ltb w.current w.start || ltb w.end w.current
    then err (state_corrupted (current_out_of_range i w.current w.start w.end))
    else validate_workers (i + 1) w.end ws

pub is_empty : List WorkerRange → Bool
is_empty [] = true
is_empty (w ∷ ws) = false

unfoldable pub validate : DownloadState → Result (Unit {0})
unfolding is_empty validate_workers
validate s =
    if not (s.version == state_file_version)
    then err (state_corrupted (version_mismatch s.version))
    else if is_empty s.workers
    then err (state_corrupted no_workers)
    else do
      covered ← validate_workers 0 0 s.workers
      if not (covered == s.file_size)
          then err (state_corrupted (workers_cover covered s.file_size))
          else ok tt

-- `workers.iter().map(|w| w.current - w.start).sum()`
unfoldable pub sum_done : List WorkerRange → ℕ
sum_done [] = 0
sum_done (w ∷ ws) = add_u64 (sub_u64 w.current w.start) (sum_done ws)

pub total_downloaded : DownloadState → ℕ
unfolding sum_done
total_downloaded s = sum_done s.workers

pub state_path_for : Text → Text
state_path_for file_path = file_path ++ codes ".dlstate"

-- `n.div_ceil(d)`
unfoldable pub div_ceil : ℕ → ℕ → ℕ
div_ceil n d = if ltb 0 (n % d) then n / d + 1 else n / d

-- How many ranges `split_workers` makes.
unfoldable pub effective_threads : ℕ → ℕ → ℕ → ℕ
unfolding div_ceil
effective_threads file_size thread_count min_chunk =
    let threads = max thread_count 1 in
    if ltb 0 min_chunk then max (min threads (div_ceil file_size min_chunk)) 1 else threads

-- `for i in 0..effective`, with `rounds` rounds left.
unfoldable pub split_loop : (rounds i effective chunk file_size pos : ℕ) → List WorkerRange
split_loop zero i effective chunk file_size pos = []
split_loop (suc rounds) i effective chunk file_size pos =
    let end = if i == effective - 1 then file_size else add_u64 pos chunk in
    record { start = pos; current = pos; end = end }
    ∷ split_loop rounds (i + 1) effective chunk file_size end

-- `none` is the panic of `assert!(file_size > 0)`.
unfoldable pub split_workers : ℕ → ℕ → ℕ → Option (List WorkerRange)
unfolding effective_threads split_loop
split_workers file_size thread_count min_chunk =
    if ltb 0 file_size
    then (let effective = effective_threads file_size thread_count min_chunk in
        some (split_loop effective 0 effective (file_size / effective) file_size 0))
    else none
