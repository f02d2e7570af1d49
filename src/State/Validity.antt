-- ===== src/State/Validity.antt =====
-- `DownloadState::validate` and `total_downloaded` of src/state.rs against the specification.
use fast_downloader.Prelude.{
  ℕ, ◌+◌, ◌<◌, ◌≡◌, ◌≢◌, ◌↔◌, false, List, [], ◌∷◌, arith, ltb, if◌then◌else◌,
}
use fast_downloader.Prelude.Words.{u64_mod}
use fast_downloader.Error.{ok}
use fast_downloader.State.{
  WorkerRange, DownloadState, state_file_version, validate, validate_workers, is_empty,
  total_downloaded,
}
use fast_downloader.State.Partition.{
  Tiles, owners, owners-Tiles, sum_remaining, sum_done-sum_remaining,
}

-- A state that can be resumed: the current format, and ranges that tile the whole file.
pub record IsValid (s : DownloadState) : Type 0 where
  pub version : s.version ≡ state_file_version
  pub some_workers : s.workers ≢ []
  pub tiles : Tiles 0 s.file_size s.workers

validate_workers-Tiles :
    (i lo hi : ℕ) (ws : List WorkerRange) → (validate_workers i lo ws ≡ ok hi) ↔ Tiles lo hi ws
unfolding validate_workers
validate_workers-Tiles i lo hi [] = ground arith
validate_workers-Tiles i lo hi (w ∷ ws) = ground (arith, validate_workers-Tiles (i + 1) w.end hi ws)

is_empty-eq-false : (ws : List WorkerRange) → (is_empty ws ≡ false) ↔ (ws ≢ [])
unfolding is_empty
is_empty-eq-false [] = ground arith
is_empty-eq-false (w ∷ ws) = ground arith

-- `validate` accepts exactly the states whose version is the current one, that have a worker, and
-- whose ranges tile `[0, file_size)` with the progress of each inside it.
pub validate-IsValid : (s : DownloadState) → (validate s ≡ ok tt) ↔ IsValid s
unfolding validate
validate-IsValid s = (
  (λ h. record {
    version = ground arith;
    some_workers = ground (arith, is_empty-eq-false s.workers);
    tiles = (validate_workers-Tiles 0 0 s.file_size s.workers).0 (ground arith);
  }),
  (λ v. ground (
    arith,
    is_empty-eq-false s.workers,
    v.some_workers,
    (validate_workers-Tiles 0 0 s.file_size s.workers).1 v.tiles,
  )),
)

-- In a state that `validate` accepts each byte of the file belongs to exactly one worker, and no
-- position past the end of the file to any.
pub owners-validate :
    (s : DownloadState) (b : ℕ)
    → validate s ≡ ok tt
    → owners b s.workers ≡ (if ltb b s.file_size then 1 else 0)
owners-validate s b h =
    ground (arith, owners-Tiles 0 s.file_size s.workers b ((validate-IsValid s).0 h).tiles)

-- In a state that `validate` accepts, of a size below 2^64, the bytes counted as downloaded and
-- those that the workers have yet to fetch add up to the file's size.
pub total_downloaded-validate :
    (s : DownloadState)
    → validate s ≡ ok tt
    → s.file_size < u64_mod
    → total_downloaded s + sum_remaining s.workers ≡ s.file_size
unfolding total_downloaded
total_downloaded-validate s h bound =
    omega
      (arith, sum_done-sum_remaining 0 s.file_size s.workers ((validate-IsValid s).0 h).tiles bound)
