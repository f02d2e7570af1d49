-- ===== src/Transfer/Unsatisfiable.antt =====
-- What a 416 answer does to the multi-thread transfer of src/downloader.rs: the first run fails,
-- and the run that resumes from its saved state takes the missing bytes for downloaded.
use fast_downloader.Prelude.{ℕ, ◌-◌, ◌<◌, ◌≡◌, ap, ◌∙◌, Option, some, List, [], ◌∷◌, arith, false}
use fast_downloader.Prelude.Text.{Text}
use fast_downloader.Prelude.Words.{u64_mod, add_u64, sub_u64}
use fast_downloader.Error.{ok}
use fast_downloader.Config.{DownloaderConfig}
use fast_downloader.State.{WorkerRange, sum_done}
use fast_downloader.Worker.{store_current, Round, Response, Run, range_not_satisfiable, worker_loop}
use fast_downloader.Worker.Returns.{worker_loop-unsatisfiable, worker_loop-finished}
use fast_downloader.Transfer.{step, spawn, begin, run, snapshot_ranges}
use fast_downloader.Transfer.Safety.{loops}

-- A fresh download by one worker.
abbrev pub one_worker : ℕ → WorkerRange
one_worker size = record { start = 0; current = 0; end = size }

-- The same, as the state says after the 416.
abbrev pub taken_for_done : ℕ → WorkerRange
taken_for_done size = record { start = 0; current = size; end = size }

begin_one :
    (file : ℕ → ℕ) (size : ℕ) (runs : WorkerRange → Run)
    → 0 < size
    → begin file (one_worker size ∷ []) runs ≡ record {
      handed = file;
      downloaded = 0;
      tasks =
          record { start = 0; end = size; current = 0; pending = (runs (one_worker size)).0 } ∷ [];
    }
unfolding begin spawn sum_done add_u64 sub_u64
begin_one file size runs h = ground arith

-- After the one effect of that worker.
begin_after :
    (file : ℕ → ℕ) (size : ℕ) (runs : WorkerRange → Run)
    → 0 < size
    → (runs (one_worker size)).0 ≡ store_current size ∷ []
    → run (begin file (one_worker size ∷ []) runs) (0 ∷ []) ≡ record {
      handed = file;
      downloaded = 0;
      tasks = record { start = 0; end = size; current = size; pending = [] } ∷ [];
    }
unfolding run step
begin_after file size runs h e = rw (begin_one file size runs h, e)

resumed_one :
    (file : ℕ → ℕ) (size : ℕ) (runs : WorkerRange → Run)
    → 0 < size
    → size < u64_mod
    → (begin file (taken_for_done size ∷ []) runs).downloaded ≡ size
unfolding begin sum_done add_u64 sub_u64
resumed_one file size runs h bound = omega arith

snapshot_one :
    (size : ℕ)
    → snapshot_ranges (record { start = 0; end = size; current = size; pending = [] } ∷ [])
      ≡ taken_for_done size ∷ []
unfolding snapshot_ranges
snapshot_one size = ground arith

-- A server that answers 416 to the first request of a fresh one-worker download: the worker returns
-- without an error, and the first run's count of 0 bytes, which is not the size, makes it fail. The
-- state saved then says that all is done; in the run that resumes from it the worker returns at
-- once, the count is the size, so that the final test passes, and the file is as it was before.
pub unsatisfiable-resumes :
    (cfg cfg' : DownloaderConfig) (if_range if_range' : Option Text)
    (rounds rounds' : WorkerRange → List Round) (file : ℕ → ℕ) (size : ℕ) (r : Round)
    (rest : List Round) (resp : Response)
    → 0 < size
    → size < u64_mod
    → rounds (one_worker size) ≡ r ∷ rest
    → r.is_cancelled ≡ false
    → r.send (record { first = 0; last = size - 1; if_range = if_range }) ≡ ok resp
    → resp.status ≡ range_not_satisfiable
    → let first = run (begin file (one_worker size ∷ []) (loops cfg if_range rounds)) (0 ∷ []) in
      let second =
        begin first.handed (snapshot_ranges first.tasks) (loops cfg' if_range' rounds') in
      ((loops cfg if_range rounds (one_worker size)).1 ≡ some (ok tt))
      × (first.downloaded ≡ 0)
      × (snapshot_ranges first.tasks ≡ taken_for_done size ∷ [])
      × (loops cfg' if_range' rounds' (taken_for_done size) ≡ ([], some (ok tt)))
      × (second.downloaded ≡ size)
      × (second.handed ≡ file)
unfolding begin
unsatisfiable-resumes cfg cfg' ir ir' rounds rounds' file size r rest resp pos bound e go sent
      status =
    let loop = worker_loop-unsatisfiable cfg size ir 0 0 r rest resp pos go sent status in
    let first_run : loops cfg ir rounds (one_worker size)
        ≡ (store_current size ∷ [], some (ok tt)) =
      ap (λ x. worker_loop cfg size ir 0 0 x) e ∙ loop in
    let after_first = begin_after file size (loops cfg ir rounds) pos (ap (λ x. x.0) first_run) in
    let ranges = ap (λ x. snapshot_ranges x.tasks) after_first ∙ snapshot_one size in
    let first = run (begin file (one_worker size ∷ []) (loops cfg ir rounds)) (0 ∷ []) in
    (
      ap (λ x. x.1) first_run,
      ap (λ x. x.downloaded) after_first,
      ranges,
      worker_loop-finished cfg' size ir' 0 size (rounds' (taken_for_done size)) (omega arith),
      ap (λ ws. (begin first.handed ws (loops cfg' ir' rounds')).downloaded) ranges
          ∙ resumed_one first.handed size (loops cfg' ir' rounds') pos bound,
      ap (λ x. x.handed) after_first,
    )
