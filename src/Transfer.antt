-- ===== src/Transfer.antt =====
-- The multi-thread transfer of src/downloader.rs as interleavings: the workers' effects on the data
-- file, on their positions and on the shared count, in any order that keeps each worker's own, and
-- the snapshot that the state-save task takes in between. Loads and stores of one atomic are single
-- steps. Of the data file this is what it will hold once the writes handed over have been carried
-- out; what the system shows of it by then is in Checkpoint.antt.
pub mod Phase
pub mod Steps
pub mod Bytes
pub mod Safety
pub mod Completion
pub mod Unsatisfiable
mod Tests
use fast_downloader.Prelude.{
  ℕ, zero, suc, ◌+◌, ◌-◌, Bool, true, false, Option, none, some, List, [], ◌∷◌, map, min, leb, ◌==◌,
  if◌then◌else◌,
}
use fast_downloader.Prelude.Text.{Text}
use fast_downloader.Prelude.Words.{add_u64}
use fast_downloader.Error.{ok}
use fast_downloader.State.{WorkerRange, DownloadState, new, with_resource_id, sum_done}
use fast_downloader.Worker.{Effect, write_at, store_current, fetch_add, Run}

-- What a write of the bytes at `p` makes of the file: the others keep their values.
pub write : (ℕ → ℕ) → ℕ → List ℕ → ℕ → ℕ
write file p [] q = file q
write file p (b ∷ bs) q = if p == q then b else write file (suc p) bs q

-- A worker during the transfer, with what it will still do.
pub record Task : Type 0 where
  pub start : ℕ
  pub end : ℕ
  pub current : ℕ
  pub pending : List Effect

-- `handed`: the file once every write that has been handed over is carried out.
pub record Transfer : Type 0 where
  pub handed : ℕ → ℕ
  pub downloaded : ℕ
  pub tasks : List Task

pub on_file : Effect → (ℕ → ℕ) → ℕ → ℕ
on_file (write_at p b) file = write file p b
on_file (store_current v) file = file
on_file (fetch_add n) file = file

pub on_current : Effect → ℕ → ℕ
on_current (write_at p b) c = c
on_current (store_current v) c = v
on_current (fetch_add n) c = c

pub on_count : Effect → ℕ → ℕ
on_count (write_at p b) count = count
on_count (store_current v) count = count
on_count (fetch_add n) count = add_u64 count n

-- The first effect of task `i`, if it has one, and the tasks after it.
pub next_effect : List Task → ℕ → Option (Effect × List Task)
unfolding on_current
next_effect [] i = none
next_effect (t ∷ ts) zero = elim t.pending [
  | [] ↦ none
  | e ∷ es ↦ some (e, record t { current = on_current e t.current; pending = es } ∷ ts)
]
next_effect (t ∷ ts) (suc i) = elim (next_effect ts i) [
  | none ↦ none
  | some (e, ts') ↦ some (e, t ∷ ts')
]

-- The scheduler lets task `i` do one thing. A write is handed over.
unfoldable pub step : Transfer → ℕ → Transfer
unfolding next_effect on_file on_count
step s i = elim (next_effect s.tasks i) [
  | none ↦ s
  | some (e, ts) ↦ record {
    handed = on_file e s.handed;
    downloaded = on_count e s.downloaded;
    tasks = ts;
  }
]

unfoldable pub run : Transfer → List ℕ → Transfer
unfolding step
run s [] = s
run s (i ∷ schedule) = run (step s i) schedule

-- A worker's task: its range, and the run of its loop.
pub task_of : WorkerRange → Run → Task
task_of w r = record { start = w.start; end = w.end; current = w.current; pending = r.0 }

-- The run of a worker that is not started.
abbrev pub no_run : Run
no_run = ([], some (ok tt))

-- The tasks that `multi_thread` spawns; a worker whose range is empty is not started.
pub spawn : (WorkerRange → Run) → List WorkerRange → List Task
unfolding task_of
spawn runs [] = []
spawn runs (w ∷ ws) = task_of w (if leb w.end w.start then no_run else runs w) ∷ spawn runs ws

unfoldable pub begin : (ℕ → ℕ) → List WorkerRange → (WorkerRange → Run) → Transfer
unfolding spawn
begin file ws runs = record { handed = file; downloaded = sum_done ws; tasks = spawn runs ws }

-- `snapshot` of the state-save task.
pub snapshot_ranges : List Task → List WorkerRange
snapshot_ranges [] = []
snapshot_ranges (t ∷ ts) =
    record { start = t.start; current = min t.current t.end; end = t.end } ∷ snapshot_ranges ts

unfoldable pub snapshot : Text → ℕ → Option Text → Option Text → Transfer → DownloadState
unfolding snapshot_ranges
snapshot url file_size etag last_modified s =
    with_resource_id (new url file_size (snapshot_ranges s.tasks)) etag last_modified
