-- ===== src/Multi.antt =====
-- `multi_thread` of src/downloader.rs: the ranges that it starts from, the workers over the
-- interleaved transfer, and what their results come to. Opening and sizing the file are arguments.
-- `none` stands for a call that does not come back: a panic, or a worker still in its loop when the
-- rounds given to it are used up.
pub mod Outcomes
pub mod Sound
pub mod Succeeds
mod Tests
use fast_downloader.Prelude.{
  ℕ, zero, suc, Bool, true, false, not, ◌&&◌, ◌||◌, Option, none, some, List, [], ◌∷◌, leb, ◌==◌,
  if◌then◌else◌,
}
use fast_downloader.Prelude.Text.{Text, codes}
use fast_downloader.Error.{
  Error, Result, ok, err, io, size_mismatch, cancelled, unknown_length, is_cancelled,
  is_resource_changed,
}
use fast_downloader.Config.{DownloaderConfig}
use fast_downloader.State.{
  WorkerRange, DownloadState, matches_resource, is_empty, split_workers, state_path_for,
}
use fast_downloader.Store.{Disk, Codec, load}
use fast_downloader.Http.{FileInfo, if_range_validator}
use fast_downloader.Worker.{Round, Run, worker_loop}
use fast_downloader.Transfer.{Transfer, begin, run}

-- The guard of the match on the loaded state.
pub is_resumable : FileInfo → ℕ → DownloadState → Bool
is_resumable info file_size s =
    (s.file_size == file_size)
    && not (is_empty s.workers)
    && matches_resource s info.etag info.last_modified

pub choose_workers :
    DownloaderConfig → FileInfo → ℕ → ℕ → Result DownloadState → Option (List WorkerRange)
unfolding is_resumable
choose_workers cfg info file_size thread_count loaded = elim loaded [
  | err e ↦ split_workers file_size thread_count cfg.min_chunk_size
  | ok s ↦
      if is_resumable info file_size s
      then some s.workers
      else split_workers file_size thread_count cfg.min_chunk_size
]

-- What joining a worker gives: its result, or the message of a panic.
pub data Joined : Type 0 where
  finished : Result (Unit {0}) → Joined
  panicked : Text → Joined

-- The loop that collects the results: the first error, and whether a worker was cancelled.
pub record Collected : Type 0 where
  pub first_error : Option Error
  pub cancelled : Bool

pub keep_first : Option Error → Error → Option Error
keep_first none e = some e
keep_first (some first) e = some first

pub collect_one : Collected → Joined → Collected
unfolding keep_first is_cancelled
collect_one c (finished (ok _)) = c
collect_one c (finished (err e)) =
    if is_cancelled e
    then record c { cancelled = true }
    else record c { first_error = keep_first c.first_error e }
collect_one c (panicked message) = record c { first_error = keep_first c.first_error (io message) }

pub collect : Collected → List Joined → Collected
unfolding collect_one
collect c [] = c
collect c (j ∷ js) = collect (collect_one c j) js

-- The result, and whether the state file is deleted.
pub record Ended : Type 0 where
  pub result : Result Text
  pub state_deleted : Bool

-- From `if cancelled` on; `reopened` is the open before the last fsync.
pub conclude : Collected → ℕ → ℕ → Text → Result (Unit {0}) → Ended
conclude c total file_size path reopened =
    if c.cancelled
    then record { result = err cancelled; state_deleted = false }
    else elim c.first_error [
      | some e ↦ record { result = err e; state_deleted = is_resource_changed e }
      | none ↦
          if not (total == file_size)
          then record { result = err (size_mismatch file_size total); state_deleted = false }
          else elim reopened [
            | err e ↦ record { result = err e; state_deleted = false }
            | ok _ ↦ record { result = ok path; state_deleted = true }
          ]
    ]

-- What a run meets: the file as it is opened, or why it cannot be; the rounds of each worker, and
-- whether it panics; the order in which the workers act; and the last open.
pub record Meets : Type 0 where
  pub prepared : Result (Unit {0})
  pub file : ℕ → ℕ
  pub rounds : WorkerRange → List Round
  pub panic : WorkerRange → Option Text
  pub schedule : List ℕ
  pub reopened : Result (Unit {0})

-- What `h.await` gives for one worker.
pub join : Option Text → Run → Option Joined
join (some message) r = some (panicked message)
join none (es, none) = none
join none (es, some result) = some (finished result)

-- The handles in their order; a worker whose range is empty has none.
pub join_all :
    (WorkerRange → Option Text) → (WorkerRange → Run) → List WorkerRange → Option (List Joined)
unfolding join
join_all panic runs [] = some []
join_all panic runs (w ∷ ws) =
    let rest = join_all panic runs ws in
    if leb w.end w.start then rest else elim (join (panic w) (runs w)) [
      | none ↦ none
      | some j ↦ elim rest [ none ↦ none | some js ↦ some (j ∷ js) ]
    ]

-- The end of a run, and the transfer at that moment if it began.
pub record Multi : Type 0 where
  pub ended : Ended
  pub transfer : Option Transfer

pub fails : Error → Multi
fails e = record { ended = record { result = err e; state_deleted = false }; transfer = none }

pub workers_of : DownloaderConfig → Option Text → Meets → WorkerRange → Run
workers_of cfg if_range m w = worker_loop cfg w.end if_range 0 w.current (m.rounds w)

-- Nothing collected yet.
abbrev pub nothing : Collected
nothing = record { first_error = none; cancelled = false }

-- The transfer from the ranges, and its conclusion.
pub transfer_from : DownloaderConfig → FileInfo → Text → ℕ → Meets → List WorkerRange → Option Multi
unfolding workers_of join_all collect conclude
transfer_from cfg info path file_size m ws =
    let runs = workers_of cfg (if_range_validator info) m in
    let t = run (begin m.file ws runs) m.schedule in
    elim (join_all m.panic runs ws) [
      | none ↦ none
      | some js ↦ some (record {
        ended = conclude (collect nothing js) t.downloaded file_size path m.reopened;
        transfer = some t;
      })
    ]

-- `multi_thread` from the length that the probe found.
pub multi_thread_of :
    DownloaderConfig → FileInfo → Text → ℕ → Codec → Disk → Meets → Option ℕ → Option Multi
unfolding fails choose_workers transfer_from
multi_thread_of cfg info path thread_count codec disk m none = some (fails unknown_length)
multi_thread_of cfg info path thread_count codec disk m (some file_size) =
    elim (choose_workers cfg info file_size thread_count (load codec disk (state_path_for path))) [
      | none ↦ none
      | some ws ↦ elim m.prepared [
        | err e ↦ some (fails e)
        | ok _ ↦ transfer_from cfg info path file_size m ws
      ]
    ]

pub multi_thread : DownloaderConfig → FileInfo → Text → ℕ → Codec → Disk → Meets → Option Multi
unfolding multi_thread_of
multi_thread cfg info path thread_count codec disk m =
    multi_thread_of cfg info path thread_count codec disk m info.size
