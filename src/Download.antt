-- ===== src/Download.antt =====
-- `download` and `download_inner` of src/downloader.rs, and the events of src/progress.rs that they
-- emit themselves. `none` stands for a call that does not come back: a panic, or a transfer that is
-- still running when the rounds given to it are used up.
pub mod Verified
pub mod Events
mod Tests
use fast_downloader.Prelude.{
  ℕ, Bool, true, false, not, ◌&&◌, Option, none, some, List, [], ◌∷◌, ◌++◌, ltb, ◌==◌,
  if◌then◌else◌,
}
use fast_downloader.Prelude.Text.{Text}
use fast_downloader.Error.{Error, Result, ok, err, invalid_url, size_mismatch, is_cancelled}
use fast_downloader.Checksum.{Checksum, Hashes, verify_file}
use fast_downloader.Config.{DownloaderConfig, DownloadTask, DownloadOutcome}
use fast_downloader.Http.{FileInfo}
use fast_downloader.Store.{Disk, Codec}
use fast_downloader.Multi.{Meets, Multi, multi_thread}
use fast_downloader.Single.Loop.{Try, Finish, running, panicked, returned, single_thread}

pub data DownloadEvent : Type 0 where
  queued : ℕ → Text → DownloadEvent
  probing : ℕ → DownloadEvent
  started : ℕ → Option ℕ → Bool → ℕ → Text → DownloadEvent
  progress : ℕ → ℕ → Option ℕ → ℕ → Option ℕ → DownloadEvent
  completed : ℕ → Text → ℕ → ℕ → DownloadEvent
  failed : ℕ → Error → DownloadEvent
  was_cancelled : ℕ → DownloadEvent

pub event_id : DownloadEvent → ℕ
event_id (queued id url) = id
event_id (probing id) = id
event_id (started id total supports_range thread_count path) = id
event_id (progress id downloaded total speed_bps eta_secs) = id
event_id (completed id path size elapsed) = id
event_id (failed id e) = id
event_id (was_cancelled id) = id

-- What a download meets: whether the URL parses, how the directory is made, the probe (cancelled or
-- not), what the two kinds of transfer meet, the finished file, and the clock.
pub record Meeting : Type 0 where
  pub is_url : Bool
  pub directory : Result (Unit {0})
  pub probed : Result FileInfo
  pub codec : Codec
  pub disk : Disk
  pub meets : Meets
  pub file : List ℕ
  pub tries : List Try
  pub measured : Result ℕ
  pub opened : Result (Unit {0})
  pub reads : List (Result (List ℕ))
  pub elapsed : ℕ

-- `removed`: the finished file and the state file are deleted.
pub record Inner : Type 0 where
  pub result : Result DownloadOutcome
  pub events : List DownloadEvent
  pub removed : Bool

pub gives_up : Error → List DownloadEvent → Inner
gives_up e events = record { result = err e; events = events; removed = false }

-- `n.clamp(1, max_threads)`, which panics where the bounds are the wrong way round.
pub clamp_threads : ℕ → ℕ → Option ℕ
clamp_threads n max_threads =
    if ltb max_threads 1
    then none
    else some (if ltb n 1 then 1 else if ltb max_threads n then max_threads else n)

pub thread_count_or : Option ℕ → ℕ → ℕ
thread_count_or none default = default
thread_count_or (some n) default = n

pub is_positive : Option ℕ → Bool
is_positive none = false
is_positive (some s) = ltb 0 s

pub can_multi : FileInfo → ℕ → Bool
unfolding is_positive
can_multi info threads = info.supports_range && is_positive info.size && ltb 1 threads

pub multi_result : Option Multi → Option (Result Text)
multi_result none = none
multi_result (some r) = some (r.ended.result)

pub single_result : Finish → Option (Result Text)
single_result running = none
single_result panicked = none
single_result (returned r) = some r

-- The transfer that is chosen.
pub fetch : DownloaderConfig → DownloadTask → FileInfo → ℕ → Meeting → Option (Result Text)
unfolding can_multi multi_result single_result
fetch cfg task info threads m =
    if can_multi info threads
    then multi_result (multi_thread cfg info task.save_path threads m.codec m.disk m.meets)
    else single_result ((single_thread cfg info task.save_path 0 m.file m.tries).1)

-- The caller's checksum, or else the server's if that is enabled.
pub expected_checksum : DownloaderConfig → DownloadTask → FileInfo → Option Checksum
expected_checksum cfg task info = elim task.expected_checksum [
  | some c ↦ some c
  | none ↦ if cfg.verify_server_digest then info.digest else none
]

pub differs : Option ℕ → ℕ → Bool
differs none size = false
differs (some expected) size = not (size == expected)

pub expected_or : Option ℕ → ℕ → ℕ
expected_or none size = size
expected_or (some expected) size = expected

-- From the size check on.
pub check_finished :
    Hashes
    → DownloadTask
    → FileInfo
    → Option Checksum
    → Meeting
    → List DownloadEvent
    → Text
    → ℕ
    → Inner
unfolding gives_up differs expected_or
check_finished h task info expected m events path size =
    let done : Inner = record {
      result = ok (record { id = task.id; path = path; size = size; elapsed = m.elapsed });
      events = events;
      removed = false;
    } in
    if differs info.size size
    then gives_up (size_mismatch (expected_or info.size size) size) events
    else elim expected [
      | none ↦ done
      | some c ↦ elim (verify_file h m.opened m.reads c) [
        | err e ↦ record { result = err e; events = events; removed = true }
        | ok _ ↦ done
      ]
    ]

pub finish :
    DownloaderConfig
    → Hashes
    → DownloadTask
    → FileInfo
    → Meeting
    → List DownloadEvent
    → Result Text
    → Inner
unfolding check_finished expected_checksum
finish cfg h task info m events (err e) = gives_up e events
finish cfg h task info m events (ok path) = elim m.measured [
  | err e ↦ gives_up e events
  | ok size ↦ check_finished h task info (expected_checksum cfg task info) m events path size
]

-- Behind the probe.
pub after_probe : DownloaderConfig → Hashes → DownloadTask → FileInfo → Meeting → Option Inner
unfolding clamp_threads thread_count_or fetch finish
after_probe cfg h task info m =
    elim (clamp_threads (thread_count_or task.thread_count cfg.default_threads) cfg.max_threads) [
      | none ↦ none
      | some threads ↦
          let events =
            started task.id info.size info.supports_range
              (if can_multi info threads then threads else 1) task.save_path
            ∷ [] in
          elim (fetch cfg task info threads m) [
            | none ↦ none
            | some r ↦ some (finish cfg h task info m events r)
          ]
    ]

pub download_inner : DownloaderConfig → Hashes → DownloadTask → Meeting → Option Inner
unfolding gives_up after_probe
download_inner cfg h task m =
    if not m.is_url then some (gives_up (invalid_url task.url) []) else elim m.directory [
      | err e ↦ some (gives_up e [])
      | ok _ ↦ elim m.probed [
        | err e ↦ some (gives_up e [])
        | ok info ↦ after_probe cfg h task info m
      ]
    ]

-- The event for the result.
pub last_event : ℕ → Result DownloadOutcome → DownloadEvent
unfolding is_cancelled
last_event id (ok out) = completed id out.path out.size out.elapsed
last_event id (err e) = if is_cancelled e then was_cancelled id else failed id e

-- The result with all events in their order; those of `progress_task` come in between.
pub download : DownloaderConfig → Hashes → DownloadTask → Meeting → Option Inner
unfolding download_inner last_event
download cfg h task m = elim (download_inner cfg h task m) [
  | none ↦ none
  | some r ↦
      some (record r { events = probing task.id ∷ (r.events ++ last_event task.id r.result ∷ []) })
]
