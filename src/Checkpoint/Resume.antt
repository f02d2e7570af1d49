-- ===== src/Checkpoint/Resume.antt =====
-- src/downloader.rs, src/state.rs: the run after a crash goes on from the state that `load`
-- finds, and from what is left of the data file.
use fast_downloader.Prelude.{ℕ, ◌≤◌, ◌≡◌, sym, subst, true, Option, List, All}
use fast_downloader.Prelude.Text.{Text}
use fast_downloader.Error.{ok}
use fast_downloader.Config.{DownloaderConfig}
use fast_downloader.State.{WorkerRange, DownloadState}
use fast_downloader.State.Partition.{Tiles}
use fast_downloader.Store.{Disk, load}
use fast_downloader.Store.Reload.{IsCodec}
use fast_downloader.Worker.{Round}
use fast_downloader.Worker.Trace.{max_slice}
use fast_downloader.Worker.Loop.{IsHonest}
use fast_downloader.Transfer.{begin, run}
use fast_downloader.Transfer.Phase.{Agrees}
use fast_downloader.Transfer.Safety.{Holds, loops, begin-IsSound, downloaded_complete}
use fast_downloader.Checkpoint.{Saver, Saving, Happening, disk_now, happen_all, start_saving}
use fast_downloader.Checkpoint.Stored.{Stores}
use fast_downloader.Checkpoint.Invariant.{Inv, crash-Stores}
use fast_downloader.Checkpoint.Crash.{Succeeds, Durable, AllQuiet, happen_all-killed}
use fast_downloader.Checkpoint.Left.{Left, Left-Stores}

-- The two tasks at the start of a run, with the medium up to date.
abbrev pub first :
    (ℕ → ℕ)
    → List WorkerRange
    → Disk
    → DownloaderConfig
    → Option Text
    → (WorkerRange → List Round)
    → Saving
first file ws disk cfg if_range rounds =
    start_saving (begin file ws (loops cfg if_range rounds)) file disk

-- A first run from ranges that tile the file and name what it holds, with the medium up to date
-- and a state file, if there is one, that names no more; and a second run, with another
-- configuration and another course of events.
module _ (content : ℕ → ℕ) (size : ℕ) (v : Saver) (file : ℕ → ℕ) (ws : List WorkerRange)
    (disk : Disk) (cfg : DownloaderConfig) (if_range : Option Text)
    (rounds : WorkerRange → List Round) (cfg' : DownloaderConfig) (if_range' : Option Text)
    (rounds' : WorkerRange → List Round) (schedule' : List ℕ) (es : List Happening) (w : Saving)
    (s : DownloadState) where
  abbrev begun : Saving
  begun = first file ws disk cfg if_range rounds

  first-Inv :
      size ≤ max_slice
      → Tiles 0 size ws
      → Holds content file ws
      → All (λ r. All (IsHonest content) (rounds r)) ws
      → Stores content size v file disk
      → Inv content size v begun.medium begun
  unfolding start_saving begin
  first-Inv bound t h honest stores = record {
    sound = begin-IsSound content cfg if_range rounds file size ws bound t h honest;
    shows = λ q h. h;
    knows = tt;
    stores = stores;
  }

  first-killed :
      size ≤ max_slice
      → Tiles 0 size ws
      → Holds content file ws
      → All (λ r. All (IsHonest content) (rounds r)) ws
      → Stores content size v file disk
      → Inv content size v begun.shown begun
  unfolding start_saving begin
  first-killed bound t h honest stores = first-Inv bound t h honest stores

  first-behind : (q : ℕ) → begun.medium q ≡ content q → begun.shown q ≡ content q
  unfolding start_saving begin
  first-behind q h = h

  -- The second run, from what is left of the file.
  second_run :
      (left : ℕ → ℕ)
      → size ≤ max_slice
      → Tiles 0 size s.workers × Holds content left s.workers
      → All (λ r. All (IsHonest content) (rounds' r)) s.workers
      → (run (begin left s.workers (loops cfg' if_range' rounds')) schedule').downloaded ≡ size
      → Agrees content
          (run (begin left s.workers (loops cfg' if_range' rounds')) schedule').handed
          0
          size
  second_run left bound (tiles, holds) honest total =
      downloaded_complete content cfg' if_range' rounds' left size s.workers schedule' bound tiles
        holds honest total

  -- A power loss at any moment of a download is survived, if `durable_resume` is set, the data
  -- file could be opened to sync it, each sync succeeds, of the data file and of the state, and
  -- no write handed over is under way where a snapshot is taken. Whatever part of the file the
  -- system had written back, wherever a save was broken off, and if the state file is as it was
  -- at any earlier moment: if `load` then finds a state, and a second run from it, on the bytes
  -- that the medium has, counts as many bytes as the resource has, the file holds the resource
  -- once that run's writes are carried out. The resource has at most 2^63 bytes; in both runs the
  -- server sends no other bytes than its own and no 416, and no write fails in the background;
  -- the codec reads back what it wrote; the first run starts from ranges that tile the file and
  -- name what it holds, and a state file that is there names no more.
  pub power_loss_complete :
      (left : Disk)
      → size ≤ max_slice
      → Tiles 0 size ws
      → Holds content file ws
      → All (λ r. All (IsHonest content) (rounds r)) ws
      → IsCodec v.codec
      → Stores content size v file disk
      → v.has_sync_file ≡ true
      → AllQuiet content size v es (first file ws disk cfg if_range rounds)
      → All Succeeds es
      → w ≡ happen_all v es (first file ws disk cfg if_range rounds)
      → Left v left (first file ws disk cfg if_range rounds) es
      → load v.codec left v.path ≡ ok s
      → All (λ r. All (IsHonest content) (rounds' r)) s.workers
      → (run (begin w.medium s.workers (loops cfg' if_range' rounds')) schedule').downloaded ≡ size
      → Agrees content
          (run (begin w.medium s.workers (loops cfg' if_range' rounds')) schedule').handed
          0
          size
  power_loss_complete left bound t h honest law stores has quiet good e here loaded honest' total =
      let start : Durable content size v begun = record {
        inv = first-Inv bound t h honest stores;
        behind = first-behind;
      } in
      let kept : Stores content size v w.medium left =
        subst (λ (x : Saving). Stores content size v x.medium left) (sym e)
          (Left-Stores content size v law bound has left es begun quiet good start here) in
      second_run w.medium bound (kept s loaded) honest' total

  -- The end of the process at any moment of a download is survived, whether or not the file is
  -- synced and whatever the syncs do, if no write handed over is under way where a snapshot is
  -- taken: if `load` then finds a state, and a second run from it, on the bytes that the system
  -- shows of the file, counts as many bytes as the resource has, the file holds the resource once
  -- that run's writes are carried out. The resource has at most 2^63 bytes; in both runs the
  -- server sends no other bytes than its own and no 416, and no write fails in the background;
  -- the codec reads back what it wrote; the first run starts from ranges that tile the file and
  -- name what it holds, and a state file that is there names no more.
  pub process_kill_complete :
      size ≤ max_slice
      → Tiles 0 size ws
      → Holds content file ws
      → All (λ r. All (IsHonest content) (rounds r)) ws
      → IsCodec v.codec
      → Stores content size v file disk
      → AllQuiet content size v es (first file ws disk cfg if_range rounds)
      → w ≡ happen_all v es (first file ws disk cfg if_range rounds)
      → load v.codec (disk_now v w) v.path ≡ ok s
      → All (λ r. All (IsHonest content) (rounds' r)) s.workers
      → (run (begin w.shown s.workers (loops cfg' if_range' rounds')) schedule').downloaded ≡ size
      → Agrees content
          (run (begin w.shown s.workers (loops cfg' if_range' rounds')) schedule').handed
          0
          size
  process_kill_complete bound t h honest law stores quiet e loaded honest' total =
      let here : Inv content size v w.shown w =
        subst (λ x. Inv content size v x.shown x) (sym e)
          (happen_all-killed content size v es begun law bound quiet
            (first-killed bound t h honest stores)) in
      second_run w.shown bound (crash-Stores content size v w law here s loaded) honest' total
