-- ===== src/Checkpoint/Tests.antt =====
-- A worker is halfway, a checkpoint saves that, and the worker has written more when all ends.
use fast_downloader.Prelude.{
  ℕ, zero, suc, ◌+◌, ◌≡◌, ◌≢◌, refl, true, none, List, [], ◌∷◌, replicate, All, arith,
}
use fast_downloader.Prelude.Text.{codes, text_eq}
use fast_downloader.Prelude.Words.{add_u64, sub_u64}
use fast_downloader.Error.{Result, ok, err, io}
use fast_downloader.Config.{DownloaderConfig, default_config}
use fast_downloader.State.{
  WorkerRange, DownloadState, new, with_resource_id, validate, validate_workers, sum_done,
}
use fast_downloader.Store.{Disk, SaveFaults, apply_ops, save, load, load_from}
use fast_downloader.Store.Numbers.{written, read, numbers, numbers-IsCodec}
use fast_downloader.Worker.{
  Round, worker_loop, segment_loop, download_segment, after_segment, current_after,
}
use fast_downloader.Worker.Server.{
  short_round, round, short_round-IsHonest, round-IsHonest, bytes_from,
}
use fast_downloader.Worker.Loop.{IsHonest}
use fast_downloader.Transfer.{Transfer, begin, step, run, snapshot}
use fast_downloader.Transfer.Phase.{Agrees}
use fast_downloader.Transfer.Safety.{Holds, loops}
use fast_downloader.Checkpoint.{
  Saver, Saving, disk_now, Happening, works, ticks, syncs, saves, operates, carries_out, carry_out,
  happen, happen_all, start_saving,
}
use fast_downloader.Checkpoint.Stored.{Stores}
use fast_downloader.Checkpoint.Crash.{Succeeds, AllQuiet}
use fast_downloader.Checkpoint.Left.{Left, now, later}
use fast_downloader.Checkpoint.Resume.{first, power_loss_complete, process_kill_complete}

abbrev cfg : DownloaderConfig
cfg = default_config (codes "test")

abbrev content : ℕ → ℕ
content q = q + 65

abbrev blank : ℕ → ℕ
blank q = 0

abbrev ranges : List WorkerRange
ranges = record { start = 0; current = 0; end = 4 } ∷ []

abbrev empty_disk : Disk
empty_disk p = none

abbrev no_faults : SaveFaults
no_faults = record {
  created = ok tt;
  write_failure = none;
  flushed = ok tt;
  synced = ok tt;
  renamed = ok tt;
}

abbrev saver : Saver
saver = record {
  codec = numbers;
  path = codes "s";
  url = codes "u";
  file_size = 4;
  etag = none;
  last_modified = none;
  has_sync_file = true;
}

abbrev two_rounds : WorkerRange → List Round
two_rounds w = short_round content 2 ∷ round content ∷ []

abbrev one_round : WorkerRange → List Round
one_round w = round content ∷ []

-- The sync's result, and where the save is broken off.
abbrev happenings : Result (Unit {0}) → ℕ → List Happening
happenings synced k =
    works 0
    ∷ works 0
    ∷ works 0
    ∷ carries_out (λ q. true)
    ∷ ticks
    ∷ syncs synced
    ∷ saves no_faults
    ∷ works 0
    ∷ replicate k operates

abbrev begun : Saving
begun = first blank ranges empty_disk cfg none two_rounds

-- The medium has the first two bytes and no more, and the state file, once the save is through,
-- names them.
abbrev after_loss : Saving
after_loss = happen_all saver (happenings (ok tt) 10) begun

abbrev saved : DownloadState
saved = new (codes "u") 4 (record { start = 0; current = 2; end = 4 } ∷ [])

after_loss_loads : load numbers (disk_now saver after_loss) (codes "s") ≡ ok saved
unfolding happen_all disk_now start_saving snapshot new with_resource_id begin step worker_loop
    segment_loop download_segment after_segment current_after sum_done add_u64 sub_u64 bytes_from
    save apply_ops load load_from written read validate validate_workers text_eq
after_loss_loads = refl

-- Had the sync failed, the state would be saved all the same, and name bytes that the medium lacks.
abbrev unsynced : Saving
unsynced = happen_all saver (happenings (err (io (codes "sync"))) 10) begun

unsynced_loads :
    (load numbers (disk_now saver unsynced) (codes "s") ≡ ok saved)
    × (unsynced.medium 0 ≢ content 0)
unfolding happen_all disk_now start_saving snapshot new with_resource_id begin step worker_loop
    segment_loop download_segment after_segment current_after sum_done add_u64 sub_u64 bytes_from
    save apply_ops load load_from written read validate validate_workers text_eq
unsynced_loads = (refl, λ e. omega arith)

nothing_stored : Stores content 4 saver blank empty_disk
unfolding load load_from
nothing_stored s e = ground arith

ops_synced : (k : ℕ) → All Succeeds (replicate k operates)
ops_synced zero = tt
ops_synced (suc k) = (tt, ops_synced k)

happenings-Succeeds : All Succeeds (happenings (ok tt) 10)
happenings-Succeeds = (tt, (tt, (tt, (tt, (tt, (refl, (refl, (tt, ops_synced 10))))))))

ops_quiet : (k : ℕ) (w : Saving) → AllQuiet content 4 saver (replicate k operates) w
ops_quiet zero w = tt
ops_quiet (suc k) w = (tt, ops_quiet k (happen saver operates w))

-- The bytes handed over are in the file when the snapshot is taken.
settled : (r : Result (Unit {0})) → AllQuiet content 4 saver (happenings r 10) begun
unfolding happen carry_out
settled r = (tt, (tt, (tt, (tt, ((λ q. refl), (tt, (tt, (tt, ops_quiet 10 begun))))))))

-- The loss comes at the end, with all renames on the medium.
at_end :
    (es : List Happening) (w : Saving) → Left saver (disk_now saver (happen_all saver es w)) w es
unfolding happen_all
at_end [] w = now refl
at_end (e ∷ es) w = later (at_end es (happen saver e w))

blank-Holds : Holds content blank ranges
blank-Holds = ((λ q l h. absurd (omega arith)), tt)

two_rounds-IsHonest : All (λ r. All (IsHonest content) (two_rounds r)) ranges
two_rounds-IsHonest =
    ((short_round-IsHonest content 2 (omega arith), (round-IsHonest content, tt)), tt)

saved-IsHonest : All (λ r. All (IsHonest content) (one_round r)) saved.workers
unfolding new
saved-IsHonest = ((round-IsHonest content, tt), tt)

abbrev resumed : (ℕ → ℕ) → Transfer
resumed file = run (begin file saved.workers (loops cfg none one_round)) (0 ∷ 0 ∷ 0 ∷ [])

loss_counts : (resumed after_loss.medium).downloaded ≡ 4
unfolding new begin run worker_loop segment_loop download_segment after_segment current_after
    sum_done add_u64 sub_u64 bytes_from
loss_counts = refl

power_loss_complete_example : Agrees content (resumed after_loss.medium).handed 0 4
power_loss_complete_example =
    power_loss_complete content 4 saver blank ranges empty_disk cfg none two_rounds cfg none
      one_round (0 ∷ 0 ∷ 0 ∷ []) (happenings (ok tt) 10) after_loss saved
      (disk_now saver after_loss) (omega arith) (omega arith) blank-Holds two_rounds-IsHonest
      numbers-IsCodec nothing_stored refl (settled (ok tt)) happenings-Succeeds refl
      (at_end (happenings (ok tt) 10) begun) after_loss_loads saved-IsHonest loss_counts

-- The process ends, and the sync had failed.
kill_counts : (resumed unsynced.shown).downloaded ≡ 4
unfolding new begin run worker_loop segment_loop download_segment after_segment current_after
    sum_done add_u64 sub_u64 bytes_from
kill_counts = refl

process_kill_complete_example : Agrees content (resumed unsynced.shown).handed 0 4
process_kill_complete_example =
    process_kill_complete content 4 saver blank ranges empty_disk cfg none two_rounds cfg none
      one_round (0 ∷ 0 ∷ 0 ∷ []) (happenings (err (io (codes "sync"))) 10) unsynced saved
      (omega arith) (omega arith) blank-Holds two_rounds-IsHonest numbers-IsCodec nothing_stored
      (settled (err (io (codes "sync")))) refl unsynced_loads.0 saved-IsHonest kill_counts
