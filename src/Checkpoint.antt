-- ===== src/Checkpoint.antt =====
-- `state_save_task` of src/downloader.rs beside the workers: each of its checkpoints takes a
-- snapshot, syncs the data file if that is asked for, and saves, while the workers go on. The
-- data file is what the writes handed over make of it (the transfer's `handed`), what the system
-- shows of it, and what a power loss leaves of it (the medium).
pub mod Stored
pub mod Invariant
pub mod Crash
pub mod Left
pub mod Resume
mod Tests
use fast_downloader.Prelude.{
  ℕ, suc, Bool, true, false, ◌&&◌, Option, List, [], ◌∷◌, length, take, ltb, if◌then◌else◌,
}
use fast_downloader.Prelude.Text.{Text}
use fast_downloader.Error.{Result, ok, err}
use fast_downloader.State.{DownloadState}
use fast_downloader.Store.{Codec, Disk, DiskOp, SaveFaults, apply_ops, save}
use fast_downloader.Transfer.{Transfer, step, snapshot}

-- What the task is started with; `has_sync_file`: it could open the data file to sync it.
pub record Saver : Type 0 where
  pub codec : Codec
  pub path : Text
  pub url : Text
  pub file_size : ℕ
  pub etag : Option Text
  pub last_modified : Option Text
  pub has_sync_file : Bool

pub opens : Result (Unit {0}) → Bool
opens (ok _) = true
opens (err e) = false

-- `sync_file`: none unless `durable_resume` is set and the file can be opened.
pub open_sync_file : Bool → Result (Unit {0}) → Bool
unfolding opens
open_sync_file durable_resume opened = durable_resume && opens opened

-- Where a checkpoint is: none is under way, or it holds its snapshot, before the sync or behind
-- it, or it has done so many operations of its save.
pub data Checkpoint : Type 0 where
  waiting : Checkpoint
  taken : DownloadState → Checkpoint
  synced : DownloadState → Checkpoint
  saving : DownloadState → SaveFaults → ℕ → Checkpoint

-- `disk` holds the state file as it was before the save that is under way.
pub record Saving : Type 0 where
  pub transfer : Transfer
  pub shown : ℕ → ℕ
  pub medium : ℕ → ℕ
  pub disk : Disk
  pub checkpoint : Checkpoint

pub save_ops : Saver → DownloadState → SaveFaults → List DiskOp
save_ops v s f = (save v.codec v.path s f).0

pub disk_at : Saver → Disk → Checkpoint → Disk
unfolding save_ops
disk_at v d waiting = d
disk_at v d (taken s) = d
disk_at v d (synced s) = d
disk_at v d (saving s f k) = apply_ops (take k (save_ops v s f)) d

-- The disk as a crash at this moment leaves it.
pub disk_now : Saver → Saving → Disk
unfolding disk_at
disk_now v w = disk_at v w.disk w.checkpoint

pub snapshot_taken : Saver → Transfer → Checkpoint → Checkpoint
snapshot_taken v t waiting = taken (snapshot v.url v.file_size v.etag v.last_modified t)
snapshot_taken v t c = c

-- The ticker fires, or the task is stopped: the snapshot.
pub take_snapshot : Saver → Saving → Saving
unfolding snapshot_taken
take_snapshot v w = record w { checkpoint = snapshot_taken v w.transfer w.checkpoint }

-- What is on the medium behind the sync: all that the system shows of the file, if there is a file to sync and the call
-- succeeds.
pub synced_medium : Bool → Result (Unit {0}) → (ℕ → ℕ) → (ℕ → ℕ) → Checkpoint → ℕ → ℕ
synced_medium true (ok _) file medium (taken s) = file
synced_medium has_file r file medium c = medium

pub sync_done : Checkpoint → Checkpoint
sync_done (taken s) = synced s
sync_done c = c

-- `sync_data`; its result is ignored.
pub sync_data : Saver → Result (Unit {0}) → Saving → Saving
unfolding synced_medium sync_done
sync_data v r w = record w {
  medium = synced_medium v.has_sync_file r w.shown w.medium w.checkpoint;
  checkpoint = sync_done w.checkpoint;
}

pub save_begun : SaveFaults → Checkpoint → Checkpoint
save_begun f (synced s) = saving s f 0
save_begun f c = c

pub begin_save : SaveFaults → Saving → Saving
unfolding save_begun
begin_save f w = record w { checkpoint = save_begun f w.checkpoint }

pub op_done : Saver → Checkpoint → Checkpoint
unfolding save_ops
op_done v (saving s f k) = if ltb k (length (save_ops v s f)) then saving s f (suc k) else waiting
op_done v c = c

-- All operations are done.
pub disk_after : Saver → Disk → Checkpoint → Disk
unfolding save_ops disk_at
disk_after v d (saving s f k) =
    if ltb k (length (save_ops v s f)) then d else disk_at v d (saving s f k)
disk_after v d c = d

-- The next operation of `save`, or its return; its result is ignored.
pub next_op : Saver → Saving → Saving
unfolding op_done disk_after
next_op v w = record w {
  disk = disk_after v w.disk w.checkpoint;
  checkpoint = op_done v w.checkpoint;
}

-- Writes in the background are carried out, whenever they come to it.
pub carry_out : (ℕ → Bool) → Saving → Saving
carry_out chosen w = record w { shown = λ q. if chosen q then w.transfer.handed q else w.shown q }

-- The system writes back what it chooses, whenever it chooses.
pub write_back : (ℕ → Bool) → Saving → Saving
write_back chosen w = record w { medium = λ q. if chosen q then w.shown q else w.medium q }

-- What happens next: an effect of one worker, or a step of the checkpoint, or
-- something in the background.
pub data Happening : Type 0 where
  works : ℕ → Happening
  ticks : Happening
  syncs : Result (Unit {0}) → Happening
  saves : SaveFaults → Happening
  operates : Happening
  carries_out : (ℕ → Bool) → Happening
  writes_back : (ℕ → Bool) → Happening

pub happen : Saver → Happening → Saving → Saving
unfolding take_snapshot sync_data begin_save next_op carry_out write_back
happen v (works i) w = record w { transfer = step w.transfer i }
happen v ticks w = take_snapshot v w
happen v (syncs r) w = sync_data v r w
happen v (saves f) w = begin_save f w
happen v operates w = next_op v w
happen v (carries_out chosen) w = carry_out chosen w
happen v (writes_back chosen) w = write_back chosen w

pub happen_all : Saver → List Happening → Saving → Saving
unfolding happen
happen_all v [] w = w
happen_all v (e ∷ es) w = happen_all v es (happen v e w)

-- The task is started with the transfer, on the files as they are.
pub start_saving : Transfer → (ℕ → ℕ) → Disk → Saving
start_saving transfer file disk = record {
  transfer = transfer;
  shown = file;
  medium = file;
  disk = disk;
  checkpoint = waiting;
}
