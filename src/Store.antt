-- ===== src/Store.antt =====
-- `save`, `load` and `delete` of src/state.rs over a disk that maps a path to the content of the
-- file there. The JSON codec is a library: a parameter. `tokio::fs` is `std::fs` run on other
-- threads. What `save` does is a list of operations, so that a crash is a prefix of it; a write
-- happens byte by byte.
pub mod Atomic
pub mod Reload
pub mod Numbers
mod Tests
use fast_downloader.Prelude.{
  ℕ, Bool, true, false, Option, none, some, List, [], ◌∷◌, ◌++◌, map, take, if◌then◌else◌,
}
use fast_downloader.Prelude.Text.{Text, codes, text_eq}
use fast_downloader.Error.{Error, Result, ok, err, ◌>>=◌, io}
use fast_downloader.State.{DownloadState, validate}

abbrev pub Disk : Type 0
Disk = Text → Option (List ℕ)

-- `serde_json`: `to_vec` and `from_slice`, with the errors as the code maps them.
pub record Codec : Type 0 where
  pub to_vec : DownloadState → Result (List ℕ)
  pub from_slice : List ℕ → Result DownloadState

pub update : Disk → Text → Option (List ℕ) → Disk
update d p content q = if text_eq p q then content else d q

pub data DiskOp : Type 0 where
  create : Text → DiskOp
  append : Text → ℕ → DiskOp
  sync : Text → DiskOp
  rename : Text → Text → DiskOp

pub appended : Option (List ℕ) → ℕ → Option (List ℕ)
appended none b = none
appended (some content) b = some (content ++ b ∷ [])

pub apply_op : DiskOp → Disk → Disk
unfolding update appended
apply_op (create p) d = update d p (some [])
apply_op (append p b) d = update d p (appended (d p) b)
apply_op (sync p) d = d
apply_op (rename p q) d = update (update d q (d p)) p none

unfoldable pub apply_ops : List DiskOp → Disk → Disk
unfolding apply_op
apply_ops [] d = d
apply_ops (o ∷ os) d = apply_ops os (apply_op o d)

-- How the calls of `save` end: the write may fail after some bytes, which `write_all` or `flush`
-- reports. `sync_all` and its result make no difference to what a process sees; they do to what a
-- power loss leaves (Checkpoint.Left).
pub record SaveFaults : Type 0 where
  pub created : Result (Unit {0})
  pub write_failure : Option (ℕ × Error)
  pub flushed : Result (Unit {0})
  pub synced : Result (Unit {0})
  pub renamed : Result (Unit {0})

pub tmp_path : Text → Text
tmp_path path = path ++ codes ".tmp"

-- What a write of the bytes to the temporary file does.
pub write_ops : Text → List ℕ → List DiskOp
write_ops p bs = map (append p) bs

-- And `sync_all`, whose result is ignored.
pub synced_ops : Text → List ℕ → List DiskOp
unfolding write_ops
synced_ops p bs = write_ops p bs ++ sync p ∷ []

-- `save` once the state is serialized: what it does to the disk, and its result.
pub save_bytes : Text → List ℕ → SaveFaults → List DiskOp × Result (Unit {0})
unfolding tmp_path write_ops synced_ops
save_bytes path bytes f =
    let tmp = tmp_path path in
    elim f.created [
      | err e ↦ ([], err e)
      | ok _ ↦ elim f.write_failure [
        | some (k, e) ↦ (create tmp ∷ write_ops tmp (take k bytes), err e)
        | none ↦ elim f.flushed [
          | err e ↦ (create tmp ∷ write_ops tmp bytes, err e)
          | ok _ ↦ elim f.renamed [
            | err e ↦ (create tmp ∷ synced_ops tmp bytes, err e)
            | ok _ ↦ (create tmp ∷ (synced_ops tmp bytes ++ rename tmp path ∷ []), ok tt)
          ]
        ]
      ]
    ]

unfoldable pub save : Codec → Text → DownloadState → SaveFaults → List DiskOp × Result (Unit {0})
unfolding save_bytes
save c path s f = elim (c.to_vec s) [ err e ↦ ([], err e) | ok bytes ↦ save_bytes path bytes f ]

-- `load` of what is at the path; the error for a file that is not there is the system's.
unfoldable pub load_from : Codec → Option (List ℕ) → Result DownloadState
load_from c none = err (io (codes "not found"))
load_from c (some bytes) = do s ← c.from_slice bytes; _ ← validate s; ok s

unfoldable pub load : Codec → Disk → Text → Result DownloadState
unfolding load_from
load c d path = load_from c (d path)

-- `delete`: `remove_file`, its result ignored.
pub delete : Disk → Text → Disk
unfolding update
delete d path = update d path none
