-- ===== src/Lib.antt =====
-- fast_downloader: a download library that fetches a file over HTTP in ranges, several at a time,
-- and resumes after an interruption. This is a model of it with the theorems that make it
-- correct.
--
-- The parts, and the files of the repository that they model:
--   * Error (src/error.rs): the error type, and the result type of all fallible code.
--   * State (src/state.rs): the saved progress. `validate`, `matches_resource`, `split_workers`.
--     State/Partition says what ranges should be: they tile the file.
--   * Store (src/state.rs): `save`, `load` and `delete` over a disk, with crashes.
--   * Checksum (src/checksum.rs): digests in hexadecimal, hashing a file, and the choice among
--     the digests that a server advertises.
--   * Config (src/downloader.rs, src/http.rs): configuration, tasks, `backoff`.
--   * Http (src/http.rs): `FileInfo`, the `If-Range` validator, the total of `Content-Range`,
--     `probe`.
--   * Worker (src/downloader.rs): `worker_loop` and `download_segment`.
--   * Transfer (src/downloader.rs): the workers of `multi_thread` under any interleaving, and the
--     snapshot that `state_save_task` takes at any moment.
--   * Checkpoint (src/downloader.rs, src/state.rs): `state_save_task` beside the workers, and
--     crashes.
--   * Multi (src/downloader.rs): `multi_thread` from the saved state to its result.
--   * Single (src/downloader.rs): `single_thread_attempt`, and the loop over it, `single_thread`.
--   * Filename (src/filename.rs): `sanitize`.
--   * Progress (src/progress.rs, src/downloader.rs): `SpeedMeter`, `progress_task` and `emit`.
--   * Download (src/downloader.rs, src/progress.rs): `download` with its events, and
--     `download_inner`.
--   * Queue (src/queue.rs): `DownloadQueue` as a step relation. Queue/Pool says what it promises.
--   * Disposition (src/filename.rs): `parse_content_disposition`, `derive_filename`.
--   * Prelude: what these share: lists, Boolean tests, texts, UTF-8, machine words.
--
-- How they interact: `download` probes, then chooses `multi_thread` or `single_thread` and checks
-- the finished file (Download). `multi_thread` loads a state (Store), checks it (State) against
-- what the probe found (Http), runs one `worker_loop` for each range (Worker), which share the
-- file and a count (Transfer), and joins them (Multi); the state saved meanwhile is where the
-- next run begins. `single_thread` needs no state: the length of the file is where it goes on.
--
-- State and operations: a worker's run is the list of its effects on the shared data, in their
-- order (write bytes, store the position, add to the count), and its result. What it meets
-- (responses, errors of file operations, cancellation) is an argument, so that a theorem holds
-- for all of it. A transfer is the file, the count and for each worker its position and remaining
-- effects; a schedule is a list of worker numbers, and each step performs the next effect of one
-- worker.
--
-- Writes: `write_all` of tokio's `File` returns when its bytes are handed to a write in the
-- background, which may fail after the worker has counted them (`carried_out` in Worker). The
-- file of a transfer (`handed`) is what it will hold once the writes handed over are carried out.
--
-- A checkpoint is a sequence of such steps too (snapshot, sync, each operation of the save).
-- Between any two, writes in the background are carried out, and the system may write back any
-- part of the data file. A crash is the end of the sequence: of the data file the end of the
-- process leaves what the system shows, a power loss what is on the medium, and the state file as
-- it was at any moment (Checkpoint.Left).
--
-- The queue is a state with the submissions numbered as they come; each is somewhere on its way
-- through the dispatcher and a spawned task. A step is what happens between two awaits: a call of
-- a client, a move of the dispatcher or of a task, or the end of a download (Queue.Steps). What
-- `download` returns is what the model of Download has for a meeting that the queue's
-- circumstances (Queue.Circumstances, any relation) allow, and a download may panic.
--
-- Numbers: natural numbers, with the wrap-around of `u64` additions written out. Sizes in the
-- transfer go up to `max_slice`, 2^63, so that a position plus a chunk stays below 2^64; a chunk,
-- as any slice in memory, is shorter than that. A text is the list of its characters' code
-- points.
--
-- Loops: those over streams, lists and digits are structural. `worker_loop` and `single_thread`
-- run over the rounds they are given; that they return after enough of them is a theorem of each.
-- The loop of `parse_params` has as many rounds as the header has characters, and more change
-- nothing.
--
-- Assumed of code elsewhere, as parameters with named hypotheses: the JSON codec reads back what
-- it wrote (Store.Reload.IsCodec), a digest over pieces is the digest of the whole
-- (Checksum.Verify.AreDigests), base64 decoding and percent decoding are any functions, a server
-- is honest where a theorem says so (Worker.Loop.IsHonest, Single.Answer.IsHonestReply). Built
-- into the model: only a worker itself stores to its position, and in `single_thread`, where
-- nobody looks at the file before the flush, a write that has returned is in the file.
--
-- Not modelled: the HTTP client and TLS, the clock (a tick may come at any moment), the
-- floating-point quotient of `speed_bps` (any function in its place), the sync of a file's name
-- and length, and the end of the dispatcher by the drop of every clone of a queue.
pub mod Prelude
pub mod Error
pub mod State
pub mod Checksum
pub mod Config
pub mod Worker
pub mod Transfer
pub mod Store
pub mod Http
pub mod Multi
pub mod Single
pub mod Filename
pub mod Progress
pub mod Download
pub mod Queue
pub mod Disposition
pub mod Checkpoint
