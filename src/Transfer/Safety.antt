-- ===== src/Transfer/Safety.antt =====
-- The multi-thread transfer of src/downloader.rs under every interleaving: the state that is saved
-- never runs ahead of the file, and the final byte count tells that the file is complete.
use native.Mathlib.Decide.{dec_lt}
use fast_downloader.Prelude.{
  ℕ, ◌+◌, ◌≤◌, ◌<◌, ◌≡◌, ◌≢◌, inl, inr, refl, Option, List, [], ◌∷◌, arith, All, leb, if◌then◌else◌,
  Bool-cases,
}
use fast_downloader.Prelude.Text.{Text}
use fast_downloader.Prelude.Words.{add_u64, sub_u64}
use fast_downloader.Error.{ok}
use fast_downloader.Config.{DownloaderConfig}
use fast_downloader.State.{WorkerRange, new, with_resource_id, validate, sum_done}
use fast_downloader.State.Partition.{Tiles, Tiles-le, sum_done-sum_remaining}
use fast_downloader.State.Validity.{validate-IsValid}
use fast_downloader.Worker.{Round, Run, worker_loop}
use fast_downloader.Worker.Trace.{Trace, done, max_slice}
use fast_downloader.Worker.Loop.{IsHonest, worker_loop-IsFaithful}
use fast_downloader.Transfer.{Transfer, Task, no_run, spawn, begin, run, snapshot, snapshot_ranges}
use fast_downloader.Transfer.Phase.{Agrees, ready, debt-Trace, Phase-below}
use fast_downloader.Transfer.Steps.{Safe, progress, owed, progress-le, IsSound, run-IsSound}

-- The file holds what the ranges say is done.
abbrev pub Holds : (ℕ → ℕ) → (ℕ → ℕ) → List WorkerRange → Type 0
Holds content file = All (λ w. Agrees content file w.start w.current)

-- The loops of the workers, each with what it meets in its rounds.
abbrev pub loops : DownloaderConfig → Option Text → (WorkerRange → List Round) → WorkerRange → Run
loops cfg if_range rounds w = worker_loop cfg w.end if_range 0 w.current (rounds w)

module _ (content : ℕ → ℕ) (cfg : DownloaderConfig) (if_range : Option Text)
    (rounds : WorkerRange → List Round) where
  task_Trace :
      (w : WorkerRange)
      → w.current ≤ w.end
      → w.end ≤ max_slice
      → All (IsHonest content) (rounds w)
      → Trace content w.end w.current
          (if leb w.end w.start then no_run else loops cfg if_range rounds w).0
  task_Trace w h e honest = elim (Bool-cases (leb w.end w.start)) [
    | inl empty ↦ rw empty done
    | inr some_bytes ↦
        rw some_bytes
          (worker_loop-IsFaithful content cfg w.end if_range 0 w.current (rounds w) h e honest).0
  ]

  spawn-Safe :
      (file : ℕ → ℕ) (lo hi : ℕ) (ws : List WorkerRange)
      → hi ≤ max_slice
      → Tiles lo hi ws
      → Holds content file ws
      → All (λ w. All (IsHonest content) (rounds w)) ws
      → Safe content file lo hi (spawn (loops cfg if_range rounds) ws)
        × (owed (spawn (loops cfg if_range rounds) ws) ≡ 0)
        × (progress (spawn (loops cfg if_range rounds) ws) ≡ sum_done ws)
  unfolding spawn owed progress sum_done add_u64 sub_u64
  spawn-Safe file lo hi [] bound t h honest = (t, refl, refl)
  spawn-Safe file lo hi (w ∷ ws) bound t h honest =
      let le = Tiles-le w.end hi ws t.3 in
      let (safe, none_owed, same) = spawn-Safe file w.end hi ws bound t.3 h.1 honest.1 in
      let trace = task_Trace w t.2 (omega arith) honest.0 in
      let sum = sum_done-sum_remaining w.end hi ws t.3 (omega arith) in
      (
        (t.0, t.1, t.2, ready h.0 trace, safe),
        omega (arith, debt-Trace trace, none_owed),
        omega (arith, same, sum),
      )

  pub begin-IsSound :
      (file : ℕ → ℕ) (size : ℕ) (ws : List WorkerRange)
      → size ≤ max_slice
      → Tiles 0 size ws
      → Holds content file ws
      → All (λ w. All (IsHonest content) (rounds w)) ws
      → IsSound content size (begin file ws (loops cfg if_range rounds))
  unfolding begin
  begin-IsSound file size ws bound t h honest =
      let (safe, none_owed, same) = spawn-Safe file 0 size ws bound t h honest in
      record { safe = safe; counted = omega (arith, none_owed, same) }

-- The ranges of a snapshot name only what the file holds.
snapshot_ranges-Tiles :
    (content file : ℕ → ℕ) (lo hi : ℕ) (ts : List Task)
    → Safe content file lo hi ts
    → Tiles lo hi (snapshot_ranges ts) × Holds content file (snapshot_ranges ts)
unfolding snapshot_ranges
snapshot_ranges-Tiles content file lo hi [] s = (s, tt)
snapshot_ranges-Tiles content file lo hi (t ∷ ts) s =
    let (tiles, holds) = snapshot_ranges-Tiles content file t.end hi ts s.4 in
    (
      (s.0, omega (arith, s.1, s.2), omega arith, tiles),
      ((λ q l h. Phase-below s.3 q l (omega arith)), holds),
    )

Tiles-ne-nil : (size : ℕ) (ws : List WorkerRange) → 0 < size → Tiles 0 size ws → ws ≢ []
Tiles-ne-nil size [] h t = λ e. omega arith
Tiles-ne-nil size (w ∷ ws) h t = λ e. cc

-- The snapshot of a transfer that is sound: its ranges tile the file and name only what it holds.
pub snapshot-Tiles :
    (content : ℕ → ℕ) (size : ℕ) (url : Text) (file_size : ℕ) (etag last_modified : Option Text)
    (s : Transfer)
    → IsSound content size s
    → Tiles 0 size (snapshot url file_size etag last_modified s).workers
      × Holds content s.handed (snapshot url file_size etag last_modified s).workers
unfolding snapshot new with_resource_id
snapshot-Tiles content size url file_size etag lm s sound =
    snapshot_ranges-Tiles content s.handed 0 size s.tasks sound.safe

-- At any moment of any interleaving the snapshot passes `validate`, and every byte that it names
-- as downloaded is in the file once the writes that were handed over by then have been carried
-- out. The resource has from 1 to 2^63 bytes. Whatever else the workers meet (errors, retries,
-- short answers), the server sends no other bytes than the resource's and no 416, no write fails
-- in the background, and the transfer starts from ranges that tile the file and name what it
-- holds.
pub snapshot_sound :
    (content : ℕ → ℕ) (cfg : DownloaderConfig) (if_range : Option Text)
    (rounds : WorkerRange → List Round) (file : ℕ → ℕ) (size : ℕ) (ws : List WorkerRange)
    (schedule : List ℕ) (url : Text) (etag last_modified : Option Text)
    → 0 < size
    → size ≤ max_slice
    → Tiles 0 size ws
    → Holds content file ws
    → All (λ w. All (IsHonest content) (rounds w)) ws
    → (validate (
          snapshot url size etag last_modified
            (run (begin file ws (loops cfg if_range rounds)) schedule))
        ≡ ok tt)
      × Holds content
          (run (begin file ws (loops cfg if_range rounds)) schedule).handed
          (snapshot url size etag last_modified
            (run (begin file ws (loops cfg if_range rounds)) schedule)).workers
unfolding snapshot new with_resource_id
snapshot_sound content cfg if_range rounds file size ws schedule url etag lm pos bound t h honest =
    let s = run (begin file ws (loops cfg if_range rounds)) schedule in
    let sound =
      run-IsSound content size (begin file ws (loops cfg if_range rounds)) schedule (omega arith)
        (begin-IsSound content cfg if_range rounds file size ws bound t h honest) in
    let (tiles, holds) = snapshot_ranges-Tiles content s.handed 0 size s.tasks sound.safe in
    (
      (validate-IsValid (snapshot url size etag lm s)).1
          (record { version = refl; some_workers = Tiles-ne-nil size _ pos tiles; tiles = tiles }),
      holds,
    )

-- Positions that add up to the whole are all at their ends.
Safe-full :
    (content file : ℕ → ℕ) (lo hi : ℕ) (ts : List Task)
    → Safe content file lo hi ts
    → lo + progress ts ≡ hi
    → Agrees content file lo hi
unfolding progress
Safe-full content file lo hi [] s e = λ q l h. absurd (omega arith)
Safe-full content file lo hi (t ∷ ts) s e =
    let rest = progress-le content file t.end hi ts s.4 in
    λ q l h. elim (dec_lt q t.end) [
      | yes mine ↦ Phase-below s.3 q (omega arith) (omega arith)
      | no later ↦ Safe-full content file t.end hi ts s.4 (omega arith) q (omega arith) h
    ]

-- Once the shared count is the file's size, which is what `multi_thread` tests at the end, the
-- file is the resource as soon as the writes handed over have been carried out: under every
-- interleaving, for at most 2^63 bytes, from a server that sends no other bytes than the
-- resource's and no 416, where no write fails in the background, and from ranges that tile the
-- file and name what it holds.
pub downloaded_complete :
    (content : ℕ → ℕ) (cfg : DownloaderConfig) (if_range : Option Text)
    (rounds : WorkerRange → List Round) (file : ℕ → ℕ) (size : ℕ) (ws : List WorkerRange)
    (schedule : List ℕ)
    → size ≤ max_slice
    → Tiles 0 size ws
    → Holds content file ws
    → All (λ w. All (IsHonest content) (rounds w)) ws
    → (run (begin file ws (loops cfg if_range rounds)) schedule).downloaded ≡ size
    → Agrees content (run (begin file ws (loops cfg if_range rounds)) schedule).handed 0 size
downloaded_complete content cfg if_range rounds file size ws schedule bound t h honest total =
    let s = run (begin file ws (loops cfg if_range rounds)) schedule in
    let sound =
      run-IsSound content size (begin file ws (loops cfg if_range rounds)) schedule (omega arith)
        (begin-IsSound content cfg if_range rounds file size ws bound t h honest) in
    Safe-full content s.handed 0 size s.tasks sound.safe
      (omega (arith, sound.counted, total, progress-le content s.handed 0 size s.tasks sound.safe))
