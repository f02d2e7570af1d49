-- ===== src/Multi/Succeeds.antt =====
-- `multi_thread` of src/downloader.rs where nothing goes wrong to the end: its result is the path.
use fast_downloader.Prelude.{
  ℕ, ◌≤◌, ◌≡◌, inl, inr, refl, ap, ◌∙◌, some-injective, true, Option, none, some, List, [], ◌∷◌,
  All, arith, leb, Bool-cases, ==_iff,
}
use fast_downloader.Prelude.Text.{Text}
use fast_downloader.Error.{Result, ok}
use fast_downloader.Config.{DownloaderConfig}
use fast_downloader.State.{WorkerRange, DownloadState, state_path_for}
use fast_downloader.Store.{Disk, Codec, load}
use fast_downloader.Http.{FileInfo, if_range_validator}
use fast_downloader.Worker.{Run}
use fast_downloader.Worker.Trace.{max_slice}
use fast_downloader.Worker.Loop.{IsHonest}
use fast_downloader.Transfer.Safety.{Holds}
use fast_downloader.Transfer.Completion.{Finished, AllOk, AllOk-downloaded}
use fast_downloader.Multi.{
  is_resumable, choose_workers, Joined, finished, nothing, collect, conclude, Meets, workers_of,
  join, join_all, transfer_from, multi_thread, multi_thread_of,
}
use fast_downloader.Multi.Sound.{choose_workers-Startable, transferred}

join-returned :
    (o : Option Text) (r : Run) (x : Result (Unit {0}))
    → o ≡ none
    → r.1 ≡ some x
    → join o r ≡ some (finished x)
unfolding join
join-returned (some s) r x calm h = cc
join-returned none (es, none) x calm h = cc
join-returned none (es, some y) x calm h = ap (λ z. some (finished z)) (some-injective h)

-- Results without an error leave nothing to report.
join_all-ok :
    (panic : WorkerRange → Option Text) (runs : WorkerRange → Run) (ws : List WorkerRange)
    → All (λ w. panic w ≡ none) ws
    → All (λ w. (runs w).1 ≡ some (ok tt)) ws
    → (js : List Joined) × (join_all panic runs ws ≡ some js) × (collect nothing js ≡ nothing)
unfolding join_all collect
join_all-ok panic runs [] calm oks = ([], refl, refl)
join_all-ok panic runs (w ∷ ws) calm oks =
    let (js, joined, clean) = join_all-ok panic runs ws calm.1 oks.1 in
    elim (Bool-cases (leb w.end w.start)) [
      | inl empty ↦ (js, rw (empty) joined, clean)
      | inr spawned ↦
          let one : join (panic w) (runs w) ≡ some (finished (ok tt)) =
            join-returned (panic w) (runs w) (ok tt) calm.0 oks.0 in
          (finished (ok tt) ∷ js, rw (spawned, one, joined) refl, clean)
    ]

-- When the file, of at most 2^63 bytes, can be opened and sized, and opened again at the end, no
-- worker panics, each returns without an error and all that they did has happened, in any order,
-- `multi_thread` ends with the path and deletes the state file: from the ranges it chose, fresh
-- or saved ones, that name only what the file holds, with a server that sends no other bytes than
-- the resource's and no 416, where no write fails in the background.
pub multi_thread-succeeds :
    (content : ℕ → ℕ) (cfg : DownloaderConfig) (info : FileInfo) (path : Text)
    (size thread_count : ℕ) (c : Codec) (d : Disk) (m : Meets) (ws : List WorkerRange)
    → info.size ≡ some size
    → size ≤ max_slice
    → ((s : DownloadState)
        → load c d (state_path_for path) ≡ ok s
        → is_resumable info size s ≡ true
        → Holds content m.file s.workers)
    → choose_workers cfg info size thread_count (load c d (state_path_for path)) ≡ some ws
    → m.prepared ≡ ok tt
    → m.reopened ≡ ok tt
    → All (λ w. m.panic w ≡ none) ws
    → All (λ w. All (IsHonest content) (m.rounds w)) ws
    → AllOk content cfg (if_range_validator info) m.rounds ws
    → Finished (transferred cfg info path m ws)
    → multi_thread cfg info path thread_count c d m
      ≡ some (record {
        ended = record { result = ok path; state_deleted = true };
        transfer = some (transferred cfg info path m ws);
      })
unfolding multi_thread multi_thread_of transfer_from workers_of conclude
multi_thread-succeeds content cfg info path size thread_count c d m ws known bound holds chosen
      opened reopened calm honest oks ended =
    let start =
      choose_workers-Startable content m.file cfg info size thread_count c d (state_path_for path)
        ws (omega arith) holds chosen in
    let total =
      AllOk-downloaded content cfg (if_range_validator info) m.rounds m.file size ws m.schedule
        bound start.0 start.1 honest oks ended in
    let (js, joined, clean) =
      join_all-ok m.panic (workers_of cfg (if_range_validator info) m) ws calm oks in
    ap (multi_thread_of cfg info path thread_count c d m) known
    ∙ rw
        (
          multi_thread_of,
          chosen,
          opened,
          transfer_from,
          joined,
          clean,
          total,
          conclude,
          (==_iff size size).1 refl,
          reopened,
        )
        refl
