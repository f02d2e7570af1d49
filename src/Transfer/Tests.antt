-- ===== src/Transfer/Tests.antt =====
-- A resource of four bytes fetched by two workers, and the theorems on the transfer at it.
use fast_downloader.Prelude.{ℕ, ◌+◌, ◌≡◌, refl, false, none, some, List, [], ◌∷◌, arith, All}
use fast_downloader.Prelude.Text.{codes}
use fast_downloader.Prelude.Words.{add_u64, sub_u64}
use fast_downloader.Error.{ok, err, io}
use fast_downloader.Config.{DownloaderConfig, default_config}
use fast_downloader.State.{WorkerRange, validate, sum_done, new, with_resource_id}
use fast_downloader.Worker.{
  Round, Response, partial_content, worker_loop, segment_loop, download_segment, after_segment,
  current_after,
}
use fast_downloader.Worker.Server.{served, round, round-IsHonest, bytes_from}
use fast_downloader.Worker.Loop.{IsHonest}
use fast_downloader.Transfer.{Transfer, write, begin, run, snapshot, snapshot_ranges}
use fast_downloader.Transfer.Phase.{Agrees}
use fast_downloader.Transfer.Safety.{Holds, loops, snapshot_sound, downloaded_complete}
use fast_downloader.Transfer.Completion.{Finished, AllOk}
use fast_downloader.Transfer.Unsatisfiable.{one_worker, taken_for_done, unsatisfiable-resumes}

abbrev cfg : DownloaderConfig
cfg = default_config (codes "test")

abbrev content : ℕ → ℕ
content q = q + 65

abbrev blank : ℕ → ℕ
blank q = 0

abbrev ranges : List WorkerRange
ranges =
    record { start = 0; current = 0; end = 2 } ∷ record { start = 2; current = 2; end = 4 } ∷ []

abbrev once : WorkerRange → List Round
once w = round content ∷ []

-- The workers take turns, three effects each.
abbrev turns : List ℕ
turns = 0 ∷ 1 ∷ 0 ∷ 1 ∷ 1 ∷ 0 ∷ []

blank-Holds : Holds content blank ranges
blank-Holds = ((λ q l h. absurd (omega arith)), ((λ q l h. absurd (omega arith)), tt))

All-IsHonest : (ws : List WorkerRange) → All (λ w. All (IsHonest content) (once w)) ws
All-IsHonest [] = tt
All-IsHonest (w ∷ ws) = ((round-IsHonest content, tt), All-IsHonest ws)

counts_all : (run (begin blank ranges (loops cfg none once)) turns).downloaded ≡ 4
unfolding run begin worker_loop segment_loop download_segment after_segment current_after sum_done
    add_u64 sub_u64 bytes_from
counts_all = refl

snapshot_sound_example :
    (validate (
        snapshot
          (codes "u")
          4
          none
          none
          (run (begin blank ranges (loops cfg none once)) (0 ∷ 1 ∷ 0 ∷ [])))
      ≡ ok tt)
    × Holds content
        (run (begin blank ranges (loops cfg none once)) (0 ∷ 1 ∷ 0 ∷ [])).handed
        (snapshot
          (codes "u")
          4
          none
          none
          (run (begin blank ranges (loops cfg none once)) (0 ∷ 1 ∷ 0 ∷ []))).workers
snapshot_sound_example =
    snapshot_sound content cfg none once blank 4 ranges (0 ∷ 1 ∷ 0 ∷ []) (codes "u") none none
      (omega arith) (omega arith) (omega arith) blank-Holds (All-IsHonest ranges)

downloaded_complete_example :
    Agrees content (run (begin blank ranges (loops cfg none once)) turns).handed 0 4
downloaded_complete_example =
    downloaded_complete content cfg none once blank 4 ranges turns (omega arith) (omega arith)
      blank-Holds (All-IsHonest ranges) counts_all

returns_ok : AllOk content cfg none once ranges
unfolding worker_loop segment_loop download_segment after_segment current_after bytes_from add_u64
returns_ok = (refl, (refl, tt))

all_done : Finished (run (begin blank ranges (loops cfg none once)) turns)
unfolding run begin worker_loop segment_loop download_segment after_segment current_after sum_done
    add_u64 sub_u64 bytes_from
all_done = (refl, (refl, tt))

-- The first run stops when one worker is done and the other has not begun.
abbrev interrupted : Transfer
interrupted = run (begin blank ranges (loops cfg none once)) (0 ∷ 0 ∷ 0 ∷ [])

abbrev saved : List WorkerRange
saved = (snapshot (codes "u") 4 none none interrupted).workers

resumed_counts_all :
    (run (begin interrupted.handed saved (loops cfg none once)) (1 ∷ 1 ∷ 1 ∷ [])).downloaded ≡ 4
unfolding snapshot new with_resource_id run begin worker_loop segment_loop download_segment
    after_segment current_after sum_done add_u64 sub_u64 bytes_from
resumed_counts_all = refl

abbrev refusal : Response
refusal = record { status = 416; opened = ok tt; stream = []; last_flush = ok tt }

abbrev refused : Round
refused = record { is_cancelled = false; send = λ q. ok refusal; cancelled_in_sleep = false }

unsatisfiable-resumes_example :
    let first =
      run (begin blank (one_worker 4 ∷ []) (loops cfg none (λ w. refused ∷ []))) (0 ∷ []) in
    let second = begin first.handed (snapshot_ranges first.tasks) (loops cfg none once) in
    ((loops cfg none (λ w. refused ∷ []) (one_worker 4)).1 ≡ some (ok tt))
    × (first.downloaded ≡ 0)
    × (snapshot_ranges first.tasks ≡ taken_for_done 4 ∷ [])
    × (loops cfg none once (taken_for_done 4) ≡ ([], some (ok tt)))
    × (second.downloaded ≡ 4)
    × (second.handed ≡ blank)
unsatisfiable-resumes_example =
    unsatisfiable-resumes cfg cfg none none (λ w. refused ∷ []) once blank 4 refused [] refusal
      (omega arith) (omega arith) refl refl refl refl

-- A worker whose first write fails in the background: the flush reports it, when the two bytes are
-- counted, and the retry goes on behind them. The count is full, and the file has a hole.
abbrev lossy : Round
lossy = record {
  is_cancelled = false;
  send = λ q. ok (record {
    status = partial_content;
    opened = ok tt;
    stream = record (served content 2 q) { background_failure = some 0 } ∷ [];
    last_flush = err (io (codes "full"));
  });
  cancelled_in_sleep = false;
}

abbrev with_hole : Transfer
with_hole =
    run
      (begin blank (record { start = 0; current = 0; end = 4 } ∷ [])
        (loops cfg none (λ w. lossy ∷ round content ∷ [])))
      (0 ∷ 0 ∷ 0 ∷ 0 ∷ 0 ∷ 0 ∷ [])

hole : (with_hole.downloaded ≡ 4) × (with_hole.handed 0 ≡ 0) × (with_hole.handed 2 ≡ content 2)
unfolding run begin worker_loop segment_loop download_segment after_segment current_after sum_done
    add_u64 sub_u64 bytes_from write
hole = (refl, refl, refl)
