-- ===== src/Multi/Tests.antt =====
-- A run of `multi_thread` with two workers over four bytes, from no saved state.
use fast_downloader.Prelude.{ℕ, ◌+◌, ◌≡◌, refl, true, none, some, List, [], ◌∷◌, arith, All}
use fast_downloader.Prelude.Text.{codes}
use fast_downloader.Prelude.Words.{add_u64, sub_u64}
use fast_downloader.Error.{ok, err, io, cancelled, resource_changed}
use fast_downloader.Config.{DownloaderConfig, default_config}
use fast_downloader.State.{
  WorkerRange, DownloadState, sum_done, split_workers, split_loop, effective_threads, div_ceil,
  state_path_for,
}
use fast_downloader.Store.{Disk, Codec, load, load_from}
use fast_downloader.Http.{FileInfo, if_range_validator}
use fast_downloader.Worker.{
  worker_loop, segment_loop, download_segment, after_segment, current_after,
}
use fast_downloader.Worker.Server.{round, round-IsHonest, bytes_from}
use fast_downloader.Transfer.{Transfer, begin, run}
use fast_downloader.Transfer.Phase.{Agrees}
use fast_downloader.Transfer.Completion.{Finished, AllOk}
use fast_downloader.Multi.{
  is_resumable, choose_workers, finished, nothing, collect, conclude, Meets, multi_thread,
}
use fast_downloader.Multi.Outcomes.{Concluded, conclude-collect}
use fast_downloader.Multi.Sound.{transferred, multi_thread_complete}
use fast_downloader.Multi.Succeeds.{multi_thread-succeeds}

abbrev content : ℕ → ℕ
content q = q + 65

-- Two threads and chunks from two bytes on.
abbrev cfg : DownloaderConfig
cfg = record (default_config (codes "test")) { min_chunk_size = 2 }

abbrev info : FileInfo
info = record {
  final_url = codes "u";
  filename = codes "f";
  size = some 4;
  supports_range = true;
  etag = none;
  last_modified = none;
  digest = none;
}

abbrev json : Codec
json = record { to_vec = λ s. err cancelled; from_slice = λ bs. err cancelled }

abbrev empty_disk : Disk
empty_disk p = none

abbrev meets : Meets
meets = record {
  prepared = ok tt;
  file = λ q. 0;
  rounds = λ w. round content ∷ [];
  panic = λ w. none;
  schedule = 0 ∷ 1 ∷ 0 ∷ 1 ∷ 1 ∷ 0 ∷ [];
  reopened = ok tt;
}

abbrev ranges : List WorkerRange
ranges =
    record { start = 0; current = 0; end = 2 } ∷ record { start = 2; current = 2; end = 4 } ∷ []

chooses :
    choose_workers cfg info 4 2 (load json empty_disk (state_path_for (codes "p"))) ≡ some ranges
unfolding choose_workers load load_from split_workers split_loop effective_threads div_ceil add_u64
chooses = refl

not_loaded :
    (s : DownloadState)
    → load json empty_disk (state_path_for (codes "p")) ≡ ok s
    → is_resumable info 4 s ≡ true
    → All (λ w. Agrees content meets.file w.start w.current) s.workers
unfolding load load_from
not_loaded s h e = cc

returns_ok : AllOk content cfg (if_range_validator info) meets.rounds ranges
unfolding worker_loop segment_loop download_segment after_segment current_after bytes_from add_u64
returns_ok = (refl, (refl, tt))

all_done : Finished (transferred cfg info (codes "p") meets ranges)
unfolding run begin worker_loop segment_loop download_segment after_segment current_after sum_done
    add_u64 sub_u64 bytes_from
all_done = (refl, (refl, tt))

-- The run itself, for the next example.
multi_thread-succeeds_run :
    multi_thread cfg info (codes "p") 2 json empty_disk meets
    ≡ some (record {
      ended = record { result = ok (codes "p"); state_deleted = true };
      transfer = some (transferred cfg info (codes "p") meets ranges);
    })
multi_thread-succeeds_run =
    multi_thread-succeeds content cfg info (codes "p") 4 2 json empty_disk meets ranges refl
      (omega arith) not_loaded chooses refl refl (refl, (refl, tt))
      ((round-IsHonest content, tt), ((round-IsHonest content, tt), tt)) returns_ok all_done

multi_thread-succeeds_example :
    multi_thread cfg info (codes "p") 2 json empty_disk meets
    ≡ some (record {
      ended = record { result = ok (codes "p"); state_deleted = true };
      transfer = some (transferred cfg info (codes "p") meets ranges);
    })
multi_thread-succeeds_example =
    multi_thread-succeeds content cfg info (codes "p") 4 2 json empty_disk meets ranges refl
      (omega arith) not_loaded chooses refl refl (refl, (refl, tt))
      ((round-IsHonest content, tt), ((round-IsHonest content, tt), tt)) returns_ok all_done

multi_thread_complete_example :
    (codes "p" ≡ codes "p")
    × (true ≡ true)
    × ((t : Transfer) × (some (transferred cfg info (codes "p") meets ranges) ≡ some t)
        × Agrees content t.handed 0 4)
multi_thread_complete_example =
    multi_thread_complete content cfg info (codes "p") 4 2 json empty_disk meets
      (record {
        ended = record { result = ok (codes "p"); state_deleted = true };
        transfer = some (transferred cfg info (codes "p") meets ranges);
      })
      (codes "p") refl (omega arith) not_loaded (λ w. (round-IsHonest content, tt))
      multi_thread-succeeds_run refl

-- The second worker fails first, then the resource is seen to have changed.
conclude-collect_example :
    Concluded
      (finished (ok tt) ∷ finished (err (io (codes "disk"))) ∷ finished (err resource_changed) ∷ [])
      2
      4
      (codes "p")
      (ok tt)
      (conclude
        (collect nothing (
          finished (ok tt)
          ∷ finished (err (io (codes "disk")))
          ∷ finished (err resource_changed)
          ∷ []))
        2
        4
        (codes "p")
        (ok tt))
conclude-collect_example =
    conclude-collect
      (finished (ok tt) ∷ finished (err (io (codes "disk"))) ∷ finished (err resource_changed) ∷ [])
      2 4 (codes "p") (ok tt)
