-- ===== src/Multi/Sound.antt =====
-- `multi_thread` of src/downloader.rs from the saved state to its result: what a result that is a
-- path says of the file, and when the result is a path.
use fast_downloader.Prelude.{
  ℕ, ◌≤◌, ◌<◌, ◌≡◌, inl, inr, refl, sym, subst, ap, ◌∙◌, true, some, List, All, arith, ◌==◌,
  Bool-cases, Option-cases, some-injective, All-map, All-All, ==_iff,
}
use fast_downloader.Prelude.Text.{Text}
use fast_downloader.Prelude.Words.{u64_mod}
use fast_downloader.Error.{Result, ok, Result-cases, ok-injective}
use fast_downloader.Config.{DownloaderConfig}
use fast_downloader.State.{WorkerRange, DownloadState, split_workers, state_path_for}
use fast_downloader.State.Partition.{Tiles}
use fast_downloader.State.Split.{split_workers-fresh}
use fast_downloader.Store.{Disk, Codec, load}
use fast_downloader.Store.Reload.{load-IsValid}
use fast_downloader.Http.{FileInfo, if_range_validator}
use fast_downloader.Worker.Trace.{max_slice}
use fast_downloader.Worker.Loop.{IsHonest}
use fast_downloader.Transfer.{Transfer, begin, run}
use fast_downloader.Transfer.Phase.{Agrees}
use fast_downloader.Transfer.Safety.{Holds, loops, downloaded_complete}
use fast_downloader.Multi.{
  is_resumable, choose_workers, Collected, nothing, collect, conclude, Meets, Multi, fails,
  workers_of, join_all, transfer_from, multi_thread, multi_thread_of,
}

-- Ranges to start from: they tile the file, and what they name is in it.
abbrev pub Startable : (ℕ → ℕ) → (ℕ → ℕ) → ℕ → List WorkerRange → Type 0
Startable content file size ws = Tiles 0 size ws × Holds content file ws

split_workers-Startable :
    (content file : ℕ → ℕ) (size thread_count min_chunk : ℕ) (ws : List WorkerRange)
    → size < u64_mod
    → split_workers size thread_count min_chunk ≡ some ws
    → Startable content file size ws
split_workers-Startable content file size thread_count min_chunk ws bound h =
    let fresh = split_workers-fresh size thread_count min_chunk ws bound h in
    (fresh.0, All-map ws (λ w e q l k. absurd (omega (arith, e))) fresh.1)

is_resumable-size :
    (info : FileInfo) (size : ℕ) (s : DownloadState)
    → is_resumable info size s ≡ true
    → s.file_size ≡ size
unfolding is_resumable
is_resumable-size info size s h = ground arith

-- What is chosen is a saved state that is accepted, or a fresh split.
pub choose_workers-Startable :
    (content file : ℕ → ℕ) (cfg : DownloaderConfig) (info : FileInfo) (size thread_count : ℕ)
    (c : Codec) (d : Disk) (p : Text) (ws : List WorkerRange)
    → size < u64_mod
    → ((s : DownloadState)
        → load c d p ≡ ok s
        → is_resumable info size s ≡ true
        → Holds content file s.workers)
    → choose_workers cfg info size thread_count (load c d p) ≡ some ws
    → Startable content file size ws
unfolding choose_workers
choose_workers-Startable content file cfg info size thread_count c d p ws bound holds h =
    elim (Result-cases (load c d p)) [
      | inr (e, l) ↦
          split_workers-Startable content file size thread_count cfg.min_chunk_size ws bound
            (rw l at h)
      | inl (s, l) ↦ elim (Bool-cases (is_resumable info size s)) [
        | inr unfit ↦
            split_workers-Startable content file size thread_count cfg.min_chunk_size ws bound
              (rw (l, unfit) at h)
        | inl fits ↦
            let same : s.workers ≡ ws = some-injective (rw (l, fits) at h) in
            let valid = load-IsValid c d p s l in
            let e = is_resumable-size info size s fits in
            subst (Startable content file size) same (rw (← e) valid.tiles, holds s l fits)
      ]
    ]

conclude-ok :
    (c : Collected) (total size : ℕ) (path p : Text) (reopened : Result (Unit {0}))
    → (conclude c total size path reopened).result ≡ ok p
    → (total ≡ size) × (p ≡ path) × ((conclude c total size path reopened).state_deleted ≡ true)
unfolding conclude
conclude-ok c total size path p reopened h = elim (Bool-cases c.cancelled) [
  | inl stopped ↦ absurd (ground (arith, stopped))
  | inr runs ↦ elim (Option-cases c.first_error) [
    | inr (e, failed) ↦ absurd (ground (arith, failed))
    | inl no_error ↦ elim (Bool-cases (total == size)) [
      | inr short ↦ absurd (ground arith)
      | inl full ↦ elim (Result-cases reopened) [
        | inr (e, x) ↦ absurd (ground arith)
        | inl (u, x) ↦
            rw (runs, no_error, full, x)
              (
                (==_iff total size).0 full,
                sym (ok-injective (rw (runs, no_error, full, x, conclude) at h)),
                refl,
              )
      ]
    ]
  ]
]

module _ (cfg : DownloaderConfig) (info : FileInfo) (path : Text) (m : Meets) where
  -- The transfer from the ranges `ws`, after all that was scheduled.
  abbrev pub transferred : List WorkerRange → Transfer
  transferred ws = run (begin m.file ws (loops cfg (if_range_validator info) m.rounds)) m.schedule

  transfer_from-ok :
      (size : ℕ) (ws : List WorkerRange) (r : Multi) (p : Text)
      → transfer_from cfg info path size m ws ≡ some r
      → r.ended.result ≡ ok p
      → ((transferred ws).downloaded ≡ size)
        × (p ≡ path)
        × (r.ended.state_deleted ≡ true)
        × (r.transfer ≡ some (transferred ws))
  unfolding transfer_from workers_of
  transfer_from-ok size ws r p h e =
      let runs = workers_of cfg (if_range_validator info) m in
      elim (Option-cases (join_all m.panic runs ws)) [
        | inl stuck ↦ absurd (ground (arith, stuck))
        | inr (js, j) ↦
            let same : record {
              ended =
                  conclude (collect nothing js) (transferred ws).downloaded size path m.reopened;
              transfer = some (transferred ws);
            }
                ≡ r =
              some-injective (rw (j, transfer_from) at h) in
            let (total, here, deleted) =
              conclude-ok (collect nothing js) (transferred ws).downloaded size path p m.reopened
                (ap (λ (x : Multi). x.ended.result) same ∙ e) in
            (
              total,
              here,
              sym (ap (λ (x : Multi). x.ended.state_deleted) same) ∙ deleted,
              sym (ap (λ (x : Multi). x.transfer) same),
            )
      ]

-- Where `multi_thread` ends with a path there was a transfer, from ranges that can be started from.
multi_thread-ok :
    (content : ℕ → ℕ) (cfg : DownloaderConfig) (info : FileInfo) (path : Text)
    (size thread_count : ℕ) (c : Codec) (d : Disk) (m : Meets) (r : Multi) (p : Text)
    → info.size ≡ some size
    → size < u64_mod
    → ((s : DownloadState)
        → load c d (state_path_for path) ≡ ok s
        → is_resumable info size s ≡ true
        → Holds content m.file s.workers)
    → multi_thread cfg info path thread_count c d m ≡ some r
    → r.ended.result ≡ ok p
    → (ws : List WorkerRange) × Startable content m.file size ws
      × (transfer_from cfg info path size m ws ≡ some r)
unfolding multi_thread multi_thread_of fails
multi_thread-ok content cfg info path size thread_count c d m r p known bound holds h e =
    let loaded = load c d (state_path_for path) in
    let h2 : multi_thread_of cfg info path thread_count c d m (some size) ≡ some r =
      ap (multi_thread_of cfg info path thread_count c d m) (sym known) ∙ h in
    elim (Option-cases (choose_workers cfg info size thread_count loaded)) [
      | inl panics ↦ absurd (cc (rw (multi_thread_of, panics) at h2))
      | inr (ws, chosen) ↦ elim (Result-cases m.prepared) [
        | inr (x, no_file) ↦
            let same : fails x ≡ r = some-injective (rw (multi_thread_of, chosen, no_file) at h2) in
            absurd (cc (ap (λ (y : Multi). y.ended.result) same, e))
        | inl (u, opened) ↦ (
          ws,
          choose_workers-Startable content m.file cfg info size thread_count c d
              (state_path_for path) ws bound holds chosen,
          rw (multi_thread_of, chosen, opened) at h2,
        )
      ]
    ]

-- When `multi_thread` ends with a path, for a resource of at most 2^63 bytes whose length the
-- probe found, it is the path asked for, the state file is deleted, and the file has all bytes of
-- the resource as soon as the writes handed over have been carried out: however the workers
-- interleave, and whether the ranges are fresh or those of a saved state. The server sends no
-- other bytes than the resource's and no 416, no write fails in the background, and a saved state
-- that is resumed names only what the file holds.
pub multi_thread_complete :
    (content : ℕ → ℕ) (cfg : DownloaderConfig) (info : FileInfo) (path : Text)
    (size thread_count : ℕ) (c : Codec) (d : Disk) (m : Meets) (r : Multi) (p : Text)
    → info.size ≡ some size
    → size ≤ max_slice
    → ((s : DownloadState)
        → load c d (state_path_for path) ≡ ok s
        → is_resumable info size s ≡ true
        → Holds content m.file s.workers)
    → ((w : WorkerRange) → All (IsHonest content) (m.rounds w))
    → multi_thread cfg info path thread_count c d m ≡ some r
    → r.ended.result ≡ ok p
    → (p ≡ path)
      × (r.ended.state_deleted ≡ true)
      × ((t : Transfer) × (r.transfer ≡ some t) × Agrees content t.handed 0 size)
multi_thread_complete content cfg info path size thread_count c d m r p known bound holds honest h
      e =
    let (ws, start, ran) =
      multi_thread-ok content cfg info path size thread_count c d m r p known (omega arith) holds h
        e in
    let (total, here, deleted, same) = transfer_from-ok cfg info path m size ws r p ran e in
    (
      here,
      deleted,
      (
        transferred cfg info path m ws,
        same,
        downloaded_complete content cfg (if_range_validator info) m.rounds m.file size ws m.schedule
            bound start.0 start.1 (All-All ws honest) total,
      ),
    )
