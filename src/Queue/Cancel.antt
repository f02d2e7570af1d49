-- ===== src/Queue/Cancel.antt =====
-- src/queue.rs: `cancel` and `cancel_all` reach the submissions that they should, where the ids
-- are those that the queue gives out; and what becomes of an id that two tasks bring along.
use fast_downloader.Prelude.{
  ℕ, suc, ◌+◌, ◌<◌, ◌≡◌, ◌≢◌, ◌⊎◌, inl, inr, Bool, true, false, some, List, [], ◌∷◌, ◌==◌,
  if◌then◌else◌, Bool-cases, arith,
}
use fast_downloader.Prelude.Words.{u64_mod}
use fast_downloader.Error.{task_not_found, ok, err}
use fast_downloader.Checksum.{Hashes}
use fast_downloader.Config.{DownloaderConfig}
use fast_downloader.Queue.{running, DownloadQueue, leave, get, Circumstances}
use fast_downloader.Queue.Calls.{cancel, cancel_token, cancel_entries, cancel_all}
use fast_downloader.Queue.Steps.{Reach}
use fast_downloader.Queue.Ids.{has_entry, IsAuto, Reach-Ids, get-remove}
use fast_downloader.Queue.Refines.{Asks, asks, cancel_entries-Asks}

still_cancelled :
    (q r : DownloadQueue)
    → Asks q r
    → (t : ℕ) → (q.jobs t).is_cancelled ≡ true
    → (r.jobs t).is_cancelled ≡ true
still_cancelled q r (asks a b c d e) t h = e t h

cancel_entries-marks :
    (m : List (ℕ × ℕ)) (q : DownloadQueue) (id t : ℕ)
    → get id m ≡ some t
    → ((cancel_entries m q).jobs t).is_cancelled ≡ true
unfolding get cancel_entries
cancel_entries-marks [] q id t e = absurd (ground arith)
cancel_entries-marks ((k, v) ∷ m) q id t e = elim (Bool-cases (k == id)) [
  | inl here ↦
      still_cancelled (cancel_token v q) (cancel_entries m (cancel_token v q))
        (cancel_entries-Asks m (cancel_token v q)) t (ground arith)
  | inr there ↦ cancel_entries-marks m (cancel_token v q) id t (ground arith)
]

cancel_all_lem :
    {cfg : DownloaderConfig} {h : Hashes} {Meets : Circumstances}
    {max_concurrent queue_capacity : ℕ} {q : DownloadQueue}
    → Reach cfg h Meets IsAuto max_concurrent queue_capacity q
    → q.created + 1 < u64_mod
    → (t : ℕ) → has_entry (q.jobs t).stage ≡ true
    → ((cancel_all q).jobs t).is_cancelled ≡ true
unfolding cancel_all
cancel_all_lem {q = q} r fits t here =
    cancel_entries-marks q.cancels q (suc t) t (ground (arith, (Reach-Ids r fits).entry t))

-- Where every task is submitted without an id, and fewer than 2^64 - 1 are: submission `t` gets
-- the id `t + 1`, so that no two share one. `cancel` of that id cancels the token of `t` as long
-- as its entry is there, and otherwise (before it is inserted, and after the queue is done with
-- it) returns `TaskNotFound`. `cancel_all` cancels every token whose entry is there.
pub cancel_auto :
    {cfg : DownloaderConfig} {h : Hashes} {Meets : Circumstances}
    {max_concurrent queue_capacity : ℕ} {q : DownloadQueue}
    → Reach cfg h Meets IsAuto max_concurrent queue_capacity q
    → q.created + 1 < u64_mod
    → (t : ℕ) → t < q.created
    → ((q.jobs t).task.id ≡ suc t)
      × (cancel (suc t) q ≡ (
          if has_entry (q.jobs t).stage
          then ok (cancel_token t q)
          else err (task_not_found (suc t))))
      × ((has_entry (q.jobs t).stage ≡ false) ⊎ (((cancel_all q).jobs t).is_cancelled ≡ true))
unfolding cancel
cancel_auto {q = q} r fits t lt =
    let ids = Reach-Ids r fits in
    (
      ids.own t lt,
      ground (arith, ids.entry t),
      elim (Bool-cases (has_entry (q.jobs t).stage)) [
        | inl here ↦ inr (cancel_all_lem r fits t here)
        | inr gone ↦ inl gone
      ],
    )

-- Two tasks that are submitted with the same id: when the queue is done with one of them,
-- `cancel` of the id finds nothing, and the other is still in its download.
pub same_id :
    (q : DownloadQueue) (s t : ℕ) (has_permit : Bool)
    → s ≢ t
    → (q.jobs s).task.id ≡ (q.jobs t).task.id
    → (q.jobs s).stage ≡ running
    → (cancel (q.jobs s).task.id (leave t has_permit q) ≡ err (task_not_found (q.jobs s).task.id))
      × (((leave t has_permit q).jobs s).stage ≡ running)
unfolding cancel leave
same_id q s t has_permit other same at = (
  ground (arith, get-remove (q.jobs t).task.id (q.jobs s).task.id q.cancels),
  ground (arith, other),
)
