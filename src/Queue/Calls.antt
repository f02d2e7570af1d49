-- ===== src/Queue/Calls.antt =====
-- src/queue.rs: what a client calls besides `submit`: the cancellations, and `shutdown` with its
-- three parts.
use fast_downloader.Prelude.{ℕ, true, List, [], ◌∷◌, ◌++◌}
use fast_downloader.Error.{Result, ok, err, ok_or, task_not_found}
use fast_downloader.Queue.{DownloadQueue, get, set_job, shutdown, taken, joined}

-- `TaskHandle::cancel`
unfoldable pub cancel_token : ℕ → DownloadQueue → DownloadQueue
cancel_token t q = set_job q t (record (q.jobs t) { is_cancelled = true })

unfoldable pub cancel : ℕ → DownloadQueue → Result DownloadQueue
unfolding get cancel_token
cancel id q = elim (ok_or (get id q.cancels) (task_not_found id)) [
  | err e ↦ err e
  | ok t ↦ ok (cancel_token t q)
]

unfoldable pub cancel_entries : List (ℕ × ℕ) → DownloadQueue → DownloadQueue
unfolding cancel_token
cancel_entries [] q = q
cancel_entries ((id, t) ∷ m) q = cancel_entries m (cancel_token t q)

unfoldable pub cancel_all : DownloadQueue → DownloadQueue
unfolding cancel_entries
cancel_all q = cancel_entries q.cancels q

-- `shutdown`: its message, where the channel has room; to a receiver that is gone nothing is sent.
unfoldable pub send_shutdown : DownloadQueue → DownloadQueue
send_shutdown q = record q { channel = q.channel ++ shutdown ∷ [] }

unfoldable pub take_handle : DownloadQueue → DownloadQueue
take_handle q = record q { dispatcher = taken }

unfoldable pub join : DownloadQueue → DownloadQueue
join q = record q { dispatcher = joined }
