-- ===== src/Queue/Steps.antt =====
-- The steps of src/queue.rs: what a client does, what the dispatcher and the spawned tasks do by
-- themselves, and how a download ends. A step's premises are what the code waits for or tests.
use fast_downloader.Prelude.{ℕ, ◌<◌, ◌≡◌, Bool, true, false, some, List, ◌∷◌, length}
use fast_downloader.Error.{ok}
use fast_downloader.Checksum.{Hashes}
use fast_downloader.Config.{DownloaderConfig, DownloadTask}
use fast_downloader.Download.{Meeting, Inner, download}
use fast_downloader.Queue.{
  entering, sending, waiting, running, answered, QueueMsg, kept, taken, DownloadQueue, new, enter,
  register, send, reject, dispatch, acquire, give_up, refuse, complete, unwind, leave,
  Circumstances,
}
use fast_downloader.Queue.Calls.{cancel_token, cancel, cancel_all, send_shutdown, take_handle, join}

-- The calls of a client, who submits the tasks that satisfy `Allowed`. A handle's token can be
-- cancelled from the moment that `submit` has made it.
pub data Call (Allowed : DownloadTask → Type 0) (q : DownloadQueue) : DownloadQueue → Type 0 where
  enters : (task : DownloadTask) → Allowed task → Call Allowed q (enter task q)
  cancels_id : {r : DownloadQueue} (id : ℕ) → cancel id q ≡ ok r → Call Allowed q r
  cancels_token : (t : ℕ) → t < q.created → Call Allowed q (cancel_token t q)
  cancels_all : Call Allowed q (cancel_all q)
  sends_shutdown :
      q.receiving ≡ true → length q.channel < q.capacity → Call Allowed q (send_shutdown q)
  takes_handle : q.dispatcher ≡ kept → Call Allowed q (take_handle q)
  joins : q.dispatcher ≡ taken → q.receiving ≡ false → Call Allowed q (join q)

-- What happens without a client, and outside the downloads.
pub data Internal (q : DownloadQueue) : DownloadQueue → Type 0 where
  registers : (t : ℕ) → (q.jobs t).stage ≡ entering → Internal q (register t q)
  sends :
      (t : ℕ)
      → (q.jobs t).stage ≡ sending
      → q.receiving ≡ true
      → length q.channel < q.capacity
      → Internal q (send t q)
  rejects : (t : ℕ) → (q.jobs t).stage ≡ sending → q.receiving ≡ false → Internal q (reject t q)
  receives :
      (m : QueueMsg) (rest : List QueueMsg)
      → q.receiving ≡ true
      → q.channel ≡ m ∷ rest
      → Internal q (dispatch m rest q)
  acquires :
      (t : ℕ)
      → (q.jobs t).stage ≡ waiting
      → q.is_semaphore_closed ≡ false
      → 0 < q.permits
      → Internal q (acquire t q)
  gives_up :
      (t : ℕ)
      → (q.jobs t).stage ≡ waiting
      → (q.jobs t).is_cancelled ≡ true
      → Internal q (give_up t q)
  refuses :
      (t : ℕ) → (q.jobs t).stage ≡ waiting → q.is_semaphore_closed ≡ true → Internal q (refuse t q)
  leaves :
      (t : ℕ) (has_permit : Bool)
      → (q.jobs t).stage ≡ answered has_permit
      → Internal q (leave t has_permit q)

module _ (cfg : DownloaderConfig) (h : Hashes) (Meets : Circumstances) where
  -- The end of a download, with the result that `download` has for what it meets: one of the
  -- circumstances that its token, as it is by then, and its task allow.
  pub data Ending (q : DownloadQueue) : DownloadQueue → Type 0 where
    completes :
        (t : ℕ) (m : Meeting) (inner : Inner)
        → (q.jobs t).stage ≡ running
        → Meets (q.jobs t).is_cancelled (q.jobs t).task m
        → download cfg h (q.jobs t).task m ≡ some inner
        → Ending q (complete t inner.result q)
    unwinds : (t : ℕ) → (q.jobs t).stage ≡ running → Ending q (unwind t q)

  pub data Step (Allowed : DownloadTask → Type 0) (q r : DownloadQueue) : Type 0 where
    call : Call Allowed q r → Step Allowed q r
    internal : Internal q r → Step Allowed q r
    ending : Ending q r → Step Allowed q r

  -- A new queue, and what becomes of it.
  pub data Reach (Allowed : DownloadTask → Type 0) (max_concurrent queue_capacity : ℕ)
      : DownloadQueue → Type 0 where
    start : Reach Allowed max_concurrent queue_capacity (new max_concurrent queue_capacity)
    later :
        {q r : DownloadQueue}
        → Reach Allowed max_concurrent queue_capacity q
        → Step Allowed q r
        → Reach Allowed max_concurrent queue_capacity r
