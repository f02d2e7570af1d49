-- ===== src/Queue.antt =====
-- src/queue.rs: the download queue as a step relation. Submissions are numbered in the order in
-- which `submit` is called; a submission's number also names its cancellation token and its reply
-- channel. Between two awaits a task runs undisturbed, so that each await is a step of its own.
-- All clones of a queue share its state, and at least one of them is kept.
pub mod Family
pub mod Calls
pub mod Steps
pub mod Invariant
pub mod Reachable
pub mod Pool
pub mod Refines
pub mod Answers
pub mod Deadlock
pub mod Drains
pub mod Ids
pub mod Cancel
mod Tests
use fast_downloader.Prelude.{
  ℕ, suc, ◌+◌, ◌-◌, ◌≤◌, ◌<◌, ◌≡◌, refl, Bool, true, false, Option, none, some, List, [], ◌∷◌, ◌++◌,
  max, length, ltb, ◌==◌, if◌then◌else◌,
}
use fast_downloader.Prelude.Words.{add_u64}
use fast_downloader.Prelude.Text.{Text}
use fast_downloader.Error.{Error, Result, ok, err, ok_or, cancelled, queue_closed, task_not_found}
use fast_downloader.Checksum.{Hashes}
use fast_downloader.Config.{DownloaderConfig, DownloadTask, DownloadOutcome}
use fast_downloader.Download.{DownloadEvent, queued, Meeting, Inner, download}
use fast_downloader.Queue.Family.{change}

-- Where a submission is: before the insertion of its token, before its send, in the channel,
-- before its permit, in its download, or answered with its entry still to remove (with a permit,
-- or without). It ends `finished`, `rejected` by a closed channel, `lost` with the channel that
-- held it, or `panicked`.
pub data Stage : Type 0 where
  absent : Stage
  entering : Stage
  sending : Stage
  in_channel : Stage
  waiting : Stage
  running : Stage
  answered : Bool → Stage
  finished : Stage
  rejected : Stage
  lost : Stage
  panicked : Stage

-- What a download may meet that ends with its token cancelled or not, and with its task.
abbrev pub Circumstances : Type 1
Circumstances = Bool → DownloadTask → Meeting → Type 0

pub record Job : Type 0 where
  pub task : DownloadTask
  pub stage : Stage
  pub is_cancelled : Bool
  pub reply : Option (Result DownloadOutcome)

-- A message holds the number of its submission in place of the task, the token and the reply's
-- sender.
pub data QueueMsg : Type 0 where
  submitted : ℕ → QueueMsg
  shutdown : QueueMsg

-- The handle of the dispatcher: kept, taken by a call of `shutdown`, or joined by it.
pub data Dispatcher : Type 0 where
  kept : Dispatcher
  taken : Dispatcher
  joined : Dispatcher

pub record DownloadQueue : Type 0 where
  pub next_id : ℕ
  pub cancels : List (ℕ × ℕ)
  pub created : ℕ
  pub jobs : ℕ → Job
  pub channel : List QueueMsg
  pub capacity : ℕ
  pub receiving : Bool
  pub permits : ℕ
  pub is_semaphore_closed : Bool
  pub dispatcher : Dispatcher
  pub events : List DownloadEvent

-- The `HashMap` of tokens, as pairs of an id and a submission's number.
pub remove : ℕ → List (ℕ × ℕ) → List (ℕ × ℕ)
remove id [] = []
remove id ((k, v) ∷ m) = if k == id then remove id m else (k, v) ∷ remove id m

pub insert : ℕ → ℕ → List (ℕ × ℕ) → List (ℕ × ℕ)
unfolding remove
insert id t m = (id, t) ∷ remove id m

pub get : ℕ → List (ℕ × ℕ) → Option ℕ
get id [] = none
get id ((k, v) ∷ m) = if k == id then some v else get id m

abbrev pub empty_task : DownloadTask
empty_task = record {
  id = 0;
  url = [];
  save_path = [];
  thread_count = none;
  expected_checksum = none;
}

abbrev pub no_job : Job
no_job = record { task = empty_task; stage = absent; is_cancelled = false; reply = none }

pub new : ℕ → ℕ → DownloadQueue
new max_concurrent queue_capacity = record {
  next_id = 1;
  cancels = [];
  created = 0;
  jobs = λ i. no_job;
  channel = [];
  capacity = max queue_capacity 1;
  receiving = true;
  permits = max max_concurrent 1;
  is_semaphore_closed = false;
  dispatcher = kept;
  events = [];
}

abbrev pub set_job : DownloadQueue → ℕ → Job → DownloadQueue
set_job q t job = record q { jobs = change q.jobs t job }

abbrev pub at_stage : Job → Stage → Job
at_stage job stage = record job { stage = stage }

-- `submit` up to the lock on `cancels`.
pub enter : DownloadTask → DownloadQueue → DownloadQueue
enter task q =
    let is_new = task.id == 0 in
    record q {
      next_id = if is_new then add_u64 q.next_id 1 else q.next_id;
      created = suc q.created;
      jobs = change q.jobs q.created (record {
        task = if is_new then record task { id = q.next_id } else task;
        stage = entering;
        is_cancelled = false;
        reply = none;
      });
    }

-- The insertion of the token.
pub register : ℕ → DownloadQueue → DownloadQueue
unfolding insert
register t q =
    let job = q.jobs t in
    record q {
      cancels = insert job.task.id t q.cancels;
      jobs = change q.jobs t (at_stage job sending);
    }

-- The send, where the channel has room.
pub send : ℕ → DownloadQueue → DownloadQueue
send t q = record q {
  jobs = change q.jobs t (at_stage (q.jobs t) in_channel);
  channel = q.channel ++ submitted t ∷ [];
}

-- The send to a receiver that is gone: `submit` returns `QueueClosed`.
pub reject : ℕ → DownloadQueue → DownloadQueue
reject t q = set_job q t (at_stage (q.jobs t) rejected)

pub in_messages : ℕ → List QueueMsg → ℕ
in_messages t [] = 0
in_messages t (submitted i ∷ ms) = (if i == t then 1 else 0) + in_messages t ms
in_messages t (shutdown ∷ ms) = in_messages t ms

-- The messages that the receiver is dropped with are dropped too, each with its reply's sender.
pub drop_messages : List QueueMsg → (ℕ → Job) → ℕ → Job
unfolding in_messages
drop_messages ms jobs i = if ltb 0 (in_messages i ms) then at_stage (jobs i) lost else jobs i

-- One message in the dispatcher's loop, behind which `rest` is left in the channel.
pub dispatch : QueueMsg → List QueueMsg → DownloadQueue → DownloadQueue
unfolding drop_messages
dispatch (submitted t) rest q =
    let job = q.jobs t in
    record q {
      jobs = change q.jobs t (at_stage job waiting);
      channel = rest;
      events = q.events ++ queued job.task.id job.task.url ∷ [];
    }
dispatch shutdown rest q = record q {
  jobs = drop_messages rest q.jobs;
  channel = [];
  receiving = false;
}

-- The permit is there.
pub acquire : ℕ → DownloadQueue → DownloadQueue
acquire t q = record q {
  jobs = change q.jobs t (at_stage (q.jobs t) running);
  permits = q.permits - 1;
}

abbrev pub answer : Job → Bool → Result DownloadOutcome → Job
answer job has_permit r = record job { stage = answered has_permit; reply = some r }

-- The token is cancelled before the permit is there.
pub give_up : ℕ → DownloadQueue → DownloadQueue
give_up t q = set_job q t (answer (q.jobs t) false (err cancelled))

-- The semaphore is closed.
pub refuse : ℕ → DownloadQueue → DownloadQueue
refuse t q = set_job q t (answer (q.jobs t) false (err queue_closed))

-- The download returns.
pub complete : ℕ → Result DownloadOutcome → DownloadQueue → DownloadQueue
complete t outcome q = set_job q t (answer (q.jobs t) true outcome)

-- The download panics: the reply's sender and the permit are dropped.
pub unwind : ℕ → DownloadQueue → DownloadQueue
unwind t q = record q {
  jobs = change q.jobs t (at_stage (q.jobs t) panicked);
  permits = q.permits + 1;
}

-- The removal of the entry, after which the permit, if there is one, is dropped.
pub leave : ℕ → Bool → DownloadQueue → DownloadQueue
unfolding remove
leave t has_permit q =
    let job = q.jobs t in
    record q {
      cancels = remove job.task.id q.cancels;
      jobs = change q.jobs t (at_stage job finished);
      permits = if has_permit then q.permits + 1 else q.permits;
    }
