-- ===== src/Queue/Reachable.antt =====
-- src/queue.rs: every step keeps what the invariant says, so that it holds of every state that is
-- reached.
use fast_downloader.Prelude.{
  ℕ, ◌+◌, ◌-◌, ◌≤◌, ◌≡◌, inl, inr, refl, ap, true, false, some, List, [], ◌∷◌, ◌++◌, max, length,
  length-append, Option-cases, arith,
}
use fast_downloader.Error.{cancelled, queue_closed, ok, err}
use fast_downloader.Checksum.{Hashes}
use fast_downloader.Config.{DownloaderConfig, DownloadTask}
use fast_downloader.Queue.{
  entering, sending, in_channel, waiting, running, answered, finished, rejected, panicked, Job,
  at_stage, answer, QueueMsg, submitted, shutdown, DownloadQueue, enter, register, send, reject,
  in_messages, drop_messages, dispatch, acquire, give_up, refuse, complete, unwind, leave, get,
  Circumstances,
}
use fast_downloader.Queue.Calls.{
  cancel_token, cancel, cancel_entries, cancel_all, send_shutdown, take_handle, join,
}
use fast_downloader.Queue.Family.{total, total-push, total-same, total-weights}
use fast_downloader.Queue.Steps.{
  Call, enters, cancels_id, cancels_token, cancels_all, sends_shutdown, takes_handle, joins,
  Internal, registers, sends, rejects, receives, acquires, gives_up, refuses, leaves, Ending,
  completes, unwinds, Step, call, internal, ending, Reach, start, later,
}
use fast_downloader.Queue.Invariant.{
  Inv, holds, made, moved, stays, oldest, oldest_stage, dropped, same_stages, new-Inv,
  in_messages-append,
}

module _ {mc qc : ℕ} {q : DownloadQueue} (inv : Inv mc qc q) where
  open inv use {outside, slots, is_open, in_channel_once, capacity, room, closed, joined_closed}

  stopped :
      (rest : List QueueMsg)
      → q.channel ≡ shutdown ∷ rest
      → Inv mc qc (record q { jobs = drop_messages rest q.jobs; channel = []; receiving = false })
  unfolding in_messages
  stopped rest e = record {
    outside = λ i h. ground (arith, dropped inv rest e i, outside i h);
    slots = omega (
      arith,
      slots,
      total-same holds q.created (drop_messages rest q.jobs) q.jobs
          (λ i. ground (arith, dropped inv rest e i)),
    );
    is_open = is_open;
    in_channel_once = λ i. ground (arith, dropped inv rest e i);
    capacity = capacity;
    room = omega arith;
    closed = λ h. refl;
    joined_closed = λ h. refl;
  }

  entered : (task : DownloadTask) → Inv mc qc (enter task q)
  unfolding enter
  entered task = record {
    outside = λ i h. ground (arith, outside i);
    slots = omega (arith, slots, total-push holds q.created q.jobs _);
    is_open = is_open;
    in_channel_once = λ i. ground (arith, in_channel_once i, outside q.created (omega arith));
    capacity = capacity;
    room = room;
    closed = closed;
    joined_closed = joined_closed;
  }

  pub Ending-Inv :
      {cfg : DownloaderConfig} {h : Hashes} {Meets : Circumstances} {r : DownloadQueue}
      → Ending cfg h Meets q r
      → Inv mc qc r
  unfolding complete unwind
  Ending-Inv (completes t m inner at met e) =
      stays inv t (answer (q.jobs t) true inner.result) q.cancels q.permits
        (made inv t running at (ground arith)) (ground arith) (ground arith)
  Ending-Inv (unwinds t at) =
      stays inv t (at_stage (q.jobs t) panicked) q.cancels (q.permits + 1)
        (made inv t running at (ground arith)) (ground arith) (ground arith)

  pub Internal-Inv : {r : DownloadQueue} → Internal q r → Inv mc qc r
  unfolding register send reject dispatch acquire give_up refuse leave
  Internal-Inv (registers t at) =
      stays inv t (at_stage (q.jobs t) sending) _ q.permits (made inv t entering at (ground arith))
        (ground arith) (ground arith)
  Internal-Inv (sends t at receiving has_room) =
      moved inv t (at_stage (q.jobs t) in_channel) q.cancels (q.channel ++ submitted t ∷ [])
        q.permits q.events (made inv t sending at (ground arith)) (ground arith)
        (λ i. ground (arith, in_channel_once i, in_messages-append i q.channel (submitted t ∷ [])))
        (omega (arith, length-append {0} q.channel (submitted t ∷ []))) (λ e. ground arith)
  Internal-Inv (rejects t at gone) =
      stays inv t (at_stage (q.jobs t) rejected) q.cancels q.permits
        (made inv t sending at (ground arith)) (ground arith) (ground arith)
  Internal-Inv (receives (submitted t) rest receiving e) =
      moved inv t (at_stage (q.jobs t) waiting) q.cancels rest q.permits _
        (made inv t in_channel (oldest_stage inv t rest e) (ground arith))
        (ground (arith, oldest_stage inv t rest e))
        (λ i. ground (arith, oldest inv t rest i e, oldest inv t rest t e))
        (omega (arith, room, ap length e)) (λ h. absurd (ground arith))
  Internal-Inv (receives shutdown rest receiving e) = stopped rest e
  Internal-Inv (acquires t at open_ has_permit) =
      stays inv t (at_stage (q.jobs t) running) q.cancels (q.permits - 1)
        (made inv t waiting at (ground arith)) (ground arith) (ground arith)
  Internal-Inv (gives_up t at asked) =
      stays inv t (answer (q.jobs t) false (err cancelled)) q.cancels q.permits
        (made inv t waiting at (ground arith)) (ground arith) (ground arith)
  Internal-Inv (refuses t at shut) =
      stays inv t (answer (q.jobs t) false (err queue_closed)) q.cancels q.permits
        (made inv t waiting at (ground arith)) (ground arith) (ground arith)
  Internal-Inv (leaves t has_permit at) =
      stays inv t (at_stage (q.jobs t) finished) _ _
        (made inv t (answered has_permit) at (ground arith)) (ground arith) (ground arith)

cancel_token-Inv :
    {mc qc : ℕ} {q : DownloadQueue} (t : ℕ) → Inv mc qc q → Inv mc qc (cancel_token t q)
unfolding cancel_token
cancel_token-Inv {q = q} t inv = same_stages inv _ (λ i. ground arith)

cancel_entries-Inv :
    {mc qc : ℕ} (m : List (ℕ × ℕ)) (q : DownloadQueue)
    → Inv mc qc q
    → Inv mc qc (cancel_entries m q)
unfolding cancel_entries
cancel_entries-Inv [] q inv = inv
cancel_entries-Inv ((id, t) ∷ m) q inv =
    cancel_entries-Inv m (cancel_token t q) (cancel_token-Inv t inv)

-- A call that finds its id cancels one token.
pub cancel-token :
    {r : DownloadQueue} (id : ℕ) (q : DownloadQueue)
    → cancel id q ≡ ok r
    → (t : ℕ) × (get id q.cancels ≡ some t) × (r ≡ cancel_token t q)
unfolding cancel
cancel-token id q e = elim (Option-cases (get id q.cancels)) [
  | inl n ↦ ground arith
  | inr (t, s) ↦ (t, s, ground arith)
]

Call-Inv :
    {Allowed : DownloadTask → Type 0} {mc qc : ℕ} {q r : DownloadQueue}
    → Inv mc qc q
    → Call Allowed q r
    → Inv mc qc r
unfolding cancel_all send_shutdown take_handle join in_messages
Call-Inv inv (enters task a) = entered inv task
Call-Inv {q = q} inv (cancels_id id e) =
    let (t, s, c) = cancel-token id q e in rw c (cancel_token-Inv t inv)
Call-Inv inv (cancels_token t lt) = cancel_token-Inv t inv
Call-Inv {q = q} inv cancels_all = cancel_entries-Inv q.cancels q inv
Call-Inv {q = q} inv (sends_shutdown receiving has_room) = record {
  outside = inv.outside;
  slots = inv.slots;
  is_open = inv.is_open;
  in_channel_once =
      λ i. ground (arith, inv.in_channel_once i, in_messages-append i q.channel (shutdown ∷ []));
  capacity = inv.capacity;
  room = omega (arith, length-append {0} q.channel (shutdown ∷ []));
  closed = λ e. ground arith;
  joined_closed = inv.joined_closed;
}
Call-Inv inv (takes_handle e) = record {
  outside = inv.outside;
  slots = inv.slots;
  is_open = inv.is_open;
  in_channel_once = inv.in_channel_once;
  capacity = inv.capacity;
  room = inv.room;
  closed = inv.closed;
  joined_closed = λ h. ground arith;
}
Call-Inv inv (joins e gone) = record {
  outside = inv.outside;
  slots = inv.slots;
  is_open = inv.is_open;
  in_channel_once = inv.in_channel_once;
  capacity = inv.capacity;
  room = inv.room;
  closed = inv.closed;
  joined_closed = λ h. gone;
}

pub Step-Inv :
    {cfg : DownloaderConfig} {h : Hashes} {Meets : Circumstances} {Allowed : DownloadTask → Type 0}
    {mc qc : ℕ} {q r : DownloadQueue}
    → Inv mc qc q
    → Step cfg h Meets Allowed q r
    → Inv mc qc r
Step-Inv inv (call c) = Call-Inv inv c
Step-Inv inv (internal i) = Internal-Inv inv i
Step-Inv inv (ending e) = Ending-Inv inv e

pub Reach-Inv :
    {cfg : DownloaderConfig} {h : Hashes} {Meets : Circumstances} {Allowed : DownloadTask → Type 0}
    {mc qc : ℕ} {q : DownloadQueue}
    → Reach cfg h Meets Allowed mc qc q
    → Inv mc qc q
Reach-Inv {mc = mc} {qc = qc} start = new-Inv mc qc
Reach-Inv (later r s) = Step-Inv (Reach-Inv r) s

-- One for a submission in its download.
abbrev pub is_running : Job → ℕ
is_running j = elim j.stage [ running ↦ 1 | _ ↦ 0 ]

-- In every state that a queue reaches, whatever clients submit and in whatever order the tasks
-- run: the downloads that run and the permits that are left are together at most
-- `max_concurrent`, or one where that is 0, and the channel holds at most `queue_capacity`
-- messages, or one where that is 0.
pub concurrency_bound :
    {cfg : DownloaderConfig} {h : Hashes} {Meets : Circumstances} {Allowed : DownloadTask → Type 0}
    {max_concurrent queue_capacity : ℕ} {q : DownloadQueue}
    → Reach cfg h Meets Allowed max_concurrent queue_capacity q
    → (total is_running q.created q.jobs + q.permits ≤ max max_concurrent 1)
      × (length q.channel ≤ max queue_capacity 1)
concurrency_bound {q = q} r =
    let inv = Reach-Inv r in
    (
      omega (arith, inv.slots, total-weights is_running holds q.created q.jobs (λ j. ground arith)),
      omega (arith, inv.room, inv.capacity),
    )
