-- ===== src/Queue/Ids.antt =====
-- src/queue.rs: the ids that the queue gives out, and the entry that each leads to.
use fast_downloader.Prelude.{
  ℕ, suc, ◌+◌, ◌≤◌, ◌<◌, ◌≡◌, refl, ap, ◌∙◌, Bool, true, false, none, some, List, [], ◌∷◌, ◌==◌,
  if◌then◌else◌, arith,
}
use fast_downloader.Prelude.Words.{u64_mod, add_u64_exact}
use fast_downloader.Error.{cancelled, queue_closed, err}
use fast_downloader.Checksum.{Hashes}
use fast_downloader.Config.{DownloaderConfig, DownloadTask}
use fast_downloader.Download.{DownloadEvent}
use fast_downloader.Queue.{
  Stage, absent, entering, in_channel, waiting, running, answered, finished, rejected, panicked,
  Job, at_stage, answer, QueueMsg, submitted, shutdown, DownloadQueue, new, enter, register, send,
  reject, drop_messages, dispatch, acquire, give_up, refuse, complete, unwind, leave, insert,
  remove, get, Circumstances,
}
use fast_downloader.Queue.Calls.{
  cancel_token, cancel_entries, cancel_all, send_shutdown, take_handle, join,
}
use fast_downloader.Queue.Family.{change}
use fast_downloader.Queue.Steps.{
  Call, enters, cancels_id, cancels_token, cancels_all, sends_shutdown, takes_handle, joins,
  Internal, registers, sends, rejects, receives, acquires, gives_up, refuses, leaves, Ending,
  completes, unwinds, call, internal, ending, Reach, start, later,
}
use fast_downloader.Queue.Invariant.{Inv, dropped, made, oldest_stage}
use fast_downloader.Queue.Reachable.{cancel-token, Reach-Inv}

-- From the insertion of the token until its removal, which some ends never come to.
abbrev pub has_entry : Stage → Bool
has_entry absent = false
has_entry entering = false
has_entry finished = false
has_entry _ = true

pub get-remove :
    (i j : ℕ) (m : List (ℕ × ℕ)) → get j (remove i m) ≡ (if i == j then none else get j m)
unfolding get remove
get-remove i j [] = ground arith
get-remove i j ((k, v) ∷ m) = ground (arith, get-remove i j m)

get-insert :
    (i j t : ℕ) (m : List (ℕ × ℕ)) → get j (insert i t m) ≡ (if i == j then some t else get j m)
unfolding get insert
get-insert i j t m = ground (arith, get-remove i j m)

drop_messages_task :
    (ms : List QueueMsg) (jobs : ℕ → Job) (i : ℕ)
    → (drop_messages ms jobs i).task.id ≡ (jobs i).task.id
unfolding drop_messages
drop_messages_task ms jobs i = ground arith

pub record Ids (q : DownloadQueue) : Type 0 where
  pub next : q.next_id ≡ suc q.created
  pub own : (i : ℕ) → i < q.created → (q.jobs i).task.id ≡ suc i
  pub entry :
      (i : ℕ) → get (suc i) q.cancels ≡ (if has_entry (q.jobs i).stage then some i else none)

new-Ids : (mc qc : ℕ) → Ids (new mc qc)
unfolding new get
new-Ids mc qc = record { next = refl; own = λ i h. absurd (omega arith); entry = λ i. refl }

module _ {q : DownloadQueue} (ids : Ids q) where
  keeps :
      (jobs : ℕ → Job) (c : List QueueMsg) (b : Bool) (p : ℕ) (es : List DownloadEvent)
      → ((i : ℕ) → has_entry (jobs i).stage ≡ has_entry (q.jobs i).stage)
      → ((i : ℕ) → (jobs i).task.id ≡ (q.jobs i).task.id)
      → Ids (record q { jobs = jobs; channel = c; receiving = b; permits = p; events = es })
  keeps jobs c b p es same tasks = record {
    next = ids.next;
    own = λ i h. tasks i ∙ ids.own i h;
    entry = λ i. rw (same i) (ids.entry i);
  }

  -- A submission with another stage, and its entry where it was.
  stays :
      (t : ℕ) (job : Job) (c : List QueueMsg) (p : ℕ) (es : List DownloadEvent)
      → has_entry job.stage ≡ has_entry (q.jobs t).stage
      → job.task.id ≡ (q.jobs t).task.id
      → Ids (record q { jobs = change q.jobs t job; channel = c; permits = p; events = es })
  stays t job c p es same task =
      keeps (change q.jobs t job) c q.receiving p es (λ i. ground (arith, same))
        (λ i. ground (arith, task))

  entered :
      (task : DownloadTask)
      → task.id ≡ 0
      → suc q.created + 1 < u64_mod
      → (q.jobs q.created).stage ≡ absent
      → Ids (enter task q)
  unfolding enter
  entered task zero_ fits new_ = record {
    next = ground (arith, ids.next, add_u64_exact q.next_id 1);
    own = λ i h. ground (arith, ids.own i, ids.next);
    entry = λ i. ground (arith, ids.entry i, new_);
  }

  registered : (t : ℕ) → t < q.created → Ids (register t q)
  unfolding register
  registered t lt = record {
    next = ids.next;
    own = λ i h. ground (arith, ids.own i);
    entry = λ i.
        ground
          (arith, ids.entry i, ids.own t lt, get-insert (q.jobs t).task.id (suc i) t q.cancels);
  }

  left : (t : ℕ) (has_permit : Bool) → t < q.created → Ids (leave t has_permit q)
  unfolding leave
  left t has_permit lt = record {
    next = ids.next;
    own = λ i h. ground (arith, ids.own i);
    entry = λ i.
        ground (arith, ids.entry i, ids.own t lt, get-remove (q.jobs t).task.id (suc i) q.cancels);
  }

  Internal-Ids : {mc qc : ℕ} {r : DownloadQueue} → Inv mc qc q → Internal q r → Ids r
  unfolding send reject dispatch acquire give_up refuse
  Internal-Ids inv (registers t at) = registered t (made inv t entering at (ground arith))
  Internal-Ids inv (sends t at receiving has_room) =
      stays t (at_stage (q.jobs t) in_channel) _ q.permits _ (ground (arith, at)) refl
  Internal-Ids inv (rejects t at gone) =
      stays t (at_stage (q.jobs t) rejected) q.channel q.permits _ (ground (arith, at)) refl
  Internal-Ids inv (receives (submitted t) rest receiving e) =
      stays t (at_stage (q.jobs t) waiting) rest q.permits _
        (ground (arith, oldest_stage inv t rest e)) refl
  Internal-Ids inv (receives shutdown rest receiving e) =
      keeps (drop_messages rest q.jobs) [] false q.permits q.events
        (λ i. ground (arith, dropped inv rest e i)) (λ i. drop_messages_task rest q.jobs i)
  Internal-Ids inv (acquires t at open_ has_permit) =
      stays t (at_stage (q.jobs t) running) q.channel _ _ (ground (arith, at)) refl
  Internal-Ids inv (gives_up t at asked) =
      stays t (answer (q.jobs t) false (err cancelled)) q.channel q.permits _ (ground (arith, at))
        refl
  Internal-Ids inv (refuses t at shut) =
      stays t (answer (q.jobs t) false (err queue_closed)) q.channel q.permits _
        (ground (arith, at)) refl
  Internal-Ids inv (leaves t has_permit at) =
      left t has_permit (made inv t (answered has_permit) at (ground arith))

  Ending-Ids :
      {cfg : DownloaderConfig} {h : Hashes} {Meets : Circumstances} {r : DownloadQueue}
      → Ending cfg h Meets q r
      → Ids r
  unfolding complete unwind
  Ending-Ids (completes t m inner at met e) =
      stays t (answer (q.jobs t) true inner.result) q.channel q.permits _ (ground (arith, at)) refl
  Ending-Ids (unwinds t at) =
      stays t (at_stage (q.jobs t) panicked) q.channel _ _ (ground (arith, at)) refl

cancel_token-Ids : (t : ℕ) (q : DownloadQueue) → Ids q → Ids (cancel_token t q)
unfolding cancel_token
cancel_token-Ids t q ids =
    stays ids t (record (q.jobs t) { is_cancelled = true }) q.channel q.permits q.events refl refl

cancel_entries-Ids : (m : List (ℕ × ℕ)) (q : DownloadQueue) → Ids q → Ids (cancel_entries m q)
unfolding cancel_entries
cancel_entries-Ids [] q ids = ids
cancel_entries-Ids ((id, t) ∷ m) q ids =
    cancel_entries-Ids m (cancel_token t q) (cancel_token-Ids t q ids)

-- A task for which the queue is to choose the id.
abbrev pub IsAuto : DownloadTask → Type 0
IsAuto task = task.id ≡ 0

Call-Ids :
    {mc qc : ℕ} (q : DownloadQueue) {r : DownloadQueue}
    → Inv mc qc q
    → Ids q
    → r.created + 1 < u64_mod
    → Call IsAuto q r
    → Ids r
unfolding cancel_all send_shutdown take_handle join enter
Call-Ids q inv ids fits (enters task auto) =
    entered ids task auto fits (inv.outside q.created (omega arith))
Call-Ids q inv ids fits (cancels_id id e) =
    let (t, s, c) = cancel-token id q e in rw c (cancel_token-Ids t q ids)
Call-Ids q inv ids fits (cancels_token t lt) = cancel_token-Ids t q ids
Call-Ids q inv ids fits cancels_all = cancel_entries-Ids q.cancels q ids
Call-Ids q inv ids fits (sends_shutdown receiving has_room) =
    keeps ids q.jobs _ q.receiving q.permits q.events (λ i. refl) (λ i. refl)
Call-Ids q inv ids fits (takes_handle e) = record {
  next = ids.next;
  own = ids.own;
  entry = ids.entry;
}
Call-Ids q inv ids fits (joins e gone) = record {
  next = ids.next;
  own = ids.own;
  entry = ids.entry;
}

Asks-created : (m : List (ℕ × ℕ)) (q : DownloadQueue) → (cancel_entries m q).created ≡ q.created
unfolding cancel_entries cancel_token
Asks-created [] q = refl
Asks-created ((id, t) ∷ m) q = Asks-created m (cancel_token t q)

Call-created : {q r : DownloadQueue} → Call IsAuto q r → q.created ≤ r.created
unfolding enter cancel_all cancel_token send_shutdown take_handle join
Call-created (enters task auto) = omega arith
Call-created {q} {r} (cancels_id id e) =
    let (t, s, c) = cancel-token id q e in omega (arith, ap (λ (k : DownloadQueue). k.created) c)
Call-created (cancels_token t lt) = omega arith
Call-created {q} cancels_all = omega (arith, Asks-created q.cancels q)
Call-created (sends_shutdown receiving has_room) = omega arith
Call-created (takes_handle e) = omega arith
Call-created (joins e gone) = omega arith

Internal-created : {q r : DownloadQueue} → Internal q r → q.created ≡ r.created
unfolding register send reject dispatch acquire give_up refuse leave
Internal-created (registers t at) = refl
Internal-created (sends t at receiving has_room) = refl
Internal-created (rejects t at gone) = refl
Internal-created (receives (submitted t) rest receiving e) = refl
Internal-created (receives shutdown rest receiving e) = refl
Internal-created (acquires t at open_ has_permit) = refl
Internal-created (gives_up t at asked) = refl
Internal-created (refuses t at shut) = refl
Internal-created (leaves t has_permit at) = refl

Ending-created :
    {cfg : DownloaderConfig} {h : Hashes} {Meets : Circumstances} {q r : DownloadQueue}
    → Ending cfg h Meets q r
    → q.created ≡ r.created
unfolding complete unwind
Ending-created (completes t m inner at met e) = refl
Ending-created (unwinds t at) = refl

pub Reach-Ids :
    {cfg : DownloaderConfig} {h : Hashes} {Meets : Circumstances} {mc qc : ℕ} {q : DownloadQueue}
    → Reach cfg h Meets IsAuto mc qc q
    → q.created + 1 < u64_mod
    → Ids q
Reach-Ids {mc = mc} {qc = qc} start fits = new-Ids mc qc
Reach-Ids (later {q = before} r (call c)) fits =
    Call-Ids before (Reach-Inv r) (Reach-Ids r (omega (arith, Call-created c))) fits c
Reach-Ids (later r (internal i)) fits =
    Internal-Ids (Reach-Ids r (omega (arith, Internal-created i))) (Reach-Inv r) i
Reach-Ids (later r (ending e)) fits = Ending-Ids (Reach-Ids r (omega (arith, Ending-created e))) e
