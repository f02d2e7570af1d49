-- ===== src/Queue/Refines.antt =====
-- src/queue.rs: the queue does what its pool does.
use fast_downloader.Prelude.{
  ℕ, zero, suc, ◌<◌, ◌≡◌, ◌⊎◌, inl, inr, refl, sym, ◌∙◌, subst, Bool, true, false, List, [], ◌∷◌,
  max, ◌==◌, if◌then◌else◌, arith,
}
use fast_downloader.Checksum.{Hashes}
use fast_downloader.Config.{DownloaderConfig, DownloadTask}
use fast_downloader.Queue.{
  absent, sending, waiting, running, answered, finished, rejected, lost, panicked, Job, QueueMsg,
  submitted, shutdown, DownloadQueue, new, enter, register, send, reject, drop_messages, dispatch,
  acquire, give_up, refuse, complete, unwind, leave, Circumstances,
}
use fast_downloader.Queue.Calls.{
  cancel_token, cancel_entries, cancel_all, send_shutdown, take_handle, join,
}
use fast_downloader.Queue.Family.{change, total}
use fast_downloader.Queue.Steps.{
  Call, enters, cancels_id, cancels_token, cancels_all, sends_shutdown, takes_handle, joins,
  Internal, registers, sends, rejects, receives, acquires, gives_up, refuses, leaves, Ending,
  completes, unwinds, Step, call, internal, ending, Reach, start, later,
}
use fast_downloader.Queue.Invariant.{Inv, holds, unread, dropped, made, oldest_stage}
use fast_downloader.Queue.Reachable.{cancel-token, Reach-Inv}
use fast_downloader.Queue.Pool
use fast_downloader.Queue.Pool.{
  Phase, unknown, pending, active, leaving, settled, refused, crashed, Pool, slot, in_slots, put,
  Turn, Turns, empty_pool, Pool_ext,
}

-- What a client can tell of a submission.
abbrev pub phase_of : Job → Phase
phase_of j = elim j.stage [
  | absent ↦ unknown
  | running ↦ active
  | answered has_permit ↦ if has_permit then leaving j.reply else settled j.reply
  | finished ↦ settled j.reply
  | rejected ↦ refused
  | lost ↦ refused
  | panicked ↦ crashed
  | _ ↦ pending
]

abbrev pub view_of : ℕ → (ℕ → Job) → Bool → Pool
view_of n jobs receiving = record {
  size = n;
  phase = λ i. phase_of (jobs i);
  asked = λ i. (jobs i).is_cancelled;
  wanted = λ i. (jobs i).task;
  is_accepting = receiving;
}

abbrev pub view : DownloadQueue → Pool
view q = view_of q.created q.jobs q.receiving

-- The pool takes a turn, or stays as it is.
abbrev pub Follows : DownloaderConfig → Hashes → Circumstances → ℕ → Pool → Pool → Type 0
Follows cfg h Meets limit p u = Turn cfg h Meets limit p u ⊎ (u ≡ p)

-- Every holder of a permit has a slot, and none else.
slots-holds : (n : ℕ) (jobs : ℕ → Job) → total slot n (λ i. phase_of (jobs i)) ≡ total holds n jobs
unfolding total
slots-holds zero jobs = refl
slots-holds (suc n) jobs = ground (arith, slots-holds n jobs)

-- A submission gets another phase.
view_of-change :
    (n : ℕ) (jobs : ℕ → Job) (b : Bool) (t : ℕ) (job : Job)
    → job.is_cancelled ≡ (jobs t).is_cancelled
    → job.task ≡ (jobs t).task
    → view_of n (change jobs t job) b ≡ put (view_of n jobs b) t (phase_of job)
view_of-change n jobs b t job asked same =
    Pool_ext _ _ refl (λ i. ground arith) (λ i. ground (arith, asked)) (λ i. ground (arith, same))
      refl

-- It gets another stage, and the pool stays as it is.
view_of-stays :
    (n : ℕ) (jobs : ℕ → Job) (b : Bool) (t : ℕ) (job : Job)
    → phase_of job ≡ phase_of (jobs t)
    → job.is_cancelled ≡ (jobs t).is_cancelled
    → job.task ≡ (jobs t).task
    → view_of n (change jobs t job) b ≡ view_of n jobs b
view_of-stays n jobs b t job e asked same =
    Pool_ext _ _ refl (λ i. ground (arith, e)) (λ i. ground (arith, asked))
      (λ i. ground (arith, same)) refl

module _ {mc qc : ℕ} {q : DownloadQueue} (inv : Inv mc qc q) where
  -- A free permit is a free slot.
  free : 0 < q.permits → in_slots (view q) < max mc 1
  free has = omega (arith, inv.slots, slots-holds q.created q.jobs)

  stopped :
      {cfg : DownloaderConfig} {h : Hashes} {Meets : Circumstances} (rest : List QueueMsg)
      → q.channel ≡ shutdown ∷ rest
      → Turn cfg h Meets (max mc 1) (view q) (view_of q.created (drop_messages rest q.jobs) false)
  unfolding drop_messages
  stopped rest e =
      Pool.stop (λ i. unread (q.jobs i) == 1) (λ i lost. ground arith)
        (Pool_ext _ _ refl (λ i. ground (arith, dropped inv rest e i)) (λ i. ground arith)
          (λ i. ground arith) refl)

  Internal-Follows :
      {cfg : DownloaderConfig} {h : Hashes} {Meets : Circumstances} {r : DownloadQueue}
      → Internal q r
      → Follows cfg h Meets (max mc 1) (view q) (view r)
  unfolding register send reject dispatch acquire give_up refuse leave
  Internal-Follows (registers t at) =
      inr (view_of-stays q.created q.jobs q.receiving t _ (ground (arith, at)) refl refl)
  Internal-Follows (sends t at receiving has_room) =
      inr (view_of-stays q.created q.jobs q.receiving t _ (ground (arith, at)) refl refl)
  Internal-Follows (rejects t at gone) = inl (
      Pool.refuse t (made inv t sending at (ground arith)) (ground (arith, at)) gone
        (view_of-change q.created q.jobs q.receiving t _ refl refl))
  Internal-Follows (receives (submitted t) rest receiving e) = inr (
      view_of-stays q.created q.jobs q.receiving t _ (ground (arith, oldest_stage inv t rest e))
        refl refl)
  Internal-Follows (receives shutdown rest receiving e) = inl (stopped rest e)
  Internal-Follows (acquires t at open_ has_permit) = inl (
      Pool.begin t (made inv t waiting at (ground arith)) (ground (arith, at)) (free has_permit)
        (view_of-change q.created q.jobs q.receiving t _ refl refl))
  Internal-Follows (gives_up t at asked) = inl (
      Pool.give_up t (made inv t waiting at (ground arith)) (ground (arith, at)) asked
        (view_of-change q.created q.jobs q.receiving t _ refl refl))
  Internal-Follows (refuses t at shut) = absurd (ground (arith, shut, inv.is_open))
  Internal-Follows (leaves t true at) = inl (
      Pool.leave t (q.jobs t).reply (made inv t (answered true) at (ground arith))
        (ground (arith, at)) (view_of-change q.created q.jobs q.receiving t _ refl refl))
  Internal-Follows (leaves t false at) =
      inr (view_of-stays q.created q.jobs q.receiving t _ (ground (arith, at)) refl refl)

  Ending-Follows :
      {cfg : DownloaderConfig} {h : Hashes} {Meets : Circumstances} {r : DownloadQueue}
      → Ending cfg h Meets q r
      → Follows cfg h Meets (max mc 1) (view q) (view r)
  unfolding complete unwind
  Ending-Follows (completes t m inner at met e) = inl (
      Pool.finish t m inner (made inv t running at (ground arith)) (ground (arith, at)) met e
        (view_of-change q.created q.jobs q.receiving t _ refl refl))
  Ending-Follows (unwinds t at) = inl (
      Pool.panic t (made inv t running at (ground arith)) (ground (arith, at))
        (view_of-change q.created q.jobs q.receiving t _ refl refl))

-- Tokens are cancelled, and nothing else changes.
pub data Asks (q r : DownloadQueue) : Type 0 where
  asks :
      r.created ≡ q.created
      → r.receiving ≡ q.receiving
      → ((i : ℕ) → phase_of (r.jobs i) ≡ phase_of (q.jobs i))
      → ((i : ℕ) → (r.jobs i).task ≡ (q.jobs i).task)
      → ((i : ℕ) → (q.jobs i).is_cancelled ≡ true → (r.jobs i).is_cancelled ≡ true)
      → Asks q r

cancel_token-Asks : (t : ℕ) (q : DownloadQueue) → Asks q (cancel_token t q)
unfolding cancel_token
cancel_token-Asks t q = asks refl refl (λ i. ground arith) (λ i. ground arith) (λ i e. ground arith)

Asks-trans : (q r s : DownloadQueue) → Asks q r → Asks r s → Asks q s
Asks-trans q r s (asks a b c d e) (asks a' b' c' d' e') =
    asks (a' ∙ a) (b' ∙ b) (λ i. c' i ∙ c i) (λ i. d' i ∙ d i) (λ i h. e' i (e i h))

pub cancel_entries-Asks : (m : List (ℕ × ℕ)) (q : DownloadQueue) → Asks q (cancel_entries m q)
unfolding cancel_entries
cancel_entries-Asks [] q = asks refl refl (λ i. refl) (λ i. refl) (λ i e. e)
cancel_entries-Asks ((id, t) ∷ m) q =
    Asks-trans q (cancel_token t q) _ (cancel_token-Asks t q)
      (cancel_entries-Asks m (cancel_token t q))

Asks-Follows :
    {cfg : DownloaderConfig} {h : Hashes} {Meets : Circumstances} {limit : ℕ} (q r : DownloadQueue)
    → Asks q r
    → Follows cfg h Meets limit (view q) (view r)
Asks-Follows q r (asks a b c d e) =
    inl (Pool.ask (λ i. (r.jobs i).is_cancelled) e (Pool_ext _ _ a c (λ i. refl) d b))

Call-Follows :
    {cfg : DownloaderConfig} {h : Hashes} {Meets : Circumstances} {limit : ℕ}
    {Allowed : DownloadTask → Type 0} {q r : DownloadQueue}
    → Call Allowed q r
    → Follows cfg h Meets limit (view q) (view r)
unfolding cancel_all send_shutdown take_handle join enter
Call-Follows {q = q} (enters task a) = inl (
    Pool.submit (if task.id == 0 then record task { id = q.next_id } else task)
      (Pool_ext _ _ refl (λ i. ground arith) (λ i. ground arith) (λ i. ground arith) refl))
Call-Follows {q = q} (cancels_id id e) =
    let (t, s, c) = cancel-token id q e in
    rw c (Asks-Follows q (cancel_token t q) (cancel_token-Asks t q))
Call-Follows {q = q} (cancels_token t lt) =
    Asks-Follows q (cancel_token t q) (cancel_token-Asks t q)
Call-Follows {q = q} cancels_all = Asks-Follows q _ (cancel_entries-Asks q.cancels q)
Call-Follows (sends_shutdown receiving has_room) = inr refl
Call-Follows (takes_handle e) = inr refl
Call-Follows (joins e gone) = inr refl

Step-Follows :
    {cfg : DownloaderConfig} {h : Hashes} {Meets : Circumstances} {Allowed : DownloadTask → Type 0}
    {mc qc : ℕ} {q r : DownloadQueue}
    → Inv mc qc q
    → Step cfg h Meets Allowed q r
    → Follows cfg h Meets (max mc 1) (view q) (view r)
Step-Follows inv (call c) = Call-Follows c
Step-Follows inv (internal i) = Internal-Follows inv i
Step-Follows inv (ending e) = Ending-Follows inv e

-- The queue refines its pool: whatever the clients submit, every state that a queue reaches looks
-- like a pool that its own turns have reached, with a limit of `max_concurrent` slots, or one for
-- zero.
pub Reach-refines :
    {cfg : DownloaderConfig} {h : Hashes} {Meets : Circumstances} {Allowed : DownloadTask → Type 0}
    {mc qc : ℕ} {q : DownloadQueue}
    → Reach cfg h Meets Allowed mc qc q
    → Turns cfg h Meets (max mc 1) (view q)
unfolding new
Reach-refines start = Pool.empty
Reach-refines {cfg} {h} {Meets = Meets} {mc = mc} (later r s) =
    elim (Step-Follows (Reach-Inv r) s) [
      | inl t ↦ Pool.turn (Reach-refines r) t
      | inr e ↦ subst (λ p. Turns cfg h Meets (max mc 1) p) (sym e) (Reach-refines r)
    ]
