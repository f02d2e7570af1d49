-- ===== src/Queue/Invariant.antt =====
-- src/queue.rs: what holds in every reachable state of the queue: the permits and their holders,
-- the channel and the submissions in it, and what is known of a queue that has stopped receiving.
use fast_downloader.Prelude.{
  ℕ, ◌+◌, ◌≤◌, ◌<◌, ◌≡◌, ◌≢◌, inl, inr, refl, sym, ap, ◌∙◌, false, List, [], ◌∷◌, ◌++◌, max, length,
  ltb, ◌==◌, if◌then◌else◌, Bool-cases, arith,
}
use fast_downloader.Download.{DownloadEvent}
use fast_downloader.Queue.{
  Stage, absent, in_channel, running, answered, lost, Job, QueueMsg, submitted, shutdown, joined,
  DownloadQueue, new, in_messages, drop_messages,
}
use fast_downloader.Queue.Family.{change, total, total-change, total-same}

-- One for a submission that holds a permit.
abbrev pub holds : Job → ℕ
holds j = elim j.stage [ running ↦ 1 | answered has_permit ↦ if has_permit then 1 else 0 | _ ↦ 0 ]

-- One for a submission that should be in the channel.
abbrev pub unread : Job → ℕ
unread j = elim j.stage [ in_channel ↦ 1 | _ ↦ 0 ]

pub record Inv (max_concurrent queue_capacity : ℕ) (q : DownloadQueue) : Type 0 where
  pub outside : (i : ℕ) → q.created ≤ i → (q.jobs i).stage ≡ absent
  pub slots : q.permits + total holds q.created q.jobs ≡ max max_concurrent 1
  pub is_open : q.is_semaphore_closed ≡ false
  pub in_channel_once : (i : ℕ) → in_messages i q.channel ≡ unread (q.jobs i)
  pub capacity : q.capacity ≡ max queue_capacity 1
  pub room : length q.channel ≤ q.capacity
  pub closed : q.receiving ≡ false → q.channel ≡ []
  pub joined_closed : q.dispatcher ≡ joined → q.receiving ≡ false

unread_stage : (j : Job) → 0 < unread j → j.stage ≡ in_channel
unread_stage j h = ground arith

pub in_messages-append :
    (i : ℕ) (c d : List QueueMsg) → in_messages i (c ++ d) ≡ in_messages i c + in_messages i d
unfolding in_messages
in_messages-append i [] d = omega arith
in_messages-append i (submitted t ∷ c) d = omega (arith, in_messages-append i c d)
in_messages-append i (shutdown ∷ c) d = in_messages-append i c d

pub new-Inv :
    (max_concurrent queue_capacity : ℕ)
    → Inv max_concurrent queue_capacity (new max_concurrent queue_capacity)
unfolding new total in_messages
new-Inv mc qc = record {
  outside = λ i h. refl;
  slots = omega arith;
  is_open = refl;
  in_channel_once = λ i. refl;
  capacity = refl;
  room = omega arith;
  closed = λ h. refl;
  joined_closed = λ h. ground arith;
}

module _ {mc qc : ℕ} {q : DownloadQueue} (inv : Inv mc qc q) where
  open inv use {outside, slots, is_open, in_channel_once, capacity, room, closed, joined_closed}

  -- A submission that is somewhere has been made.
  pub created_of_stage : (t : ℕ) → (q.jobs t).stage ≢ absent → t < q.created
  created_of_stage t h = elim (Bool-cases (ltb t q.created)) [
    | inl e ↦ ground arith
    | inr e ↦ absurd (h (outside t (ground arith)))
  ]

  pub made : (t : ℕ) (s : Stage) → (q.jobs t).stage ≡ s → s ≢ absent → t < q.created
  made t s at h = created_of_stage t (λ e. h (sym at ∙ e))

  -- One submission moves on, perhaps with a permit or a message.
  pub moved :
      (t : ℕ) (job : Job) (m : List (ℕ × ℕ)) (c : List QueueMsg) (p : ℕ) (es : List DownloadEvent)
      → t < q.created
      → p + holds job ≡ q.permits + holds (q.jobs t)
      → ((i : ℕ) → in_messages i c ≡ unread (change q.jobs t job i))
      → length c ≤ q.capacity
      → (q.receiving ≡ false → c ≡ [])
      → Inv mc qc (record q {
        cancels = m;
        jobs = change q.jobs t job;
        channel = c;
        permits = p;
        events = es;
      })
  moved t job m c p es lt held once fits shut = record {
    outside = λ i h. ground (arith, outside i h);
    slots = omega (arith, slots, held, total-change holds q.created q.jobs t job lt);
    is_open = is_open;
    in_channel_once = once;
    capacity = capacity;
    room = fits;
    closed = shut;
    joined_closed = joined_closed;
  }

  -- The same outside the channel.
  pub stays :
      (t : ℕ) (job : Job) (m : List (ℕ × ℕ)) (p : ℕ)
      → t < q.created
      → p + holds job ≡ q.permits + holds (q.jobs t)
      → unread job ≡ unread (q.jobs t)
      → Inv mc qc (record q { cancels = m; jobs = change q.jobs t job; permits = p })
  stays t job m p lt held same =
      moved t job m q.channel p q.events lt held
        (λ i. ground (arith, in_channel_once i, in_channel_once t, same)) room closed

  -- What the oldest message of the channel says of its submission.
  pub oldest :
      (t : ℕ) (rest : List QueueMsg) (i : ℕ)
      → q.channel ≡ submitted t ∷ rest
      → unread (q.jobs i) ≡ (if t == i then 1 else 0) + in_messages i rest
  unfolding in_messages
  oldest t rest i e = sym (in_channel_once i) ∙ ap (in_messages i) e

  pub oldest_stage :
      (t : ℕ) (rest : List QueueMsg)
      → q.channel ≡ submitted t ∷ rest
      → (q.jobs t).stage ≡ in_channel
  oldest_stage t rest e = unread_stage (q.jobs t) (ground (arith, oldest t rest t e))

  -- What is left of the channel is dropped.
  pub dropped :
      (rest : List QueueMsg)
      → q.channel ≡ shutdown ∷ rest
      → (i : ℕ)
      → (drop_messages rest q.jobs i).stage
        ≡ (if unread (q.jobs i) == 1 then lost else (q.jobs i).stage)
  unfolding drop_messages in_messages
  dropped rest e i = ground (arith, in_channel_once i, ap (in_messages i) e)

  pub same_stages :
      (jobs : ℕ → Job)
      → ((i : ℕ) → (jobs i).stage ≡ (q.jobs i).stage)
      → Inv mc qc (record q { jobs = jobs })
  same_stages jobs same = record {
    outside = λ i h. same i ∙ outside i h;
    slots =
        omega (arith, slots, total-same holds q.created jobs q.jobs (λ i. ground (arith, same i)));
    is_open = is_open;
    in_channel_once = λ i. ground (arith, same i, in_channel_once i);
    capacity = capacity;
    room = room;
    closed = closed;
    joined_closed = joined_closed;
  }
