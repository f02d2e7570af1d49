-- ===== src/Queue/Drains.antt =====
-- src/queue.rs: the queue comes to the end of its work.
use fast_downloader.Prelude.{
  ℕ, zero, suc, ◌+◌, ◌*◌, ◌≤◌, ◌<◌, ◌≡◌, ◌≢◌, ◌⊎◌, inl, inr, ap, true, false, List, [], ◌∷◌, ◌++◌,
  length, arith,
}
use fast_downloader.Error.{cancelled, queue_closed, err}
use fast_downloader.Checksum.{Hashes}
use fast_downloader.Config.{DownloaderConfig, DownloadTask}
use fast_downloader.Queue.{
  Stage, absent, entering, sending, in_channel, waiting, running, answered, finished, rejected,
  panicked, Job, at_stage, answer, QueueMsg, submitted, shutdown, DownloadQueue, register, send,
  reject, drop_messages, dispatch, acquire, give_up, refuse, complete, unwind, leave, Circumstances,
}
use fast_downloader.Queue.Family.{change, total, total-change, total_mono}
use fast_downloader.Queue.Steps.{
  Internal, registers, sends, rejects, receives, acquires, gives_up, refuses, leaves, Ending,
  completes, unwinds, Reach,
}
use fast_downloader.Queue.Invariant.{Inv, dropped, made, oldest_stage}
use fast_downloader.Queue.Reachable.{Internal-Inv, Ending-Inv, Reach-Inv}
use fast_downloader.Queue.Deadlock.{steps_left}

pub shutdowns : List QueueMsg → ℕ
shutdowns [] = 0
shutdowns (submitted t ∷ ms) = shutdowns ms
shutdowns (shutdown ∷ ms) = suc (shutdowns ms)

abbrev pub work : DownloadQueue → ℕ
work q = total steps_left q.created q.jobs + shutdowns q.channel

shutdowns-append : (c d : List QueueMsg) → shutdowns (c ++ d) ≡ shutdowns c + shutdowns d
unfolding shutdowns
shutdowns-append [] d = omega arith
shutdowns-append (submitted t ∷ c) d = shutdowns-append c d
shutdowns-append (shutdown ∷ c) d = omega (arith, shutdowns-append c d)

shutdowns-le : (c : List QueueMsg) → shutdowns c ≤ length c
unfolding shutdowns
shutdowns-le [] = omega arith
shutdowns-le (submitted t ∷ c) = omega (arith, shutdowns-le c)
shutdowns-le (shutdown ∷ c) = omega (arith, shutdowns-le c)

total-six : (n : ℕ) (jobs : ℕ → Job) → total steps_left n jobs ≤ 6 * n
unfolding total
total-six zero jobs = omega arith
total-six (suc n) jobs = ground (arith, total-six n jobs)

module _ {mc qc : ℕ} {q : DownloadQueue} (inv : Inv mc qc q) where
  -- A submission with fewer steps left.
  less :
      (t : ℕ) (s : Stage) (job : Job)
      → (q.jobs t).stage ≡ s
      → s ≢ absent
      → steps_left job < steps_left (q.jobs t)
      → total steps_left q.created (change q.jobs t job) < total steps_left q.created q.jobs
  less t s job at h lt =
      omega (arith, total-change steps_left q.created q.jobs t job (made inv t s at h), lt)

  Internal-work : {r : DownloadQueue} → Internal q r → work r < work q
  unfolding register send reject dispatch acquire give_up refuse leave shutdowns
  Internal-work (registers t at) =
      omega (
        arith,
        less t entering (at_stage (q.jobs t) sending) at (ground arith) (ground (arith, at)),
      )
  Internal-work (sends t at receiving has_room) = omega (
    arith,
    less t sending (at_stage (q.jobs t) in_channel) at (ground arith) (ground (arith, at)),
    shutdowns-append q.channel (submitted t ∷ []),
  )
  Internal-work (rejects t at gone) =
      omega (
        arith,
        less t sending (at_stage (q.jobs t) rejected) at (ground arith) (ground (arith, at)),
      )
  Internal-work (receives (submitted t) rest receiving e) = omega (
    arith,
    less t in_channel (at_stage (q.jobs t) waiting) (oldest_stage inv t rest e) (ground arith)
        (ground (arith, oldest_stage inv t rest e)),
    ap shutdowns e,
  )
  Internal-work (receives shutdown rest receiving e) = omega (
    arith,
    total_mono steps_left q.created (drop_messages rest q.jobs) q.jobs
        (λ i. ground (arith, dropped inv rest e i)),
    ap shutdowns e,
  )
  Internal-work (acquires t at open_ has_permit) =
      omega
        (arith, less t waiting (at_stage (q.jobs t) running) at (ground arith) (ground (arith, at)))
  Internal-work (gives_up t at asked) = omega (
    arith,
    less t waiting (answer (q.jobs t) false (err cancelled)) at (ground arith) (ground (arith, at)),
  )
  Internal-work (refuses t at shut) = omega (
    arith,
    less t waiting (answer (q.jobs t) false (err queue_closed)) at (ground arith)
        (ground (arith, at)),
  )
  Internal-work (leaves t has_permit at) = omega (
    arith,
    less t (answered has_permit) (at_stage (q.jobs t) finished) at (ground arith)
        (ground (arith, at)),
  )

  Ending-work :
      {cfg : DownloaderConfig} {h : Hashes} {Meets : Circumstances} {r : DownloadQueue}
      → Ending cfg h Meets q r
      → work r < work q
  unfolding complete unwind
  Ending-work (completes t m inner at met e) = omega (
    arith,
    less t running (answer (q.jobs t) true inner.result) at (ground arith) (ground (arith, at)),
  )
  Ending-work (unwinds t at) =
      omega (
        arith,
        less t running (at_stage (q.jobs t) panicked) at (ground arith) (ground (arith, at)),
      )

-- A step of the queue itself, or the end of a download.
abbrev pub Work : DownloaderConfig → Hashes → Circumstances → DownloadQueue → DownloadQueue → Type 0
Work cfg h Meets q r = Internal q r ⊎ Ending cfg h Meets q r

-- That many of them one after another, with no call in between.
pub data Works (cfg : DownloaderConfig) (h : Hashes) (Meets : Circumstances) (q : DownloadQueue)
    : ℕ → DownloadQueue → Type 0 where
  idle : Works cfg h Meets q 0 q
  more :
      {n : ℕ} {r s : DownloadQueue}
      → Works cfg h Meets q n r
      → Work cfg h Meets r s
      → Works cfg h Meets q (suc n) s

Works-work :
    {cfg : DownloaderConfig} {h : Hashes} {Meets : Circumstances} {mc qc : ℕ} {q : DownloadQueue}
    {n : ℕ} {r : DownloadQueue}
    → Inv mc qc q
    → Works cfg h Meets q n r
    → Inv mc qc r × (n + work r ≤ work q)
Works-work inv idle = (inv, omega arith)
Works-work inv (more w (inl i)) =
    let (before, le) = Works-work inv w in
    (Internal-Inv before i, omega (arith, le, Internal-work before i))
Works-work inv (more w (inr e)) =
    let (before, le) = Works-work inv w in
    (Ending-Inv before e, omega (arith, le, Ending-work before e))

-- The queue comes to the end of its work: between calls, it takes at most six steps for each
-- submission and one for each message in its channel, the ends of downloads included.
pub Works-bounded :
    {cfg : DownloaderConfig} {h : Hashes} {Meets : Circumstances} {Allowed : DownloadTask → Type 0}
    {max_concurrent queue_capacity : ℕ} {q : DownloadQueue}
    → Reach cfg h Meets Allowed max_concurrent queue_capacity q
    → {n : ℕ} {r : DownloadQueue} → Works cfg h Meets q n r
    → n ≤ 6 * q.created + length q.channel
Works-bounded {q = q} reach w =
    let (inv, le) = Works-work (Reach-Inv reach) w in
    omega (arith, le, total-six q.created q.jobs, shutdowns-le q.channel)
