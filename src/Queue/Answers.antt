-- ===== src/Queue/Answers.antt =====
-- src/queue.rs: what a submission is answered, and what it means if it is not.
use fast_downloader.Prelude.{
  ℕ, ◌≡◌, ◌⊎◌, inl, inr, refl, subst, Bool, true, false, Option, some, max, ◌==◌, ==_iff,
  if◌then◌else◌, Bool-cases, arith,
}
use fast_downloader.Error.{Result, err, cancelled}
use fast_downloader.Checksum.{Hashes}
use fast_downloader.Config.{DownloaderConfig, DownloadTask, DownloadOutcome}
use fast_downloader.Download.{Meeting, Inner, download}
use fast_downloader.Queue.{
  Stage, absent, entering, sending, in_channel, waiting, running, answered, finished, rejected,
  lost, panicked, DownloadQueue, Circumstances,
}
use fast_downloader.Queue.Steps.{Reach}
use fast_downloader.Queue.Pool
use fast_downloader.Queue.Pool.{
  Phase, unknown, pending, active, leaving, settled, refused, crashed, Pool, put, Turn, Turns,
  empty_pool,
}
use fast_downloader.Queue.Refines.{phase_of, view, Reach-refines}

module _ (cfg : DownloaderConfig) (h : Hashes) (Meets : Circumstances) where
  -- `Cancelled` for one that was asked to stop, or what `download` returned for its task in
  -- circumstances that the task and its token allowed at that time.
  abbrev pub IsAnswer : Bool → DownloadTask → Result DownloadOutcome → Type 0
  IsAnswer asked task r =
      ((asked ≡ true) × (r ≡ err cancelled))
      ⊎ ((cancelled_then : Bool) × (m : Meeting) × (inner : Inner) × (cancelled_then ≡ true
            → asked ≡ true)
          × Meets cancelled_then task m
          × (download cfg h task m ≡ some inner)
          × (r ≡ inner.result))

  abbrev pub IsAnswered : Bool → DownloadTask → Option (Result DownloadOutcome) → Type 0
  IsAnswered asked task reply =
      (r : Result DownloadOutcome) × (reply ≡ some r) × IsAnswer asked task r

  abbrev Right : Bool → Bool → DownloadTask → Phase → Type 0
  Right accepting asked task (leaving reply) = IsAnswered asked task reply
  Right accepting asked task (settled reply) = IsAnswered asked task reply
  Right accepting asked task refused = accepting ≡ false
  Right accepting asked task _ = Unit

  abbrev AllRight : Pool → Type 0
  AllRight p = (i : ℕ) → Right p.is_accepting (p.asked i) (p.wanted i) (p.phase i)

  put-AllRight :
      (p : Pool) (t : ℕ) (phase : Phase)
      → AllRight p
      → Right p.is_accepting (p.asked t) (p.wanted t) phase
      → AllRight (put p t phase)
  put-AllRight p t phase right new i = elim (Bool-cases (t == i)) [
    | inl e ↦
        rw e
          (subst (λ k. Right p.is_accepting (p.asked k) (p.wanted k) phase) ((==_iff t i).0 e) new)
    | inr e ↦ rw e (right i)
  ]

  -- A token that is cancelled stays so.
  IsAnswer-asked :
      (asked later : Bool) (task : DownloadTask) (r : Result DownloadOutcome)
      → (asked ≡ true → later ≡ true)
      → IsAnswer asked task r
      → IsAnswer later task r
  IsAnswer-asked asked later task r mono (inl (a, e)) = inl (mono a, e)
  IsAnswer-asked asked later task r mono (inr (b, m, inner, before, met, d, e)) =
      inr (b, m, inner, (λ x. mono (before x)), met, d, e)

  Right-asked :
      (accepting : Bool) (asked later : Bool) (task : DownloadTask) (phase : Phase)
      → (asked ≡ true → later ≡ true)
      → Right accepting asked task phase
      → Right accepting later task phase
  Right-asked accepting asked later task (leaving reply) mono (r, e, answer) =
      (r, e, IsAnswer-asked asked later task r mono answer)
  Right-asked accepting asked later task (settled reply) mono (r, e, answer) =
      (r, e, IsAnswer-asked asked later task r mono answer)
  Right-asked accepting asked later task refused mono right = right
  Right-asked accepting asked later task unknown mono right = tt
  Right-asked accepting asked later task pending mono right = tt
  Right-asked accepting asked later task active mono right = tt
  Right-asked accepting asked later task crashed mono right = tt

  Right-stopped :
      (accepting asked : Bool) (task : DownloadTask) (phase : Phase) (lost : Bool)
      → Right accepting asked task phase
      → Right false asked task (if lost then refused else phase)
  Right-stopped accepting asked task phase true right = refl
  Right-stopped accepting asked task (leaving reply) false right = right
  Right-stopped accepting asked task (settled reply) false right = right
  Right-stopped accepting asked task refused false right = refl
  Right-stopped accepting asked task unknown false right = tt
  Right-stopped accepting asked task pending false right = tt
  Right-stopped accepting asked task active false right = tt
  Right-stopped accepting asked task crashed false right = tt

  Turn-AllRight : (limit : ℕ) (p u : Pool) → AllRight p → Turn cfg h Meets limit p u → AllRight u
  Turn-AllRight limit p u right (Pool.submit task e) =
      rw e
        (λ i. elim (Bool-cases (p.size == i)) [ inl new ↦ rw new tt | inr old ↦ rw old (right i) ])
  Turn-AllRight limit p u right (Pool.begin t lt at room e) =
      rw e (put-AllRight p t active right tt)
  Turn-AllRight limit p u right (Pool.finish t m inner lt at met d e) = rw e (
      put-AllRight p t (leaving (some inner.result)) right
        (inner.result, refl, inr (p.asked t, m, inner, (λ x. x), met, d, refl)))
  Turn-AllRight limit p u right (Pool.leave t r lt at e) = rw e (
      put-AllRight p t (settled r) right
        (subst (Right p.is_accepting (p.asked t) (p.wanted t)) at (right t)))
  Turn-AllRight limit p u right (Pool.panic t lt at e) = rw e (put-AllRight p t crashed right tt)
  Turn-AllRight limit p u right (Pool.give_up t lt at asked e) = rw e (
      put-AllRight p t (settled (some (err cancelled))) right
        (err cancelled, refl, inl (asked, refl)))
  Turn-AllRight limit p u right (Pool.refuse t lt at gone e) =
      rw e (put-AllRight p t refused right gone)
  Turn-AllRight limit p u right (Pool.ask asked mono e) = rw e (λ i.
      Right-asked p.is_accepting (p.asked i) (asked i) (p.wanted i) (p.phase i) (mono i) (right i))
  Turn-AllRight limit p u right (Pool.stop gone pending_ e) =
      rw e
        (λ i. Right-stopped p.is_accepting (p.asked i) (p.wanted i) (p.phase i) (gone i) (right i))

  Turns-AllRight : (limit : ℕ) (p : Pool) → Turns cfg h Meets limit p → AllRight p
  Turns-AllRight limit p Pool.empty = λ i. tt
  Turns-AllRight limit p (Pool.turn {p = before} ts t) =
      Turn-AllRight limit before p (Turns-AllRight limit before ts) t

abbrev pub is_ended : Stage → Bool
is_ended finished = true
is_ended rejected = true
is_ended lost = true
is_ended panicked = true
is_ended _ = false

ended :
    (cfg : DownloaderConfig) (h : Hashes) (Meets : Circumstances) {accepting : Bool} (s : Stage)
    (task : DownloadTask) (asked : Bool) (reply : Option (Result DownloadOutcome))
    → Right cfg h Meets accepting asked task
        (phase_of (record { task = task; stage = s; is_cancelled = asked; reply = reply }))
    → is_ended s ≡ true
    → IsAnswered cfg h Meets asked task reply ⊎ ((s ≡ panicked) ⊎ (accepting ≡ false))
ended cfg h Meets finished task asked reply right e = inl right
ended cfg h Meets rejected task asked reply right e = inr (inr right)
ended cfg h Meets lost task asked reply right e = inr (inr right)
ended cfg h Meets panicked task asked reply right e = inr (inl refl)
ended cfg h Meets absent task asked reply right e = ground arith
ended cfg h Meets entering task asked reply right e = ground arith
ended cfg h Meets sending task asked reply right e = ground arith
ended cfg h Meets in_channel task asked reply right e = ground arith
ended cfg h Meets waiting task asked reply right e = ground arith
ended cfg h Meets running task asked reply right e = ground arith
ended cfg h Meets (answered has_permit) task asked reply right e = ground arith

module _ {cfg : DownloaderConfig} {h : Hashes} {Meets : Circumstances}
    {Allowed : DownloadTask → Type 0} {max_concurrent queue_capacity : ℕ} {q : DownloadQueue}
    (r : Reach cfg h Meets Allowed max_concurrent queue_capacity q) where
  right :
      (t : ℕ)
      → Right cfg h Meets q.receiving (q.jobs t).is_cancelled (q.jobs t).task (phase_of (q.jobs t))
  right = Turns-AllRight cfg h Meets (max max_concurrent 1) (view q) (Reach-refines r)

  -- A submission that has ended has one answer in its reply channel: `Cancelled` without a
  -- download, and then its token was cancelled; or what `download` returned for its own task, in
  -- circumstances that the task and its token at that time allow, whatever these are (`Meets`),
  -- and a token that was cancelled then still is; or its download panicked; or the dispatcher has
  -- stopped.
  pub ended_answer :
      (t : ℕ)
      → is_ended (q.jobs t).stage ≡ true
      → IsAnswered cfg h Meets (q.jobs t).is_cancelled (q.jobs t).task (q.jobs t).reply
        ⊎ (((q.jobs t).stage ≡ panicked) ⊎ (q.receiving ≡ false))
  ended_answer t e =
      ended cfg h Meets (q.jobs t).stage (q.jobs t).task (q.jobs t).is_cancelled (q.jobs t).reply
        (right t) e
