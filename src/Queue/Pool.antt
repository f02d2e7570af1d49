-- ===== src/Queue/Pool.antt =====
-- What the queue of src/queue.rs promises, without its channel, its dispatcher, its ids and its
-- permits: a pool of submissions, of which at most `limit` are in their download at a time.
use mathlib.Core.Path.{fun_ext}
use fast_downloader.Prelude.{ℕ, suc, ◌<◌, ◌≡◌, Bool, true, false, Option, some, if◌then◌else◌}
use fast_downloader.Error.{Result, err, cancelled}
use fast_downloader.Checksum.{Hashes}
use fast_downloader.Config.{DownloaderConfig, DownloadTask, DownloadOutcome}
use fast_downloader.Download.{Meeting, Inner, download}
use fast_downloader.Queue.{empty_task, Circumstances}
use fast_downloader.Queue.Family.{change, total}

-- A submission ends `settled`, with what its reply channel holds, `refused` by a pool that has
-- stopped, or `crashed`. One that is `leaving` has its answer and still counts.
pub data Phase : Type 0 where
  unknown : Phase
  pending : Phase
  active : Phase
  leaving : Option (Result DownloadOutcome) → Phase
  settled : Option (Result DownloadOutcome) → Phase
  refused : Phase
  crashed : Phase

pub record Pool : Type 0 where
  pub size : ℕ
  pub phase : ℕ → Phase
  pub asked : ℕ → Bool
  pub wanted : ℕ → DownloadTask
  pub is_accepting : Bool

abbrev pub slot : Phase → ℕ
slot active = 1
slot (leaving r) = 1
slot _ = 0

abbrev pub in_slots : Pool → ℕ
in_slots p = total slot p.size p.phase

abbrev pub put : Pool → ℕ → Phase → Pool
put p t phase = record p { phase = change p.phase t phase }

-- One turn of the pool with its effect. `ask` may ask any submissions to stop, and takes nothing
-- back; `stop` may refuse pending submissions.
pub data Turn (cfg : DownloaderConfig) (h : Hashes) (Meets : Circumstances) (limit : ℕ) (p u : Pool)
    : Type 0 where
  submit :
      (task : DownloadTask)
      → u ≡ record p {
        size = suc p.size;
        phase = change p.phase p.size pending;
        asked = change p.asked p.size false;
        wanted = change p.wanted p.size task;
      }
      → Turn cfg h Meets limit p u
  begin :
      (t : ℕ)
      → t < p.size
      → p.phase t ≡ pending
      → in_slots p < limit
      → u ≡ put p t active
      → Turn cfg h Meets limit p u
  finish :
      (t : ℕ) (m : Meeting) (inner : Inner)
      → t < p.size
      → p.phase t ≡ active
      → Meets (p.asked t) (p.wanted t) m
      → download cfg h (p.wanted t) m ≡ some inner
      → u ≡ put p t (leaving (some inner.result))
      → Turn cfg h Meets limit p u
  leave :
      (t : ℕ) (r : Option (Result DownloadOutcome))
      → t < p.size
      → p.phase t ≡ leaving r
      → u ≡ put p t (settled r)
      → Turn cfg h Meets limit p u
  panic :
      (t : ℕ) → t < p.size → p.phase t ≡ active → u ≡ put p t crashed → Turn cfg h Meets limit p u
  give_up :
      (t : ℕ)
      → t < p.size
      → p.phase t ≡ pending
      → p.asked t ≡ true
      → u ≡ put p t (settled (some (err cancelled)))
      → Turn cfg h Meets limit p u
  refuse :
      (t : ℕ)
      → t < p.size
      → p.phase t ≡ pending
      → p.is_accepting ≡ false
      → u ≡ put p t refused
      → Turn cfg h Meets limit p u
  ask :
      (asked : ℕ → Bool)
      → ((i : ℕ) → p.asked i ≡ true → asked i ≡ true)
      → u ≡ record p { asked = asked }
      → Turn cfg h Meets limit p u
  stop :
      (lost : ℕ → Bool)
      → ((i : ℕ) → lost i ≡ true → p.phase i ≡ pending)
      → u ≡ record p { phase = λ i. if lost i then refused else p.phase i; is_accepting = false }
      → Turn cfg h Meets limit p u

abbrev pub empty_pool : Pool
empty_pool = record {
  size = 0;
  phase = λ i. unknown;
  asked = λ i. false;
  wanted = λ i. empty_task;
  is_accepting = true;
}

pub data Turns (cfg : DownloaderConfig) (h : Hashes) (Meets : Circumstances) (limit : ℕ)
    : Pool → Type 0 where
  empty : Turns cfg h Meets limit empty_pool
  turn :
      {p u : Pool}
      → Turns cfg h Meets limit p
      → Turn cfg h Meets limit p u
      → Turns cfg h Meets limit u

-- Pools are equal where they are equal at each submission.
pub Pool_ext :
    (p u : Pool)
    → p.size ≡ u.size
    → ((i : ℕ) → p.phase i ≡ u.phase i)
    → ((i : ℕ) → p.asked i ≡ u.asked i)
    → ((i : ℕ) → p.wanted i ≡ u.wanted i)
    → p.is_accepting ≡ u.is_accepting
    → p ≡ u
Pool_ext p u size phase asked wanted accepting = λ i. record {
  size = size i;
  phase = fun_ext phase i;
  asked = fun_ext asked i;
  wanted = fun_ext wanted i;
  is_accepting = accepting i;
}
