-- ===== src/Single/Retry.antt =====
-- `single_thread` of src/downloader.rs: its attempts one after the other.
use fast_downloader.Prelude.{
  ℕ, ◌+◌, ◌≤◌, ◌<◌, ◌≡◌, ◌≢◌, inl, inr, refl, sym, subst, ap, Bool, Option, none, some, List, [],
  ◌∷◌, length, max, arith, leb, All, Bool-cases,
}
use fast_downloader.Prelude.Text.{Text}
use fast_downloader.Error.{Error, ok, err, cancelled, retry_exhausted, is_cancelled}
use fast_downloader.Config.{DownloaderConfig}
use fast_downloader.Http.{FileInfo}
use fast_downloader.Single.{Resume, Reply, Written, single_thread_attempt}
use fast_downloader.Single.Loop.{Try, after_attempt, Finish, running, returned, single_thread}
use fast_downloader.Single.Prefix.{IsPrefix, IsTotal}
use fast_downloader.Single.Answer.{IsHonestReply, IsGood}
use fast_downloader.Single.Attempt.{single_thread_attempt-result}

-- Every answer of the server in this round is honest.
pub record IsHonestTry (resource : List ℕ) (t : Try) : Type 0 where
  pub answers :
      (q : Option Resume) (resp : Reply) → t.visit.send q ≡ ok resp → IsHonestReply resource q resp

abbrev path_of : Text → Finish → Text
path_of d (returned (ok p)) = p
path_of d f = d

returned-injective : (p q : Text) → returned (ok q) ≡ returned (ok p) → p ≡ q
returned-injective p q h = sym (ap (path_of p) h)

module _ (cfg : DownloaderConfig) (info : FileInfo) (path : Text) (resource : List ℕ) where
  -- Where the loop is: the file is a beginning of the resource, and the whole where it returned a
  -- path.
  abbrev IsFine : List ℕ × Finish → Type 0
  IsFine out =
      IsPrefix resource out.0
      × ((p : Text)
          → out.1 ≡ returned (ok p)
          → (p ≡ path) × (info.size ≡ some (length resource) → out.0 ≡ resource))

  stopped-IsFine : (f : List ℕ) (e : Error) → IsPrefix resource f → IsFine (f, returned (err e))
  stopped-IsFine f e p = (p, λ q h. absurd (cc))

  after_attempt-IsFine :
      (attempt : ℕ) (file : List ℕ) (s : Bool) (o : Option Written)
      (next : ℕ → List ℕ → List ℕ × Finish)
      → IsPrefix resource file
      → ((w : Written) → o ≡ some w → IsGood resource info.size w)
      → ((f : List ℕ) → IsPrefix resource f → IsFine (next (attempt + 1) f))
      → IsFine (after_attempt cfg path attempt file s o next)
  unfolding after_attempt
  after_attempt-IsFine attempt file s none next p good k = (p, λ q h. absurd (cc))
  after_attempt-IsFine attempt file s (some (f, ok u)) next p good k =
      let g = good (f, ok u) refl in
      (g.0, λ q h. (returned-injective q path h, λ known. g.1 refl known))
  after_attempt-IsFine attempt file s (some (f, err e)) next p good k =
      let g = good (f, err e) refl in
      elim (Bool-cases (is_cancelled e)) [
        | inl stop ↦ rw (after_attempt, stop) (stopped-IsFine f cancelled g.0)
        | inr fails ↦ elim (Bool-cases (leb cfg.max_retries (attempt + 1))) [
          | inl last ↦
              rw (after_attempt, fails, last)
                (stopped-IsFine f (retry_exhausted (attempt + 1) e) g.0)
          | inr more ↦ elim (Bool-cases s) [
            | inl asleep ↦ rw (after_attempt, fails, more, asleep) (stopped-IsFine f cancelled g.0)
            | inr awake ↦ rw (after_attempt, fails, more, awake) (k f g.0)
          ]
        ]
      ]

  single_thread-IsFine :
      (attempt : ℕ) (file : List ℕ) (tries : List Try)
      → IsPrefix resource file
      → IsTotal resource info.size
      → All (IsHonestTry resource) tries
      → IsFine (single_thread cfg info path attempt file tries)
  unfolding single_thread
  single_thread-IsFine attempt file [] p t honest = (p, λ q h. absurd (cc))
  single_thread-IsFine attempt file (x ∷ tries) p t honest = elim (Bool-cases x.is_cancelled) [
    | inl stop ↦ rw (stop) (stopped-IsFine file cancelled p)
    | inr go_on ↦ rw (go_on) (
        after_attempt-IsFine attempt file x.cancelled_in_sleep
          (single_thread_attempt cfg info file x.visit)
          (λ a f. single_thread cfg info path a f tries) p
          (λ w h.
            single_thread_attempt-result cfg info resource file x.visit w p t honest.0.answers h)
          (λ f q. single_thread-IsFine (attempt + 1) f tries q t honest.1))
  ]

  -- However many attempts `single_thread` makes and whatever they meet from a server whose answers
  -- are honest, the file stays a beginning of the resource, if it was one before and the probe's
  -- length is right or missing: what is there can be resumed from.
  pub single_thread-IsPrefix :
      (file : List ℕ) (tries : List Try)
      → IsPrefix resource file
      → IsTotal resource info.size
      → All (IsHonestTry resource) tries
      → IsPrefix resource (single_thread cfg info path 0 file tries).0
  single_thread-IsPrefix file tries p t honest = (single_thread-IsFine 0 file tries p t honest).0

  -- When `single_thread` ends with a path and the probe found the resource's length, it is the path
  -- asked for, and the file is the resource: from a file that was a beginning of it, with honest
  -- answers.
  pub single_thread_complete :
      (file f : List ℕ) (tries : List Try) (p : Text)
      → IsPrefix resource file
      → info.size ≡ some (length resource)
      → All (IsHonestTry resource) tries
      → single_thread cfg info path 0 file tries ≡ (f, returned (ok p))
      → (p ≡ path) × (f ≡ resource)
  single_thread_complete file f tries p start known honest h =
      let fine = subst IsFine h (single_thread-IsFine 0 file tries start (inr known) honest) in
      let (here, whole) = fine.1 p refl in (here, whole known)

module _ (cfg : DownloaderConfig) (info : FileInfo) (path : Text) where
  after_attempt-stops :
      (attempt : ℕ) (file : List ℕ) (s : Bool) (o : Option Written)
      (next : ℕ → List ℕ → List ℕ × Finish)
      → (attempt + 1 < cfg.max_retries → (f : List ℕ) → (next (attempt + 1) f).1 ≢ running)
      → (after_attempt cfg path attempt file s o next).1 ≢ running
  unfolding after_attempt
  after_attempt-stops attempt file s none next k = λ h. cc
  after_attempt-stops attempt file s (some (f, ok u)) next k = λ h. cc
  after_attempt-stops attempt file s (some (f, err e)) next k = elim (Bool-cases (is_cancelled e)) [
    | inl stop ↦ rw (after_attempt, stop) (λ h. cc)
    | inr fails ↦ elim (Bool-cases (leb cfg.max_retries (attempt + 1))) [
      | inl last ↦ rw (after_attempt, fails, last) (λ h. cc)
      | inr more ↦ elim (Bool-cases s) [
        | inl asleep ↦ rw (after_attempt, fails, more, asleep) (λ h. cc)
        | inr awake ↦ rw (after_attempt, fails, more, awake) (k (ground arith) f)
      ]
    ]
  ]

  single_thread-stops :
      (attempt : ℕ) (file : List ℕ) (tries : List Try)
      → 0 < length tries
      → cfg.max_retries ≤ attempt + length tries
      → (single_thread cfg info path attempt file tries).1 ≢ running
  unfolding single_thread
  single_thread-stops attempt file [] some_tries enough = absurd (omega arith)
  single_thread-stops attempt file (x ∷ tries) some_tries enough =
      elim (Bool-cases x.is_cancelled) [
        | inl stop ↦ rw (stop) (λ h. cc)
        | inr go_on ↦ rw (go_on) (
            after_attempt-stops attempt file x.cancelled_in_sleep
              (single_thread_attempt cfg info file x.visit)
              (λ a f. single_thread cfg info path a f tries)
              (λ left f. single_thread-stops (attempt + 1) f tries (omega arith) (omega arith)))
      ]

  -- Within `max_retries` attempts, one at least, the loop of `single_thread` comes to its end,
  -- whatever it meets.
  pub single_thread_terminates :
      (file : List ℕ) (tries : List Try)
      → max cfg.max_retries 1 ≤ length tries
      → (single_thread cfg info path 0 file tries).1 ≢ running
  single_thread_terminates file tries enough =
      single_thread-stops 0 file tries (omega arith) (omega arith)
