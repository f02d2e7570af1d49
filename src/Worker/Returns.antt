-- ===== src/Worker/Returns.antt =====
-- When `worker_loop` of src/downloader.rs returns: after how many rounds at most, and which answers
-- keep it going for ever.
use native.Mathlib.Nat.{mul-le-mul_right}
use fast_downloader.Prelude.{
  ℕ, suc, ◌+◌, ◌-◌, ◌*◌, ◌≤◌, ◌<◌, ◌≡◌, inl, inr, refl, Bool, true, false, Option, none, some, List,
  [], ◌∷◌, ◌++◌, length, max, ltb, leb, arith, Bool-cases, All,
}
use fast_downloader.Prelude.Text.{Text}
use fast_downloader.Error.{Error, Result, ok, err, cancelled}
use fast_downloader.Config.{DownloaderConfig}
use fast_downloader.Worker.{
  store_current, range_not_satisfiable, Outcome, Request, Response, partial_content, on_response,
  segment_loop, download_segment, current_after, Round, Next, return, repeat, retry, after_segment,
  Run, worker_loop,
}
use fast_downloader.Worker.Trace.{max_slice}
use fast_downloader.Worker.Loop.{IsHonest, download_segment-Trace, Trace-progress}

module _ (cfg : DownloaderConfig) (end : ℕ) (if_range : Option Text) where
  -- A segment that ends without an error has moved `current`.
  pub record IsProductive (r : Round) : Type 0 where
    pub moves :
        (p : ℕ)
        → p < end
        → (download_segment cfg end if_range p r.send).1 ≡ ok tt
        → p < current_after p (download_segment cfg end if_range p r.send).0

  -- How many rounds may follow: as many failures as are allowed, for each byte.
  pub budget : ℕ → ℕ → ℕ
  budget attempt p = (end - p) * max cfg.max_retries 1 + (max cfg.max_retries 1 - attempt)

  retry-repeat :
      (attempt a d : ℕ) (s : Bool) (e : Error)
      → retry cfg attempt s e ≡ repeat a d
      → (a ≡ attempt + 1) × (attempt + 1 < cfg.max_retries)
  unfolding retry
  retry-repeat attempt a d s e h = ground arith

  nothing_left : (p : ℕ) → p ≤ end → (end - p) * max cfg.max_retries 1 ≤ 0 → end ≤ p
  nothing_left p h z = grind arith

  -- Going on from a segment leaves less to do.
  after_segment-budget :
      (attempt p q a d : ℕ) (s : Bool) (result : Result (Unit {0}))
      → attempt < max cfg.max_retries 1
      → p ≤ q
      → q ≤ end
      → (result ≡ ok tt → p < q)
      → after_segment cfg attempt s result ≡ repeat a d
      → (budget a q < budget attempt p) × (a < max cfg.max_retries 1)
  unfolding after_segment budget
  after_segment-budget attempt p q a d s (ok tt) fresh le fits moved h =
      let e : a ≡ 0 = cc in
      let lt : p < q = moved refl in
      omega (
        arith,
        e,
        mul-le-mul_right {m = suc (end - q)} {n = end - p} (max cfg.max_retries 1) (omega arith),
      )
  after_segment-budget attempt p q a d s (err cancelled) fresh le fits moved h = cc
  after_segment-budget attempt p q a d s (err e) fresh le fits moved h = ground (
    arith,
    retry-repeat attempt a d s e,
    mul-le-mul_right {m = end - q} {n = end - p} (max cfg.max_retries 1) (omega arith),
  )

  abbrev Returns : Run → Type 0
  Returns run = (x : Result (Unit {0})) × (run.1 ≡ some x)

  Returns-round :
      (p : ℕ) (o : Outcome) (next : Next) (rest : ℕ → ℕ → Run)
      → ((a d : ℕ) → next ≡ repeat a d → Returns (rest a (current_after p o.0)))
      → Returns (elim next as (λ _. Run) [
        | return x ↦ (o.0, some x)
        | repeat attempt' delay ↦
            let (more, x) = rest attempt' (current_after p o.0) in (o.0 ++ more, x)
      ])
  Returns-round p o (return x) rest k = (x, refl)
  Returns-round p o (repeat a d) rest k = k a d refl

  -- From any moment of a run, `worker_loop` returns within the budget of rounds.
  returns_within :
      (content : ℕ → ℕ) (attempt p : ℕ) (rounds : List Round)
      → attempt < max cfg.max_retries 1
      → p ≤ end
      → end ≤ max_slice
      → All (λ r. IsHonest content r × IsProductive r) rounds
      → budget attempt p ≤ length rounds
      → (x : Result (Unit {0})) × ((worker_loop cfg end if_range attempt p rounds).1 ≡ some x)
  unfolding worker_loop budget
  returns_within content attempt p [] fresh h e good fuel =
      let stop : ltb p end ≡ false = ground (arith, nothing_left p) in (ok tt, rw stop)
  returns_within content attempt p (r ∷ rounds) fresh h e good fuel =
      elim (Bool-cases (ltb p end)) [
        | inr finished ↦ rw (finished, worker_loop) (ok tt, refl)
        | inl more ↦ elim (Bool-cases r.is_cancelled) [
          | inl stop ↦ rw (more, stop, worker_loop) (err cancelled, refl)
          | inr go ↦
              rw (more, go, worker_loop)
                (Returns-round p (download_segment cfg end if_range p r.send)
                  (after_segment cfg attempt r.cancelled_in_sleep
                    (download_segment cfg end if_range p r.send).1)
                  (λ a q. worker_loop cfg end if_range a q rounds)
                  (λ a d goes_on.
                    let lt : p < end = ground arith in
                    let o = download_segment cfg end if_range p r.send in
                    let trace = download_segment-Trace content cfg end if_range p r lt e good.0.0 in
                    let (up, within) = Trace-progress o.0 h trace in
                    let (less, fresh') =
                      after_segment-budget attempt p (current_after p o.0) a d r.cancelled_in_sleep
                        o.1 fresh (omega (arith, up)) within (good.0.1.moves p lt) goes_on in
                    returns_within content a (current_after p o.0) rounds fresh' within e good.1
                      (omega (arith, less, fuel))))
        ]
      ]

-- A worker whose range ends at 2^63 at most, whose server is honest, none of whose writes fails
-- in the background, and whose segments move on whenever they end without an error, returns:
-- within as many rounds as failures in a row are allowed (one at least), for each byte of its
-- range and once more.
pub worker_loop-Returns :
    (cfg : DownloaderConfig) (end : ℕ) (if_range : Option Text) (content : ℕ → ℕ) (p : ℕ)
    (rounds : List Round)
    → p ≤ end
    → end ≤ max_slice
    → All (λ r. IsHonest content r × IsProductive cfg end if_range r) rounds
    → (end - p) * max cfg.max_retries 1 + max cfg.max_retries 1 ≤ length rounds
    → (x : Result (Unit {0})) × ((worker_loop cfg end if_range 0 p rounds).1 ≡ some x)
unfolding budget
worker_loop-Returns cfg end if_range content p rounds h e good fuel =
    returns_within cfg end if_range content 0 p rounds (omega arith) h e good (omega arith)

-- The server answers every request with a partial response that carries nothing.
pub record IsEmptyReply (r : Round) : Type 0 where
  pub not_cancelled : r.is_cancelled ≡ false
  pub replies :
      (q : Request)
      → r.send q
        ≡ ok (record { status = partial_content; opened = ok tt; stream = []; last_flush = ok tt })

empty_segment :
    (cfg : DownloaderConfig) (end : ℕ) (if_range : Option Text) (p : ℕ) (r : Round)
    → p < end
    → IsEmptyReply r
    → download_segment cfg end if_range p r.send ≡ ([], ok tt)
unfolding download_segment on_response segment_loop
empty_segment cfg end if_range p r h empty =
    let more : leb end p ≡ false = ground arith in rw (more, empty.replies)

-- While the server answers with empty partial responses, the worker does nothing and does not
-- return, over any number of rounds and whatever `max_retries` is: these rounds count as successes,
-- and are repeated with no delay.
pub empty_replies-spin :
    (cfg : DownloaderConfig) (end : ℕ) (if_range : Option Text) (attempt p : ℕ)
    (rounds : List Round)
    → p < end
    → All IsEmptyReply rounds
    → worker_loop cfg end if_range attempt p rounds ≡ ([], none)
unfolding worker_loop after_segment current_after
empty_replies-spin cfg end if_range attempt p [] h empty = ground arith
empty_replies-spin cfg end if_range attempt p (r ∷ rounds) h empty =
    let more : ltb p end ≡ true = ground arith in
    rw (
      more,
      empty.0.not_cancelled,
      empty_segment cfg end if_range p r h empty.0,
      empty_segment cfg end if_range p r h empty.0,
      empty_replies-spin cfg end if_range 0 p rounds h empty.1,
      worker_loop,
    )

-- A worker whose range is finished returns at once.
pub worker_loop-finished :
    (cfg : DownloaderConfig) (end : ℕ) (if_range : Option Text) (attempt p : ℕ)
    (rounds : List Round)
    → end ≤ p
    → worker_loop cfg end if_range attempt p rounds ≡ ([], some (ok tt))
unfolding worker_loop
worker_loop-finished cfg end if_range attempt p [] h = ground arith
worker_loop-finished cfg end if_range attempt p (r ∷ rounds) h =
    let stop : ltb p end ≡ false = ground arith in rw (stop, worker_loop)

unsatisfiable_segment :
    (cfg : DownloaderConfig) (end : ℕ) (if_range : Option Text) (p : ℕ) (r : Round)
    (resp : Response)
    → p < end
    → r.send (record { first = p; last = end - 1; if_range = if_range }) ≡ ok resp
    → resp.status ≡ range_not_satisfiable
    → download_segment cfg end if_range p r.send ≡ (store_current end ∷ [], ok tt)
unfolding download_segment on_response
unsatisfiable_segment cfg end if_range p r resp h sent status =
    let more : leb end p ≡ false = ground arith in rw (more, sent) (rw status refl)

-- The server answers 416 to a worker that has not finished: the worker says that it has.
pub worker_loop-unsatisfiable :
    (cfg : DownloaderConfig) (end : ℕ) (if_range : Option Text) (attempt p : ℕ) (r : Round)
    (rounds : List Round) (resp : Response)
    → p < end
    → r.is_cancelled ≡ false
    → r.send (record { first = p; last = end - 1; if_range = if_range }) ≡ ok resp
    → resp.status ≡ range_not_satisfiable
    → worker_loop cfg end if_range attempt p (r ∷ rounds) ≡ (store_current end ∷ [], some (ok tt))
unfolding worker_loop after_segment current_after
worker_loop-unsatisfiable cfg end if_range attempt p r rounds resp h go sent status =
    let more : ltb p end ≡ true = ground arith in
    let seg = unsatisfiable_segment cfg end if_range p r resp h sent status in
    rw (
      more,
      go,
      seg,
      seg,
      worker_loop-finished cfg end if_range 0 end rounds (omega arith),
      worker_loop,
    )
