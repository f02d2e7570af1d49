-- ===== src/Worker/Loop.antt =====
-- `download_segment` and `worker_loop` of src/downloader.rs against an honest server.
use fast_downloader.Prelude.{
  ℕ, ◌+◌, ◌-◌, ◌≤◌, ◌<◌, ◌≡◌, ◌≢◌, inl, inr, refl, ◌∙◌, Bool, false, Option, some, List, [], ◌∷◌,
  ◌++◌, ltb, leb, ◌==◌, arith, Bool-cases, Option-cases, All,
}
use fast_downloader.Prelude.Text.{Text}
use fast_downloader.Error.{Result, ok, err, cancelled, Result-cases}
use fast_downloader.Config.{DownloaderConfig}
use fast_downloader.Worker.{
  Effect, write_at, store_current, fetch_add, Outcome, Request, Response, partial_content, http_ok,
  range_not_satisfiable, on_response, download_segment, current_after, Round, Next, return, repeat,
  after_segment, Run, worker_loop,
}
use fast_downloader.Worker.Trace.{Trace, done, torn, landed, Serves, max_slice, segment_loop-Trace}

-- The server never claims that a range is unsatisfiable, and a partial response to a request
-- carries the resource from the position that was asked for. It may refuse, fail, stop early, or
-- send more. No write of what it sends fails in the background.
pub record IsHonest (content : ℕ → ℕ) (r : Round) : Type 0 where
  pub satisfiable :
      (q : Request) (resp : Response) → r.send q ≡ ok resp → resp.status ≢ range_not_satisfiable
  pub serves :
      (q : Request) (resp : Response)
      → r.send q ≡ ok resp
      → resp.status ≡ partial_content
      → Serves content q.first resp.stream

-- The bytes that the effects count in `downloaded`.
pub added : List Effect → ℕ
added [] = 0
added (write_at p b ∷ es) = added es
added (store_current v ∷ es) = added es
added (fetch_add n ∷ es) = n + added es

pub current_after-append :
    (p : ℕ) (es fs : List Effect)
    → current_after p (es ++ fs) ≡ current_after (current_after p es) fs
unfolding current_after
current_after-append p [] fs = refl
current_after-append p (write_at q b ∷ es) fs = current_after-append p es fs
current_after-append p (store_current v ∷ es) fs = current_after-append v es fs
current_after-append p (fetch_add n ∷ es) fs = current_after-append p es fs

module _ {content : ℕ → ℕ} {end : ℕ} where
  pub Trace-append :
      (es fs : List Effect) {p : ℕ}
      → Trace content end p es
      → Trace content end (current_after p es) fs
      → Trace content end p (es ++ fs)
  unfolding current_after
  Trace-append es fs done u = u
  Trace-append es fs (torn m l t) u = torn m l (Trace-append _ fs t u)
  Trace-append es fs (landed m e q l t) u = landed m e q l (Trace-append _ fs t u)

  -- A trace moves `current` from `p` up to at most `end`, and counts exactly that.
  pub Trace-progress :
      {p : ℕ} (es : List Effect)
      → p ≤ end
      → Trace content end p es
      → (current_after p es ≡ p + added es) × (current_after p es ≤ end)
  unfolding current_after added
  Trace-progress es h done = omega arith
  Trace-progress es h (torn m l t) = Trace-progress _ h t
  Trace-progress es h (landed m e q l t) = let r = Trace-progress _ l t in (omega (arith, r.0), r.1)

module _ (content : ℕ → ℕ) (cfg : DownloaderConfig) (end : ℕ) (if_range : Option Text) where
  on_response-Trace :
      (p : ℕ) (resp : Response)
      → p ≤ end
      → end ≤ max_slice
      → resp.status ≢ range_not_satisfiable
      → (resp.status ≡ partial_content → Serves content p resp.stream)
      → Trace content end p (on_response cfg end if_range p resp).0
  unfolding on_response
  on_response-Trace p resp h e ns s = elim (Bool-cases (resp.status == partial_content)) [
    | inl partial ↦ elim (Result-cases resp.opened) [
      | inl (u, opens) ↦
          rw (partial, opens, on_response)
            (segment_loop-Trace content cfg end resp.last_flush resp.stream p 0 h e
              (s (ground arith)))
      | inr (x, fails) ↦ rw (partial, fails, on_response) done
    ]
    | inr other ↦ elim (Bool-cases (resp.status == http_ok)) [
      | inl whole ↦ elim (Option-cases if_range) [
        | inl none_sent ↦ rw (other, whole, none_sent, on_response) done
        | inr (v, sent) ↦ rw (other, whole, sent, on_response) done
      ]
      | inr not_ok ↦
          let sat : (resp.status == range_not_satisfiable) ≡ false = ground arith in
          rw (other, not_ok, sat, on_response) done
    ]
  ]

  pub download_segment-Trace :
      (p : ℕ) (r : Round)
      → p < end
      → end ≤ max_slice
      → IsHonest content r
      → Trace content end p (download_segment cfg end if_range p r.send).0
  unfolding download_segment
  download_segment-Trace p r h e honest =
      let q : Request = record { first = p; last = end - 1; if_range = if_range } in
      let more : leb end p ≡ false = ground arith in
      elim (Result-cases (r.send q)) [
        | inl (resp, replied) ↦
            rw (more, replied, download_segment)
              (on_response-Trace p resp (omega arith) e (honest.satisfiable q resp replied)
                (honest.serves q resp replied))
        | inr (x, fails) ↦ rw (more, fails, download_segment) done
      ]

  -- What a run of the worker from `p` amounts to.
  abbrev IsFaithful : ℕ → Run → Type 0
  IsFaithful p run =
      Trace content end p run.0 × (run.1 ≡ some (ok tt) → current_after p run.0 ≡ end)

  worker_round :
      (p : ℕ) (o : Outcome) (next : Next) (rest : ℕ → ℕ → Run)
      → p ≤ end
      → Trace content end p o.0
      → ((x : Result (Unit {0})) → next ≡ return x → x ≢ ok tt)
      → ((attempt q : ℕ) → q ≤ end → IsFaithful q (rest attempt q))
      → IsFaithful p (elim next as (λ _. Run) [
        | return x ↦ (o.0, some x)
        | repeat attempt' delay ↦
            let (more, x) = rest attempt' (current_after p o.0) in (o.0 ++ more, x)
      ])
  worker_round p o (return x) rest h t fails k = (t, λ e. absurd (fails x refl (cc e)))
  worker_round p o (repeat a d) rest h t fails k =
      let i = k a (current_after p o.0) (Trace-progress o.0 h t).1 in
      (Trace-append o.0 _ t i.0, λ e. current_after-append p o.0 _ ∙ i.1 e)

  after_segment-fails :
      (attempt : ℕ) (s : Bool) (r x : Result (Unit {0}))
      → after_segment cfg attempt s r ≡ return x
      → x ≢ ok tt
  unfolding after_segment
  after_segment-fails attempt s (ok u) x h = cc
  after_segment-fails attempt s (err cancelled) x h = λ e. cc
  after_segment-fails attempt s (err e) x h = ground arith

  pub worker_loop-IsFaithful :
      (attempt p : ℕ) (rounds : List Round)
      → p ≤ end
      → end ≤ max_slice
      → All (IsHonest content) rounds
      → IsFaithful p (worker_loop cfg end if_range attempt p rounds)
  unfolding worker_loop current_after
  worker_loop-IsFaithful attempt p [] h e honest = elim (Bool-cases (ltb p end)) [
    | inl more ↦ rw (more, worker_loop) (done, λ x. cc)
    | inr finished ↦ rw (finished, worker_loop) (done, λ x. ground arith)
  ]
  worker_loop-IsFaithful attempt p (r ∷ rounds) h e honest = elim (Bool-cases (ltb p end)) [
    | inr finished ↦ rw (finished, worker_loop) (done, λ x. ground arith)
    | inl more ↦ elim (Bool-cases r.is_cancelled) [
      | inl stop ↦ rw (more, stop, worker_loop) (done, λ x. cc)
      | inr go ↦
          rw (more, go, worker_loop)
            (worker_round p (download_segment cfg end if_range p r.send)
              (after_segment cfg attempt r.cancelled_in_sleep
                (download_segment cfg end if_range p r.send).1)
              (λ a q. worker_loop cfg end if_range a q rounds) h
              (download_segment-Trace p r (ground arith) e honest.0)
              (λ x. after_segment-fails attempt r.cancelled_in_sleep _ x)
              (λ a q fits. worker_loop-IsFaithful a q rounds fits e honest.1))
    ]
  ]
