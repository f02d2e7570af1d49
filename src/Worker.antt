-- ===== src/Worker.antt =====
-- `worker_loop` and `download_segment` of src/downloader.rs. What a worker reads from outside
-- (the replies of the server, the results of file operations, the cancellation token at each
-- test) is an argument; what it does to the data shared with other tasks is a list of effects in
-- their order, so that the tasks can be interleaved (Transfer.antt). Only this worker stores to
-- its `current`.
pub mod Trace
pub mod Loop
pub mod Returns
pub mod Server
mod Tests
use fast_downloader.Prelude.{
  ℕ, zero, suc, ◌+◌, ◌-◌, Bool, true, false, Option, none, some, List, [], ◌∷◌, ◌++◌, length, take,
  ltb, leb, ◌==◌, if◌then◌else◌,
}
use fast_downloader.Prelude.Text.{Text}
use fast_downloader.Prelude.Words.{add_u64}
use fast_downloader.Error.{
  Error, Result, ok, err, status, no_range_support, resource_changed, cancelled, retry_exhausted,
}
use fast_downloader.Config.{DownloaderConfig, backoff}

-- On the file (bytes handed over that the write in the background carries out), on the worker's
-- `current`, and on the task's `downloaded`.
pub data Effect : Type 0 where
  write_at : ℕ → List ℕ → Effect
  store_current : ℕ → Effect
  fetch_add : ℕ → Effect

-- One round of the loop over the stream: the token's state, the item, how `write_all` ends (it may
-- fail, with some bytes handed over or with none, for the failure of an earlier write) and how a
-- `flush` ends. A `write_all` that returns has handed its bytes to a write in the background, which
-- may yet fail, after so many bytes: the next call on the file reports that, behind the stores.

pub record Arrival : Type 0 where
  pub is_cancelled : Bool
  pub chunk_result : Result (List ℕ)
  pub write_failure : Option (ℕ × Error)
  pub background_failure : Option ℕ
  pub flush_result : Result (Unit {0})

pub record Request : Type 0 where
  pub first : ℕ
  pub last : ℕ
  pub if_range : Option Text

-- A response, with how opening the file and seeking in it ends, and the flush behind the stream.
pub record Response : Type 0 where
  pub status : ℕ
  pub opened : Result (Unit {0})
  pub stream : List Arrival
  pub last_flush : Result (Unit {0})

abbrev pub Outcome : Type 0
Outcome = List Effect × Result (Unit {0})

abbrev pub after : List Effect → Outcome → Outcome
after effects (more, r) = (effects ++ more, r)

-- What the write in the background carries out of the bytes handed over.
pub carried_out : Option ℕ → List ℕ → List ℕ
carried_out none bytes = bytes
carried_out (some k) bytes = take k bytes

-- How much of a chunk is written: no more than up to the worker's end.
pub write_len : ℕ → ℕ → ℕ → ℕ
write_len pos end chunk_len = if ltb end (add_u64 pos chunk_len) then end - pos else chunk_len

-- The rest of the loop over the stream, from a position and a count of bytes since the last flush.
abbrev pub Rest : Type 0
Rest = ℕ → ℕ → Outcome

module _ (cfg : DownloaderConfig) (end : ℕ) (last_flush : Result (Unit {0})) where
  -- `if pos >= end { break; }`
  pub continue_at : ℕ → ℕ → Rest → Outcome
  continue_at pos bytes_since_flush rest = elim (leb end pos) [
    | true ↦ ([], last_flush)
    | false ↦ rest pos bytes_since_flush
  ]

  -- `if bytes_since_flush >= cfg.flush_interval_bytes { file.flush().await?; … }`
  pub after_write : Result (Unit {0}) → ℕ → ℕ → Rest → Outcome
  unfolding continue_at
  after_write flush_result pos bytes_since_flush rest =
      elim (leb cfg.flush_interval_bytes bytes_since_flush) [
        | true ↦ elim flush_result [ err e ↦ ([], err e) | ok _ ↦ continue_at pos 0 rest ]
        | false ↦ continue_at pos bytes_since_flush rest
      ]

  -- From the computation of `write_len` on; the chunk is not empty.
  pub write_chunk : Arrival → List ℕ → ℕ → ℕ → Rest → Outcome
  unfolding write_len carried_out after_write
  write_chunk a chunk pos bytes_since_flush rest =
      let n = write_len pos end (length chunk) in
      elim (n == 0) [
        | true ↦ ([], last_flush)
        | false ↦ elim a.write_failure [
          | some (k, e) ↦ (write_at pos (take k (take n chunk)) ∷ [], err e)
          | none ↦
              after
                (write_at pos (carried_out a.background_failure (take n chunk))
                  ∷ store_current (pos + n)
                  ∷ fetch_add n
                  ∷ [])
                (after_write a.flush_result (pos + n) (bytes_since_flush + n) rest)
        ]
      ]

  -- The body of the loop.
  pub on_arrival : Arrival → ℕ → ℕ → Rest → Outcome
  unfolding write_chunk
  on_arrival a pos bytes_since_flush rest = elim a.is_cancelled [
    | true ↦ ([], err cancelled)
    | false ↦ elim a.chunk_result [
      | err e ↦ ([], err e)
      | ok chunk ↦ elim (length chunk == 0) [
        | true ↦ rest pos bytes_since_flush
        | false ↦ write_chunk a chunk pos bytes_since_flush rest
      ]
    ]
  ]

  -- `while let Some(chunk_result) = stream.next().await`, and the flush behind it.
  unfoldable pub segment_loop : List Arrival → ℕ → ℕ → Outcome
  unfolding on_arrival
  segment_loop [] pos bytes_since_flush = ([], last_flush)
  segment_loop (a ∷ rest) pos bytes_since_flush =
      on_arrival a pos bytes_since_flush (λ p b. segment_loop rest p b)

-- The statuses that the code tells apart.
abbrev pub http_ok : ℕ
http_ok = 200

abbrev pub partial_content : ℕ
partial_content = 206

abbrev pub range_not_satisfiable : ℕ
range_not_satisfiable = 416

module _ (cfg : DownloaderConfig) (end : ℕ) (if_range : Option Text) where
  -- `match resp.status()`, and the transfer behind it.
  pub on_response : ℕ → Response → Outcome
  on_response start resp =
      if resp.status == partial_content
      then (elim resp.opened [
        | err e ↦ ([], err e)
        | ok _ ↦ segment_loop cfg end resp.last_flush resp.stream start 0
      ])
      else if resp.status == http_ok
      then (elim if_range [
        | some v ↦ ([], err resource_changed)
        | none ↦ ([], err no_range_support)
      ])
      else if resp.status == range_not_satisfiable
      then (store_current end ∷ [], ok tt)
      else ([], err (status resp.status))

  unfoldable pub download_segment : ℕ → (Request → Result Response) → Outcome
  unfolding on_response
  download_segment start send =
      if leb end start
      then ([], ok tt)
      else elim (send (record { first = start; last = end - 1; if_range = if_range })) [
        | err e ↦ ([], err e)
        | ok resp ↦ on_response start resp
      ]

-- What the worker reads in `current` after its own effects.
unfoldable pub current_after : ℕ → List Effect → ℕ
current_after c [] = c
current_after c (write_at p b ∷ es) = current_after c es
current_after c (store_current v ∷ es) = current_after v es
current_after c (fetch_add n ∷ es) = current_after c es

-- One round of `worker_loop`: the token at its start, the server, and whether the token is
-- cancelled while the worker waits for the next attempt.
pub record Round : Type 0 where
  pub is_cancelled : Bool
  pub send : Request → Result Response
  pub cancelled_in_sleep : Bool

-- What follows a segment: the worker returns, or goes on with a number of failed attempts, after a
-- delay.
pub data Next : Type 0 where
  return : Result (Unit {0}) → Next
  repeat : ℕ → ℕ → Next

pub retry : DownloaderConfig → ℕ → Bool → Error → Next
retry cfg attempt cancelled_in_sleep e =
    if leb cfg.max_retries (attempt + 1)
    then return (err (retry_exhausted (attempt + 1) e))
    else if cancelled_in_sleep
    then return (err cancelled)
    else repeat (attempt + 1) (backoff (attempt + 1) cfg.initial_retry_delay cfg.max_retry_delay)

-- `match r { … }`
unfoldable pub after_segment : DownloaderConfig → ℕ → Bool → Result (Unit {0}) → Next
unfolding retry
after_segment cfg attempt s (ok _) = repeat 0 0
after_segment cfg attempt s (err cancelled) = return (err cancelled)
after_segment cfg attempt s (err no_range_support) = return (err no_range_support)
after_segment cfg attempt s (err resource_changed) = return (err resource_changed)
after_segment cfg attempt s (err e) = retry cfg attempt s e

-- A run of the worker over the rounds given: its effects, and its result if it has returned.
abbrev pub Run : Type 0
Run = List Effect × Option (Result (Unit {0}))

module _ (cfg : DownloaderConfig) (end : ℕ) (if_range : Option Text) where
  unfoldable pub worker_loop : ℕ → ℕ → List Round → Run
  worker_loop attempt current [] = if ltb current end then ([], none) else ([], some (ok tt))
  worker_loop attempt current (r ∷ rounds) = elim (ltb current end) [
    | false ↦ ([], some (ok tt))
    | true ↦ elim r.is_cancelled [
      | true ↦ ([], some (err cancelled))
      | false ↦
          let (effects, result) = download_segment cfg end if_range current r.send in
          elim (after_segment cfg attempt r.cancelled_in_sleep result) [
            | return x ↦ (effects, some x)
            | repeat attempt' delay ↦
                let (more, x) = worker_loop attempt' (current_after current effects) rounds in
                (effects ++ more, x)
          ]
    ]
  ]
