-- ===== src/Single.antt =====
-- `single_thread` and `single_thread_attempt` of src/downloader.rs: one request at a time,
-- appending to the file. The content of the file, which nobody else writes to, is the state; what
-- the code meets outside is an argument, as in Worker.antt. `none` stands for the panic of
-- `unreachable!()`.
pub mod Loop
pub mod Prefix
pub mod Answer
pub mod Attempt
pub mod Retry
pub mod Preallocated
mod Tests
use fast_downloader.Prelude.{
  ℕ, zero, suc, ◌+◌, ◌-◌, Bool, true, false, not, ◌&&◌, Option, none, some, List, [], ◌∷◌, ◌++◌,
  length, take, drop, replicate, min, ltb, leb, ◌==◌, if◌then◌else◌,
}
use fast_downloader.Prelude.Text.{Text, split}
use fast_downloader.Error.{
  Error, Result, ok, err, ◌>>=◌, status, size_mismatch, cancelled, retry_exhausted, is_cancelled,
}
use fast_downloader.Config.{DownloaderConfig, backoff}
use fast_downloader.Http.{FileInfo, if_range_validator, last_piece, parse_u64}
use fast_downloader.Worker.{partial_content, http_ok}

-- One item of the stream, with the token's state and how the calls behind it end.
pub record Piece : Type 0 where
  pub is_cancelled : Bool
  pub chunk_result : Result (List ℕ)
  pub write_failure : Option (ℕ × Error)
  pub flush_result : Result (Unit {0})
  pub sync_result : Result (Unit {0})

-- `bytes={existing}-` and `If-Range`, where the attempt resumes.
pub record Resume : Type 0 where
  pub from : ℕ
  pub if_range : Option Text

-- A response, with the two headers that are read where they are text, and how `File::create`, the
-- open with the seek, and the last `metadata` end.
pub record Reply : Type 0 where
  pub status : ℕ
  pub content_range : Option Text
  pub content_length : Option Text
  pub created : Result (Unit {0})
  pub opened : Result (Unit {0})
  pub stream : List Piece
  pub measured : Result (Unit {0})

-- `seek` to `pos` and `write_all`: bytes past the end are zero.
pub write_bytes : List ℕ → ℕ → List ℕ → List ℕ
write_bytes file pos bs =
    take pos file ++ (replicate (pos - length file) 0 ++ (bs ++ drop (pos + length bs) file))

-- `.or(…)`
pub or_size : Option ℕ → Option ℕ → Option ℕ
or_size none o = o
or_size (some n) o = some n

-- What the loop makes of the file, and its result.
abbrev pub Written : Type 0
Written = List ℕ × Result (Unit {0})

-- The length of the write; `none` is the `break`.
pub bounded_len : Option ℕ → ℕ → ℕ → Option ℕ
bounded_len none pos chunk_len = some chunk_len
bounded_len (some t) pos chunk_len = if leb t pos then none else some (min (t - pos) chunk_len)

-- The rest of the loop, from the file, the position and the bytes since the last flush.
abbrev pub Rest : Type 0
Rest = List ℕ → ℕ → ℕ → Written

module _ (cfg : DownloaderConfig) (total : Option ℕ) where
  -- `if bytes_since_flush >= cfg.flush_interval_bytes { … }`
  pub flush_due : Piece → List ℕ → ℕ → ℕ → Rest → Written
  flush_due a file pos bytes_since_flush rest =
      elim (leb cfg.flush_interval_bytes bytes_since_flush) [
        | false ↦ rest file pos bytes_since_flush
        | true ↦ elim a.flush_result [
          | err e ↦ (file, err e)
          | ok _ ↦ elim (if cfg.durable_resume then a.sync_result else ok tt) [
            | err e ↦ (file, err e)
            | ok _ ↦ rest file pos 0
          ]
        ]
      ]

  -- From the computation of `write_len` on; the chunk is not empty.
  pub append_chunk : Piece → List ℕ → List ℕ → ℕ → ℕ → Rest → Written
  unfolding bounded_len write_bytes flush_due
  append_chunk a chunk file pos bytes_since_flush rest =
      elim (bounded_len total pos (length chunk)) [
        | none ↦ (file, ok tt)
        | some n ↦ elim a.write_failure [
          | some (k, e) ↦ (write_bytes file pos (take k (take n chunk)), err e)
          | none ↦
              flush_due a (write_bytes file pos (take n chunk)) (pos + n) (bytes_since_flush + n)
                rest
        ]
      ]

  pub on_piece : Piece → List ℕ → ℕ → ℕ → Rest → Written
  unfolding append_chunk
  on_piece a file pos bytes_since_flush rest = elim a.is_cancelled [
    | true ↦ (file, err cancelled)
    | false ↦ elim a.chunk_result [
      | err e ↦ (file, err e)
      | ok chunk ↦ elim (length chunk == 0) [
        | true ↦ rest file pos bytes_since_flush
        | false ↦ append_chunk a chunk file pos bytes_since_flush rest
      ]
    ]
  ]

  -- `while let Some(chunk_result) = stream.next().await`
  pub stream_loop : List Piece → List ℕ → ℕ → ℕ → Written
  unfolding on_piece
  stream_loop [] file pos bytes_since_flush = (file, ok tt)
  stream_loop (a ∷ rest) file pos bytes_since_flush =
      on_piece a file pos bytes_since_flush (λ f p b. stream_loop rest f p b)

-- The file when the stream is opened, the position, and the total.
abbrev pub Start : Type 0
Start = List ℕ × ℕ × Option ℕ

-- An arm that truncates the file.
pub truncated : Reply → List ℕ → Option ℕ → List ℕ × Result (ℕ × Option ℕ)
truncated resp file total = elim resp.created [ err e ↦ (file, err e) | ok _ ↦ ([], ok (0, total)) ]

-- `.and_then(|s| s.rsplit('/').next().and_then(|n| n.parse::<u64>().ok()))`
pub range_total : Option Text → Option ℕ
range_total none = none
range_total (some s) = parse_u64 (last_piece (split b'/' s))

pub length_total : Option Text → Option ℕ
length_total none = none
length_total (some s) = parse_u64 s

-- `match (attempt_resume, status)`
pub decide : Bool → Reply → List ℕ → Option ℕ → Option (List ℕ × Result (ℕ × Option ℕ))
unfolding truncated range_total length_total or_size
decide attempt_resume resp file expected_size =
    if attempt_resume && (resp.status == partial_content)
    then some (file, ok (length file, or_size (range_total resp.content_range) expected_size))
    else if resp.status == http_ok
    then some (truncated resp file (or_size (length_total resp.content_length) expected_size))
    else if resp.status == partial_content
    then some (truncated resp file expected_size)
    else if not (leb 200 resp.status && ltb resp.status 300)
    then some (file, err (status resp.status))
    else none

-- The check at the end: `metadata(path).await?.len()` against the total.
pub check_total : Reply → Option ℕ → Written → Written
check_total resp total (file, err e) = (file, err e)
check_total resp none (file, ok u) = (file, ok u)
check_total resp (some t) (file, ok u) = elim resp.measured [
  | err e ↦ (file, err e)
  | ok _ ↦ if length file == t then (file, ok tt) else (file, err (size_mismatch t (length file)))
]

-- Behind the decision.
pub transfer : DownloaderConfig → Reply → List ℕ × Result (ℕ × Option ℕ) → Written
unfolding check_total
transfer cfg resp (file, err e) = (file, err e)
transfer cfg resp (file, ok (pos, total)) = elim resp.opened [
  | err e ↦ (file, err e)
  | ok _ ↦ check_total resp total (stream_loop cfg total resp.stream file pos 0)
]

-- The decision and what follows it.
pub decided : DownloaderConfig → Reply → Option (List ℕ × Result (ℕ × Option ℕ)) → Option Written
unfolding transfer
decided cfg resp none = none
decided cfg resp (some d) = some (transfer cfg resp d)

-- `existing >= total && existing > 0`
pub is_complete : Option ℕ → ℕ → Bool
is_complete none existing = false
is_complete (some total) existing = leb total existing && ltb 0 existing

-- A request: what it resumes from, or none; the answer, or how waiting for it ends.
abbrev pub Server : Type 0
Server = Option Resume → Result Reply

-- What an attempt meets: the first `metadata`, whose failure counts as no bytes, and the server.
pub record Visit : Type 0 where
  pub stat : Result (Unit {0})
  pub send : Server

pub existing : Visit → List ℕ → ℕ
existing v file = elim v.stat [ err e ↦ 0 | ok _ ↦ length file ]

pub single_thread_attempt : DownloaderConfig → FileInfo → List ℕ → Visit → Option Written
unfolding existing is_complete decide decided
single_thread_attempt cfg info file v =
    let n = existing v file in
    if is_complete info.size n
    then some (file, ok tt)
    else let attempt_resume = ltb 0 n && info.supports_range in
      let request =
        if attempt_resume
        then some (record { from = n; if_range = if_range_validator info })
        else none in
      elim (v.send request) [
        | err e ↦ some (file, err e)
        | ok resp ↦ decided cfg resp (decide attempt_resume resp file info.size)
      ]
