-- ===== src/Single/Answer.antt =====
-- What follows an answer in `single_thread_attempt` of src/downloader.rs, where the answer is
-- honest: the file stays a beginning of the resource, and is the whole of it where the attempt
-- succeeds.
use mathlib.Core.List.{append-nil}
use fast_downloader.Prelude.{
  ℕ, ◌≤◌, ◌≡◌, inl, inr, refl, sym, ap, ◌∙◌, Option, none, some, List, [], ◌∷◌, ◌++◌, length, drop,
  length-append, arith, ◌==◌, Bool-cases, ==_iff, some-injective,
}
use fast_downloader.Error.{Result, ok, err, Result-cases}
use fast_downloader.Config.{DownloaderConfig}
use fast_downloader.Worker.{partial_content, http_ok}
use fast_downloader.Single.{
  Resume, Reply, or_size, Written, stream_loop, truncated, range_total, length_total, check_total,
  transfer,
}
use fast_downloader.Single.Prefix.{IsPrefix, Delivers, IsTotal, stream_loop-IsPrefix}

-- The headers tell the length or nothing, a partial response carries the resource from the position
-- asked for, and a full one from its start; it may refuse, fail and stop early.
pub record IsHonestReply (resource : List ℕ) (q : Option Resume) (resp : Reply) : Type 0 where
  pub range_right : IsTotal resource (range_total resp.content_range)
  pub length_right : IsTotal resource (length_total resp.content_length)
  pub resumes :
      (x : Resume)
      → q ≡ some x
      → resp.status ≡ partial_content
      → Delivers (drop x.from resource) resp.stream
  pub restarts : resp.status ≡ http_ok → Delivers resource resp.stream
  pub volunteers : q ≡ none → resp.status ≡ partial_content → Delivers resource resp.stream

pub or_size-IsTotal :
    (resource : List ℕ) (a b : Option ℕ)
    → IsTotal resource a
    → IsTotal resource b
    → IsTotal resource (or_size a b)
unfolding or_size
or_size-IsTotal resource none b t u = u
or_size-IsTotal resource (some n) b t u = t

pub or_size-known :
    (resource : List ℕ) (a b : Option ℕ)
    → IsTotal resource a
    → b ≡ some (length resource)
    → or_size a b ≡ some (length resource)
unfolding or_size
or_size-known resource none b t u = u
or_size-known resource (some n) b (inl e) u = absurd (cc)
or_size-known resource (some n) b (inr e) u = e

pub drop-prefix : (file rest : List ℕ) → drop (length file) (file ++ rest) ≡ rest
drop-prefix [] rest = refl
drop-prefix (x ∷ file) rest = drop-prefix file rest

pub prefix_full :
    (resource file : List ℕ)
    → IsPrefix resource file
    → length resource ≤ length file
    → file ≡ resource
prefix_full resource file ([], e) h = sym (append-nil file) ∙ e
prefix_full resource file (x ∷ rest, e) h =
    absurd (omega (arith, length-append file (x ∷ rest), ap length e))

-- What an attempt comes to.
abbrev pub IsGood : List ℕ → Option ℕ → Written → Type 0
IsGood resource size w =
    IsPrefix resource w.0 × (w.1 ≡ ok tt → size ≡ some (length resource) → w.0 ≡ resource)

check_total-IsGood :
    (resource : List ℕ) (size total : Option ℕ) (resp : Reply) (file : List ℕ)
    (r : Result (Unit {0}))
    → IsPrefix resource file
    → (size ≡ some (length resource) → total ≡ some (length resource))
    → IsGood resource size (check_total resp total (file, r))
unfolding check_total
check_total-IsGood resource size total resp file (err e) p k = (p, λ s known. absurd (cc))
check_total-IsGood resource size none resp file (ok u) p k = (p, λ s known. absurd (cc (k known)))
check_total-IsGood resource size (some t) resp file (ok u) p k = elim (Result-cases resp.measured) [
  | inr (e, m) ↦ rw (m, check_total) (p, λ s known. absurd (cc))
  | inl (v, m) ↦ elim (Bool-cases (length file == t)) [
    | inr short ↦ rw (m, check_total, short) (p, λ s known. absurd (cc))
    | inl full ↦
        rw (m, check_total, full)
          (
            p,
            λ s known.
                let same : t ≡ length resource = some-injective (k known) in
                prefix_full resource file p (omega (arith, (==_iff (length file) t).0 full, same)),
          )
  ]
]

pub transfer-IsGood :
    (cfg : DownloaderConfig) (resource : List ℕ) (size total : Option ℕ) (resp : Reply)
    (file more : List ℕ)
    → IsTotal resource total
    → (size ≡ some (length resource) → total ≡ some (length resource))
    → Delivers more resp.stream
    → file ++ more ≡ resource
    → IsGood resource size (transfer cfg resp (file, ok (length file, total)))
unfolding transfer
transfer-IsGood cfg resource size total resp file more t k d h = elim (Result-cases resp.opened) [
  | inr (e, o) ↦ rw (transfer, o) ((more, h), λ s known. absurd (cc))
  | inl (u, o) ↦
      let w = stream_loop cfg total resp.stream file (length file) 0 in
      rw (transfer, o)
        (check_total-IsGood resource size total resp w.0 w.1
          (stream_loop-IsPrefix cfg total resource resp.stream file more 0 t d h) k)
]

pub truncated-IsGood :
    (cfg : DownloaderConfig) (resource : List ℕ) (size total : Option ℕ) (resp : Reply)
    (file : List ℕ)
    → IsPrefix resource file
    → IsTotal resource total
    → (size ≡ some (length resource) → total ≡ some (length resource))
    → Delivers resource resp.stream
    → IsGood resource size (transfer cfg resp (truncated resp file total))
unfolding truncated transfer
truncated-IsGood cfg resource size total resp file p t k d = elim (Result-cases resp.created) [
  | inr (e, c) ↦ rw (truncated, c) (p, λ s known. absurd (cc))
  | inl (u, c) ↦
      rw (truncated, c) (transfer-IsGood cfg resource size total resp [] resource t k d refl)
]
