-- ===== src/Single/Tests.antt =====
-- A resource of four bytes of which two are on disk, fetched by `single_thread`.
use fast_downloader.Prelude.{
  ℕ, ◌≡◌, ◌≢◌, inl, inr, refl, subst, sym, ◌∙◌, some-injective, true, false, Option, none, some,
  List, [], ◌∷◌, drop, replicate, arith,
}
use mathlib.Core.List.{append-nil}
use fast_downloader.Prelude.Text.{codes}
use fast_downloader.Error.{ok, err, io, ok-injective}
use fast_downloader.Config.{DownloaderConfig, default_config}
use fast_downloader.Http.{FileInfo}
use fast_downloader.Worker.{partial_content, http_ok}
use fast_downloader.Single.{
  Piece, Resume, Reply, single_thread_attempt, stream_loop, range_total, length_total,
}
use fast_downloader.Single.Loop.{Try, running, returned, single_thread, after_attempt}
use fast_downloader.Single.Prefix.{IsPrefix, Delivers}
use fast_downloader.Single.Answer.{IsHonestReply}
use fast_downloader.Single.Retry.{
  IsHonestTry, single_thread-IsPrefix, single_thread_complete, single_thread_terminates,
}
use fast_downloader.Single.Preallocated.{single_thread_preallocated}

abbrev cfg : DownloaderConfig
cfg = default_config (codes "test")

abbrev resource : List ℕ
resource = 65 ∷ 66 ∷ 67 ∷ 68 ∷ []

abbrev half : List ℕ
half = 65 ∷ 66 ∷ []

abbrev info : FileInfo
info = record {
  final_url = codes "u";
  filename = codes "f";
  size = some 4;
  supports_range = true;
  etag = none;
  last_modified = none;
  digest = none;
}

abbrev piece : List ℕ → Piece
piece bs = record {
  is_cancelled = false;
  chunk_result = ok bs;
  write_failure = none;
  flush_result = ok tt;
  sync_result = ok tt;
}

abbrev reply : ℕ → List ℕ → Reply
reply status bs = record {
  status = status;
  content_range = none;
  content_length = none;
  created = ok tt;
  opened = ok tt;
  stream = piece bs ∷ [];
  measured = ok tt;
}

abbrev answer : Option Resume → Reply
answer none = reply http_ok resource
answer (some x) = reply partial_content (drop x.from resource)

abbrev try : Try
try = record {
  is_cancelled = false;
  visit = record { stat = ok tt; send = λ q. ok (answer q) };
  cancelled_in_sleep = false;
}

-- One piece that carries all that is left.
piece-Delivers : (bs : List ℕ) → Delivers bs (piece bs ∷ [])
piece-Delivers bs chunk e = ([], append-nil chunk ∙ sym (ok-injective e), tt)

reply-IsHonestReply : (q : Option Resume) → IsHonestReply resource q (answer q)
unfolding range_total length_total
reply-IsHonestReply none = record {
  range_right = inl refl;
  length_right = inl refl;
  resumes = λ x e s. absurd (cc);
  restarts = λ s. piece-Delivers resource;
  volunteers = λ e s. absurd (omega (arith, s));
}
reply-IsHonestReply (some r) = record {
  range_right = inl refl;
  length_right = inl refl;
  resumes = λ x e s.
      subst (λ (z : Resume). Delivers (drop z.from resource) (piece (drop r.from resource) ∷ []))
        (some-injective e) (piece-Delivers (drop r.from resource));
  restarts = λ s. absurd (omega (arith, s));
  volunteers = λ e s. absurd (cc);
}

try-IsHonestTry : IsHonestTry resource try
try-IsHonestTry = record {
  answers = λ q resp e. subst (IsHonestReply resource q) (ok-injective e) (reply-IsHonestReply q);
}

fetches :
    single_thread cfg info (codes "p") 0 half (try ∷ []) ≡ (resource, returned (ok (codes "p")))
unfolding single_thread single_thread_attempt after_attempt stream_loop range_total
fetches = refl

half-IsPrefix : IsPrefix resource half
half-IsPrefix = (67 ∷ 68 ∷ [], refl)

single_thread_complete_example : (codes "p" ≡ codes "p") × (resource ≡ resource)
single_thread_complete_example =
    single_thread_complete cfg info (codes "p") resource half resource (try ∷ []) (codes "p")
      half-IsPrefix refl (try-IsHonestTry, tt) fetches

single_thread-IsPrefix_example :
    IsPrefix resource (single_thread cfg info (codes "p") 0 half (try ∷ [])).0
single_thread-IsPrefix_example =
    single_thread-IsPrefix cfg info (codes "p") resource half (try ∷ []) half-IsPrefix (inr refl)
      (try-IsHonestTry, tt)

-- A server that cannot be reached.
abbrev refused : Try
refused = record try { visit = record { stat = ok tt; send = λ q. err (io (codes "refused")) } }

single_thread_terminates_example :
    (single_thread cfg info (codes "p") 0 half (replicate 8 refused)).1 ≢ running
single_thread_terminates_example =
    single_thread_terminates cfg info (codes "p") half (replicate 8 refused) (omega arith)

single_thread_preallocated_example :
    single_thread cfg info (codes "p") 0 (replicate 4 0) (try ∷ [])
    ≡ (replicate 4 0, returned (ok (codes "p")))
single_thread_preallocated_example =
    single_thread_preallocated cfg info (codes "p") 4 (replicate 4 0) try [] refl (omega arith)
      (omega arith) refl refl
