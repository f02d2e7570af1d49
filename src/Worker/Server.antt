-- ===== src/Worker/Server.antt =====
-- A server for the examples: it answers a range request with the bytes that were asked for.
use fast_downloader.Prelude.{
  ℕ, zero, suc, ◌+◌, ◌-◌, ◌<◌, ◌≡◌, refl, ap, subst, false, none, List, [], ◌∷◌, length, min, arith,
}
use fast_downloader.Error.{Result, ok, ok-injective}
use fast_downloader.Worker.{Arrival, Request, Response, Round, partial_content}
use fast_downloader.Worker.Trace.{Matches, Serves, max_slice}
use fast_downloader.Worker.Loop.{IsHonest}

-- `n` bytes of the resource from `p` on.
unfoldable pub bytes_from : (ℕ → ℕ) → ℕ → ℕ → List ℕ
bytes_from content p zero = []
bytes_from content p (suc n) = content p ∷ bytes_from content (suc p) n

bytes_from-Matches : (content : ℕ → ℕ) (p n : ℕ) → Matches content p (bytes_from content p n)
unfolding bytes_from
bytes_from-Matches content p zero = tt
bytes_from-Matches content p (suc n) = (refl, bytes_from-Matches content (suc p) n)

length-bytes_from : (content : ℕ → ℕ) (p n : ℕ) → length (bytes_from content p n) ≡ n
unfolding bytes_from
length-bytes_from content p zero = refl
length-bytes_from content p (suc n) = omega (arith, length-bytes_from content (suc p) n)

-- One chunk of at most `limit` bytes, and the stream ends.
abbrev pub served : (ℕ → ℕ) → ℕ → Request → Arrival
served content limit q = record {
  is_cancelled = false;
  chunk_result = ok (bytes_from content q.first (min (q.last + 1 - q.first) limit));
  write_failure = none;
  background_failure = none;
  flush_result = ok tt;
}

abbrev pub answer : (ℕ → ℕ) → ℕ → Request → Result Response
answer content limit q = ok (record {
  status = partial_content;
  opened = ok tt;
  stream = served content limit q ∷ [];
  last_flush = ok tt;
})

abbrev pub short_round : (ℕ → ℕ) → ℕ → Round
short_round content limit = record {
  is_cancelled = false;
  send = answer content limit;
  cancelled_in_sleep = false;
}

abbrev pub round : (ℕ → ℕ) → Round
round content = short_round content 1000

served-Serves :
    (content : ℕ → ℕ) (limit : ℕ) (q : Request)
    → limit < max_slice
    → Serves content q.first (served content limit q ∷ [])
served-Serves content limit q small = (
  refl,
  λ chunk e.
      let n = min (q.last + 1 - q.first) limit in
      let same : bytes_from content q.first n ≡ chunk = ok-injective e in
      (
        rw (← same) (bytes_from-Matches content q.first n),
        rw (← same) (omega (arith, length-bytes_from content q.first n)),
        tt,
      ),
)

-- Its answer, as a response.
abbrev whole : (ℕ → ℕ) → ℕ → Request → Response
whole content limit q = record {
  status = partial_content;
  opened = ok tt;
  stream = served content limit q ∷ [];
  last_flush = ok tt;
}

pub short_round-IsHonest :
    (content : ℕ → ℕ) (limit : ℕ) → limit < max_slice → IsHonest content (short_round content limit)
short_round-IsHonest content limit small = record {
  satisfiable = λ q resp e s.
      let same : whole content limit q ≡ resp = ok-injective e in
      omega (arith, ap (λ (r : Response). r.status) same, s);
  serves = λ q resp e s.
      let same : whole content limit q ≡ resp = ok-injective e in
      subst (λ (r : Response). Serves content q.first r.stream) same
        (served-Serves content limit q small);
}

pub round-IsHonest : (content : ℕ → ℕ) → IsHonest content (round content)
round-IsHonest content = short_round-IsHonest content 1000 (omega arith)
