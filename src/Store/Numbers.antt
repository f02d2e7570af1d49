-- ===== src/Store/Numbers.antt =====
-- A codec for the examples on src/state.rs: a state as its numbers.
use fast_downloader.Prelude.{ℕ, ◌≡◌, refl, subst, Option, none, some, List, [], ◌∷◌}
use fast_downloader.Prelude.Text.{Text}
use fast_downloader.Error.{Result, ok, err, state_corrupted, deserialize, serialize, ok-injective}
use fast_downloader.State.{WorkerRange, DownloadState}
use fast_downloader.Store.{Codec}
use fast_downloader.Store.Reload.{IsCodec}

-- States of one worker and without validators; it refuses the others.
unfoldable pub written :
    ℕ → Text → ℕ → Option Text → Option Text → List WorkerRange → Result (List ℕ)
written version url size none none (w ∷ []) =
    ok (version ∷ size ∷ w.start ∷ w.current ∷ w.end ∷ url)
written version url size none none [] = err (state_corrupted (serialize []))
written version url size none none (w ∷ v ∷ ws) = err (state_corrupted (serialize []))
written version url size none (some m) ws = err (state_corrupted (serialize []))
written version url size (some e) m ws = err (state_corrupted (serialize []))

unfoldable pub read : List ℕ → Result DownloadState
read (version ∷ size ∷ start ∷ current ∷ end ∷ url) = ok (record {
  version = version;
  url = url;
  file_size = size;
  etag = none;
  last_modified = none;
  workers = record { start = start; current = current; end = end } ∷ [];
})
read _ = err (state_corrupted (deserialize []))

abbrev pub numbers : Codec
numbers = record {
  to_vec = λ s. written s.version s.url s.file_size s.etag s.last_modified s.workers;
  from_slice = read;
}

written-read :
    (version : ℕ) (url : Text) (size : ℕ) (etag last_modified : Option Text) (ws : List WorkerRange)
    (bytes : List ℕ)
    → written version url size etag last_modified ws ≡ ok bytes
    → read bytes
      ≡ ok (record {
        version = version;
        url = url;
        file_size = size;
        etag = etag;
        last_modified = last_modified;
        workers = ws;
      })
unfolding written read
written-read version url size none none (w ∷ []) bytes h =
    subst
      (λ bs.
        read bs
        ≡ ok (record {
          version = version;
          url = url;
          file_size = size;
          etag = none;
          last_modified = none;
          workers = w ∷ [];
        }))
      (ok-injective h) refl
written-read version url size none none [] bytes h = cc
written-read version url size none none (w ∷ v ∷ ws) bytes h = cc
written-read version url size none (some m) ws bytes h = cc
written-read version url size (some e) m ws bytes h = cc

pub numbers-IsCodec : IsCodec numbers
numbers-IsCodec = record {
  reads_back = λ s bytes h.
      written-read s.version s.url s.file_size s.etag s.last_modified s.workers bytes h;
}
