-- ===== src/Download/Tests.antt =====
-- A download of four bytes by a single thread, with a checksum from the caller.
use fast_downloader.Prelude.{
  ℕ, ◌≡◌, refl, true, false, none, some, List, [], ◌∷◌, ◌++◌, replicate, take,
}
use fast_downloader.Prelude.Text.{codes, text_eq}
use fast_downloader.Error.{Error, Result, ok, err, cancelled, checksum_mismatch}
use fast_downloader.Checksum.{
  md5, Digest, Hashes, verify_file, compute_blocking, hash_with, hash_loop, into_array, checksum_eq,
  to_string,
}
use fast_downloader.Config.{DownloaderConfig, default_config, DownloadTask, DownloadOutcome}
use fast_downloader.Http.{FileInfo}
use fast_downloader.Multi.{Meets}
use fast_downloader.Single.Loop.{single_thread}
use fast_downloader.Download.{
  DownloadEvent, probing, started, completed, Meeting, Inner, download_inner, download,
}
use fast_downloader.Download.Verified.{Checked, download_inner-Checked}
use fast_downloader.Download.Events.{AtMostStarted, Ends, download-Ends}

abbrev cfg : DownloaderConfig
cfg = default_config (codes "test")

-- Sixteen bytes that repeat the first one hashed.
abbrev toy : Digest
toy = record {
  State = List ℕ;
  start = [];
  update = λ s bs. s ++ bs;
  finalize = λ s. take 16 (s ++ replicate 16 0);
}

abbrev toys : Hashes
toys = record { md5_digest = toy; sha256_digest = toy; sha512_digest = toy }

abbrev info : FileInfo
info = record {
  final_url = codes "u";
  filename = codes "f";
  size = some 4;
  supports_range = false;
  etag = none;
  last_modified = none;
  digest = none;
}

abbrev task : DownloadTask
task = record {
  id = 7;
  url = codes "u";
  save_path = codes "p";
  thread_count = none;
  expected_checksum = some (md5 (1 ∷ 2 ∷ 3 ∷ 4 ∷ replicate 12 0));
}

abbrev no_meets : Meets
no_meets = record {
  prepared = ok tt;
  file = λ q. 0;
  rounds = λ w. [];
  panic = λ w. none;
  schedule = [];
  reopened = ok tt;
}

-- The file is there from an earlier run.
abbrev meeting : List ℕ → Meeting
meeting content = record {
  is_url = true;
  directory = ok tt;
  probed = ok info;
  codec = record { to_vec = λ s. err cancelled; from_slice = λ bs. err cancelled };
  disk = λ p. none;
  meets = no_meets;
  file = content;
  tries =
      record {
        is_cancelled = false;
        visit = record { stat = ok tt; send = λ q. err cancelled };
        cancelled_in_sleep = false;
      }
      ∷ [];
  measured = ok 4;
  opened = ok tt;
  reads = ok content ∷ [];
  elapsed = 1;
}

abbrev good : Meeting
good = meeting (1 ∷ 2 ∷ 3 ∷ 4 ∷ [])

abbrev bad : Meeting
bad = meeting (9 ∷ 9 ∷ 9 ∷ 9 ∷ [])

abbrev outcome : DownloadOutcome
outcome = record { id = 7; path = codes "p"; size = 4; elapsed = 1 }

abbrev starts : DownloadEvent
starts = started 7 (some 4) false 1 (codes "p")

succeeds :
    download_inner cfg toys task good
    ≡ some (record { result = ok outcome; events = starts ∷ []; removed = false })
unfolding download_inner single_thread verify_file compute_blocking hash_with hash_loop into_array
    checksum_eq text_eq
succeeds = refl

download_inner-Checked_example :
    (i : FileInfo) × (good.probed ≡ ok i)
    × (good.measured ≡ ok outcome.size)
    × (outcome.id ≡ task.id)
    × (false ≡ false)
    × Checked cfg toys task good i outcome
download_inner-Checked_example =
    download_inner-Checked cfg toys task good
      (record { result = ok outcome; events = starts ∷ []; removed = false }) outcome succeeds refl

-- The wrong content's checksum.
abbrev wrong : Error
wrong =
    checksum_mismatch (to_string (md5 (1 ∷ 2 ∷ 3 ∷ 4 ∷ replicate 12 0)))
      (to_string (md5 (9 ∷ 9 ∷ 9 ∷ 9 ∷ replicate 12 0)))

abbrev failure : Result DownloadOutcome
failure = err wrong

mismatch :
    download_inner cfg toys task bad
    ≡ some (record { result = err wrong; events = starts ∷ []; removed = true })
unfolding download_inner single_thread verify_file compute_blocking hash_with hash_loop into_array
    checksum_eq text_eq
mismatch = refl

abbrev told : Inner
told = record {
  result = ok outcome;
  events = probing 7 ∷ starts ∷ completed 7 (codes "p") 4 1 ∷ [];
  removed = false;
}

tells : download cfg toys task good ≡ some told
unfolding download download_inner single_thread verify_file compute_blocking hash_with hash_loop
    into_array checksum_eq text_eq
tells = refl

download-Ends_example :
    (middle : List DownloadEvent) × (last : DownloadEvent) × (told.events
      ≡ probing task.id ∷ (middle ++ last ∷ []))
    × AtMostStarted task.id middle
    × Ends task.id told.result last
download-Ends_example = download-Ends cfg toys task good told tells
