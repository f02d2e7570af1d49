-- ===== src/Single/Preallocated.antt =====
-- What `single_thread` of src/downloader.rs does with a file that `multi_thread` has sized in
-- advance.
use fast_downloader.Prelude.{ℕ, ◌≤◌, ◌<◌, ◌≡◌, refl, true, false, some, List, ◌∷◌, length, arith}
use fast_downloader.Prelude.Text.{Text}
use fast_downloader.Error.{ok}
use fast_downloader.Config.{DownloaderConfig}
use fast_downloader.Http.{FileInfo}
use fast_downloader.Single.{is_complete, existing, Visit, single_thread_attempt}
use fast_downloader.Single.Loop.{after_attempt, Try, returned, single_thread}

complete_at : (size n : ℕ) → 0 < size → size ≤ n → is_complete (some size) n ≡ true
unfolding is_complete
complete_at size n pos le = ground arith

existing_at : (v : Visit) (file : List ℕ) → v.stat ≡ ok tt → existing v file ≡ length file
unfolding existing
existing_at v file s = rw (s) refl

-- A file that is at least as long as the probe found the resource to be, a positive number, is
-- taken for the resource, whatever it holds: unless the download is cancelled or the file cannot
-- be measured, the first attempt of `single_thread` succeeds without a request and changes
-- nothing.
pub single_thread_preallocated :
    (cfg : DownloaderConfig) (info : FileInfo) (path : Text) (size : ℕ) (file : List ℕ) (t : Try)
    (tries : List Try)
    → info.size ≡ some size
    → 0 < size
    → size ≤ length file
    → t.is_cancelled ≡ false
    → t.visit.stat ≡ ok tt
    → single_thread cfg info path 0 file (t ∷ tries) ≡ (file, returned (ok path))
unfolding single_thread single_thread_attempt after_attempt
single_thread_preallocated cfg info path size file t tries known pos long go_on stat =
    let full : is_complete info.size (existing t.visit file) ≡ true =
      rw (known, existing_at t.visit file stat) (complete_at size (length file) pos long) in
    rw (go_on, full) refl
