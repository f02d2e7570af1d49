-- ===== src/Download/Events.antt =====
-- The events that `download` of src/downloader.rs emits itself.
use fast_downloader.Prelude.{
  ℕ, ◌≡◌, ◌≢◌, ◌⊎◌, inl, inr, refl, sym, ap, subst, ◌∙◌, Bool, true, false, Option, some, List, [],
  ◌∷◌, ◌++◌, Bool-cases, Option-cases, some-injective, if◌then◌else◌,
}
use fast_downloader.Prelude.Text.{Text}
use fast_downloader.Error.{
  Error, Result, ok, err, cancelled, invalid_url, http, io, status, no_range_support,
  resource_changed, size_mismatch, checksum_mismatch, invalid_checksum, retry_exhausted,
  invalid_save_path, state_corrupted, queue_closed, task_not_found, unknown_length, is_cancelled,
  Result-cases,
}
use fast_downloader.Checksum.{Checksum, Hashes, verify_file}
use fast_downloader.Config.{DownloaderConfig, DownloadTask, DownloadOutcome}
use fast_downloader.Http.{FileInfo}
use fast_downloader.Download.{
  DownloadEvent, probing, started, completed, failed, was_cancelled, Meeting, Inner, gives_up,
  clamp_threads, thread_count_or, fetch, can_multi, differs, check_finished, finish, after_probe,
  download_inner, last_event, download,
}

-- No event of the transfer, or one that says that it starts.
abbrev pub AtMostStarted : ℕ → List DownloadEvent → Type 0
AtMostStarted id events =
    (events ≡ [])
    ⊎ ((total : Option ℕ) × (supports_range : Bool) × (threads : ℕ) × (path : Text) × (events
          ≡ started id total supports_range threads path ∷ []))

-- The event that the result calls for.
abbrev pub Ends : ℕ → Result DownloadOutcome → DownloadEvent → Type 0
Ends id r last =
    ((out : DownloadOutcome) × (r ≡ ok out) × (last ≡ completed id out.path out.size out.elapsed))
    ⊎ (((r ≡ err cancelled) × (last ≡ was_cancelled id))
        ⊎ ((e : Error) × (r ≡ err e) × (e ≢ cancelled) × (last ≡ failed id e)))

is_cancelled-cases :
    (e : Error)
    → ((is_cancelled e ≡ true) × (e ≡ cancelled)) ⊎ ((is_cancelled e ≡ false) × (e ≢ cancelled))
unfolding is_cancelled
is_cancelled-cases cancelled = inl (refl, refl)
is_cancelled-cases (invalid_url t) = inr (refl, λ h. cc)
is_cancelled-cases (http t) = inr (refl, λ h. cc)
is_cancelled-cases (io t) = inr (refl, λ h. cc)
is_cancelled-cases (status n) = inr (refl, λ h. cc)
is_cancelled-cases no_range_support = inr (refl, λ h. cc)
is_cancelled-cases resource_changed = inr (refl, λ h. cc)
is_cancelled-cases (size_mismatch a b) = inr (refl, λ h. cc)
is_cancelled-cases (checksum_mismatch a b) = inr (refl, λ h. cc)
is_cancelled-cases (invalid_checksum b) = inr (refl, λ h. cc)
is_cancelled-cases (retry_exhausted n e) = inr (refl, λ h. cc)
is_cancelled-cases (invalid_save_path t) = inr (refl, λ h. cc)
is_cancelled-cases (state_corrupted c) = inr (refl, λ h. cc)
is_cancelled-cases queue_closed = inr (refl, λ h. cc)
is_cancelled-cases (task_not_found n) = inr (refl, λ h. cc)
is_cancelled-cases unknown_length = inr (refl, λ h. cc)

last_event-Ends : (id : ℕ) (r : Result DownloadOutcome) → Ends id r (last_event id r)
unfolding last_event
last_event-Ends id (ok out) = inl (out, refl, refl)
last_event-Ends id (err e) = elim (is_cancelled-cases e) [
  | inl (stopped, c) ↦ inr (inl (ap err c, rw (last_event, stopped) refl))
  | inr (fails, c) ↦ inr (inr (e, refl, c, rw (last_event, fails) refl))
]

check_finished-events :
    (h : Hashes) (task : DownloadTask) (info : FileInfo) (o : Option Checksum) (m : Meeting)
    (events : List DownloadEvent) (path : Text) (size : ℕ)
    → (check_finished h task info o m events path size).events ≡ events
unfolding check_finished gives_up
check_finished-events h task info o m events path size =
    elim (Bool-cases (differs info.size size)) [
      | inl short ↦ rw (check_finished, short) refl
      | inr fits ↦ elim (Option-cases o) [
        | inl no_sum ↦ rw (check_finished, fits, no_sum) refl
        | inr (c, sum) ↦ elim (Result-cases (verify_file h m.opened m.reads c)) [
          | inr (e, v) ↦ rw (check_finished, fits, sum, v) refl
          | inl (u, v) ↦ rw (check_finished, fits, sum, v) refl
        ]
      ]
    ]

finish-events :
    (cfg : DownloaderConfig) (h : Hashes) (task : DownloadTask) (info : FileInfo) (m : Meeting)
    (events : List DownloadEvent) (r : Result Text)
    → (finish cfg h task info m events r).events ≡ events
unfolding finish gives_up
finish-events cfg h task info m events (err e) = refl
finish-events cfg h task info m events (ok path) = elim (Result-cases m.measured) [
  | inr (e, x) ↦ rw (finish, x) refl
  | inl (size, x) ↦ rw (finish, x) (check_finished-events h task info _ m events path size)
]

module _ (cfg : DownloaderConfig) (h : Hashes) (task : DownloadTask) (m : Meeting) where
  gives_up-events :
      (e : Error) (r : Inner) → some (gives_up e []) ≡ some r → AtMostStarted task.id r.events
  unfolding gives_up
  gives_up-events e r x = inl (sym (ap (λ (y : Inner). y.events) (some-injective x)))

  after_probe-events :
      (info : FileInfo) (r : Inner)
      → after_probe cfg h task info m ≡ some r
      → AtMostStarted task.id r.events
  unfolding after_probe
  after_probe-events info r x =
      elim (Option-cases
        (clamp_threads (thread_count_or task.thread_count cfg.default_threads) cfg.max_threads)) [
          | inl panics ↦ absurd (cc (rw (after_probe, panics) at x))
          | inr (threads, t) ↦
              let n = if can_multi info threads then threads else 1 in
              let events = started task.id info.size info.supports_range n task.save_path ∷ [] in
              elim (Option-cases (fetch cfg task info threads m)) [
                | inl stuck ↦ absurd (cc (rw (after_probe, t, stuck) at x))
                | inr (f, e) ↦ inr (
                  info.size,
                  info.supports_range,
                  n,
                  task.save_path,
                  sym (ap (λ (y : Inner). y.events) (some-injective (rw (after_probe, t, e) at x)))
                      ∙ finish-events cfg h task info m events f,
                )
              ]
        ]

  download_inner-events :
      (r : Inner) → download_inner cfg h task m ≡ some r → AtMostStarted task.id r.events
  unfolding download_inner
  download_inner-events r x = elim (Bool-cases m.is_url) [
    | inr bad ↦ gives_up-events (invalid_url task.url) r (rw (download_inner, bad) at x)
    | inl url ↦ elim (Result-cases m.directory) [
      | inr (e, d) ↦ gives_up-events e r (rw (download_inner, url, d) at x)
      | inl (u, d) ↦ elim (Result-cases m.probed) [
        | inr (e, p) ↦ gives_up-events e r (rw (download_inner, url, d, p) at x)
        | inl (info, p) ↦ after_probe-events info r (rw (download_inner, url, d, p) at x)
      ]
    ]
  ]

  -- A download that comes back has emitted `Probing` first, then at most one `Started`, and last
  -- one event that tells its result: `Completed` with the outcome, `Cancelled`, or `Failed` with
  -- the error.
  pub download-Ends :
      (r : Inner)
      → download cfg h task m ≡ some r
      → (middle : List DownloadEvent) × (last : DownloadEvent) × (r.events
          ≡ probing task.id ∷ (middle ++ last ∷ []))
        × AtMostStarted task.id middle
        × Ends task.id r.result last
  unfolding download
  download-Ends r x = elim (Option-cases (download_inner cfg h task m)) [
    | inl stuck ↦ absurd (cc (rw (download, stuck) at x))
    | inr (i, e) ↦
        let same : record i {
          events = probing task.id ∷ (i.events ++ last_event task.id i.result ∷ []);
        }
            ≡ r =
          some-injective (rw (download, e) at x) in
        (
          i.events,
          last_event task.id i.result,
          sym (ap (λ (y : Inner). y.events) same),
          download_inner-events i e,
          subst (λ z. Ends task.id z (last_event task.id i.result))
              (ap (λ (y : Inner). y.result) same) (last_event-Ends task.id i.result),
        )
  ]
