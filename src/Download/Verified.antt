-- ===== src/Download/Verified.antt =====
-- What `download_inner` of src/downloader.rs has checked when it succeeds, and what it leaves
-- behind when the content is wrong.
use fast_downloader.Prelude.{
  ℕ, ◌≡◌, ◌⊎◌, inl, inr, refl, sym, ap, subst, ◌∙◌, true, false, Option, none, some, List, [], ◌∷◌,
  arith, if◌then◌else◌, Bool-cases, Option-cases, some-injective,
}
use fast_downloader.Prelude.Text.{Text}
use fast_downloader.Error.{Error, Result, ok, err, invalid_url, Result-cases, ok-injective}
use fast_downloader.Checksum.{Checksum, Hashes, verify_file}
use fast_downloader.Config.{DownloaderConfig, DownloadTask, DownloadOutcome}
use fast_downloader.Http.{FileInfo}
use fast_downloader.Download.{
  DownloadEvent, started, Meeting, Inner, gives_up, clamp_threads, thread_count_or, fetch,
  can_multi, expected_checksum, differs, check_finished, finish, after_probe, download_inner,
}

-- The file as it is read has the checksum of the caller, if there is one; and else that of the
-- server, if there is one and it is to be verified.
abbrev pub IsVerified : DownloaderConfig → Hashes → DownloadTask → Meeting → FileInfo → Type 0
IsVerified cfg h task m info =
    ((c : Checksum) → task.expected_checksum ≡ some c → verify_file h m.opened m.reads c ≡ ok tt)
    × ((c : Checksum)
        → task.expected_checksum ≡ none
        → cfg.verify_server_digest ≡ true
        → info.digest ≡ some c
        → verify_file h m.opened m.reads c ≡ ok tt)

-- The length that the probe found, if any, is the outcome's, and the checksum is verified.
abbrev pub Checked :
    DownloaderConfig → Hashes → DownloadTask → Meeting → FileInfo → DownloadOutcome → Type 0
Checked cfg h task m info out =
    ((info.size ≡ none) ⊎ (info.size ≡ some out.size)) × IsVerified cfg h task m info

-- What `expected_checksum` chose, if it chose one, has been verified.
abbrev Passed : DownloaderConfig → Hashes → DownloadTask → Meeting → FileInfo → Type 0
Passed cfg h task m info =
    (expected_checksum cfg task info ≡ none)
    ⊎ ((c : Checksum) × (expected_checksum cfg task info ≡ some c)
        × (verify_file h m.opened m.reads c ≡ ok tt))

chosen-verified :
    (cfg : DownloaderConfig) (h : Hashes) (task : DownloadTask) (m : Meeting) (info : FileInfo)
    (c : Checksum)
    → Passed cfg h task m info
    → expected_checksum cfg task info ≡ some c
    → verify_file h m.opened m.reads c ≡ ok tt
chosen-verified cfg h task m info c (inl no_sum) e = absurd (cc)
chosen-verified cfg h task m info c (inr (d, sum, v)) e =
    subst (λ x. verify_file h m.opened m.reads x ≡ ok tt) (some-injective (sym sum ∙ e)) v

Passed-IsVerified :
    (cfg : DownloaderConfig) (h : Hashes) (task : DownloadTask) (m : Meeting) (info : FileInfo)
    → Passed cfg h task m info
    → IsVerified cfg h task m info
unfolding expected_checksum
Passed-IsVerified cfg h task m info passed = (
  (λ c e. chosen-verified cfg h task m info c passed (rw (expected_checksum, e) refl)),
  (λ c e on d. chosen-verified cfg h task m info c passed (rw (expected_checksum, e, on) d)),
)

-- How an end relates to what was checked: a success has passed the checks, and the files are
-- removed just where the verification failed, with its error.
abbrev Sound : DownloaderConfig → Hashes → DownloadTask → Meeting → FileInfo → Inner → Type 0
Sound cfg h task m info r =
    ((e : Error) × (r.result ≡ err e)
      × ((r.removed ≡ false)
          ⊎ ((c : Checksum) × (expected_checksum cfg task info ≡ some c)
              × (verify_file h m.opened m.reads c ≡ err e))))
    ⊎ ((out : DownloadOutcome) × (r.result ≡ ok out)
        × (r.removed ≡ false)
        × (m.measured ≡ ok out.size)
        × (out.id ≡ task.id)
        × Checked cfg h task m info out)

differs-eq-false : (o : Option ℕ) (size : ℕ) → differs o size ≡ false → (o ≡ none) ⊎ (o ≡ some size)
unfolding differs
differs-eq-false none size h = inl refl
differs-eq-false (some n) size h = inr (ap some (ground arith))

gives_up-Sound :
    (cfg : DownloaderConfig) (h : Hashes) (task : DownloadTask) (m : Meeting) (info : FileInfo)
    (e : Error) (events : List DownloadEvent)
    → Sound cfg h task m info (gives_up e events)
unfolding gives_up
gives_up-Sound cfg h task m info e events = inl (e, refl, inl refl)

check_finished-Sound :
    (cfg : DownloaderConfig) (h : Hashes) (task : DownloadTask) (info : FileInfo) (m : Meeting)
    (events : List DownloadEvent) (path : Text) (size : ℕ)
    → m.measured ≡ ok size
    → Sound cfg h task m info
        (check_finished h task info (expected_checksum cfg task info) m events path size)
unfolding check_finished gives_up
check_finished-Sound cfg h task info m events path size measured =
    elim (Bool-cases (differs info.size size)) [
      | inl short ↦ rw (check_finished, short) (inl (_, refl, inl refl))
      | inr fits ↦
          let right = differs-eq-false info.size size fits in
          elim (Option-cases (expected_checksum cfg task info)) [
            | inl no_sum ↦
                rw (check_finished, fits, no_sum)
                  (inr (
                    _,
                    refl,
                    refl,
                    measured,
                    refl,
                    (right, Passed-IsVerified cfg h task m info (inl no_sum)),
                  ))
            | inr (c, sum) ↦ elim (Result-cases (verify_file h m.opened m.reads c)) [
              | inr (e, v) ↦ rw (check_finished, fits, sum, v) (inl (e, refl, inr (c, refl, v)))
              | inl (u, v) ↦
                  rw (check_finished, fits, sum, v)
                    (inr (
                      _,
                      refl,
                      refl,
                      measured,
                      refl,
                      (right, Passed-IsVerified cfg h task m info (inr (c, sum, v))),
                    ))
            ]
          ]
    ]

finish-Sound :
    (cfg : DownloaderConfig) (h : Hashes) (task : DownloadTask) (info : FileInfo) (m : Meeting)
    (events : List DownloadEvent) (r : Result Text)
    → Sound cfg h task m info (finish cfg h task info m events r)
unfolding finish
finish-Sound cfg h task info m events (err e) = gives_up-Sound cfg h task m info e events
finish-Sound cfg h task info m events (ok path) = elim (Result-cases m.measured) [
  | inr (e, x) ↦
      let same : finish cfg h task info m events (ok path) ≡ gives_up e events =
        rw (finish, x) refl in
      subst (Sound cfg h task m info) (sym same) (gives_up-Sound cfg h task m info e events)
  | inl (size, x) ↦
      let same : finish cfg h task info m events (ok path)
          ≡ check_finished h task info (expected_checksum cfg task info) m events path size =
        rw (finish, x) refl in
      subst (Sound cfg h task m info) (sym same)
        (check_finished-Sound cfg h task info m events path size x)
]

module _ (cfg : DownloaderConfig) (h : Hashes) (task : DownloadTask) (m : Meeting) where
  abbrev Settled : Inner → Type 0
  Settled r =
      ((e : Error) × (r.result ≡ err e) × (r.removed ≡ false))
      ⊎ ((info : FileInfo) × (m.probed ≡ ok info) × Sound cfg h task m info r)

  gives_up-Settled : (e : Error) (r : Inner) → some (gives_up e []) ≡ some r → Settled r
  unfolding gives_up
  gives_up-Settled e r x =
      let same = some-injective x in
      inl (e, sym (ap (λ (y : Inner). y.result) same), sym (ap (λ (y : Inner). y.removed) same))

  after_probe-Sound :
      (info : FileInfo) (r : Inner)
      → after_probe cfg h task info m ≡ some r
      → Sound cfg h task m info r
  unfolding after_probe
  after_probe-Sound info r x =
      elim (Option-cases
        (clamp_threads (thread_count_or task.thread_count cfg.default_threads) cfg.max_threads)) [
          | inl panics ↦ absurd (cc (rw (after_probe, panics) at x))
          | inr (threads, t) ↦
              let events =
                started task.id info.size info.supports_range
                  (if can_multi info threads then threads else 1) task.save_path
                ∷ [] in
              elim (Option-cases (fetch cfg task info threads m)) [
                | inl stuck ↦ absurd (cc (rw (after_probe, t, stuck) at x))
                | inr (f, e) ↦
                    subst (Sound cfg h task m info) (some-injective (rw (after_probe, t, e) at x))
                      (finish-Sound cfg h task info m events f)
              ]
        ]

  download_inner-Settled : (r : Inner) → download_inner cfg h task m ≡ some r → Settled r
  unfolding download_inner
  download_inner-Settled r x = elim (Bool-cases m.is_url) [
    | inr bad ↦ gives_up-Settled (invalid_url task.url) r (rw (download_inner, bad) at x)
    | inl url ↦ elim (Result-cases m.directory) [
      | inr (e, d) ↦ gives_up-Settled e r (rw (download_inner, url, d) at x)
      | inl (u, d) ↦ elim (Result-cases m.probed) [
        | inr (e, p) ↦ gives_up-Settled e r (rw (download_inner, url, d, p) at x)
        | inl (info, p) ↦
            inr (info, p, after_probe-Sound info r (rw (download_inner, url, d, p) at x))
      ]
    ]
  ]

  -- A download that succeeds has passed every check: the outcome carries the task's id and the
  -- size of the finished file, which is the length that the probe found, if it found one; the
  -- file as it is read has the checksum of the caller, if there is one, whatever the server sent,
  -- and else the server's, if there is one and `verify_server_digest` is set; and nothing was
  -- removed.
  pub download_inner-Checked :
      (r : Inner) (out : DownloadOutcome)
      → download_inner cfg h task m ≡ some r
      → r.result ≡ ok out
      → (info : FileInfo) × (m.probed ≡ ok info)
        × (m.measured ≡ ok out.size)
        × (out.id ≡ task.id)
        × (r.removed ≡ false)
        × Checked cfg h task m info out
  download_inner-Checked r out x e = elim (download_inner-Settled r x) [
    | inl (y, fails, kept) ↦ absurd (cc)
    | inr (info, p, inl (y, fails, why)) ↦ absurd (cc)
    | inr (info, p, inr (o, succeeds, kept, measured, same, checked)) ↦
        let eq : o ≡ out = ok-injective (sym succeeds ∙ e) in
        (
          info,
          p,
          measured ∙ ap (λ (z : DownloadOutcome). ok (z.size)) eq,
          sym (ap (λ (z : DownloadOutcome). z.id) eq) ∙ same,
          kept,
          subst (Checked cfg h task m info) eq checked,
        )
  ]

  -- The finished file and the state file are removed only when the verification against the
  -- expected checksum fails, and then its error is the result.
  pub download_inner-removed :
      (r : Inner)
      → download_inner cfg h task m ≡ some r
      → r.removed ≡ true
      → (info : FileInfo) × (c : Checksum) × (e : Error) × (m.probed ≡ ok info)
        × (expected_checksum cfg task info ≡ some c)
        × (verify_file h m.opened m.reads c ≡ err e)
        × (r.result ≡ err e)
  download_inner-removed r x gone = elim (download_inner-Settled r x) [
    | inl (y, fails, kept) ↦ absurd (cc)
    | inr (info, p, inl (y, fails, inl kept)) ↦ absurd (cc)
    | inr (info, p, inl (y, fails, inr (c, sum, v))) ↦ (info, c, y, p, sum, v, fails)
    | inr (info, p, inr (o, succeeds, kept, n, i, rest)) ↦ absurd (cc)
  ]
