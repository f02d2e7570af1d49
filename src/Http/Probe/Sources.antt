-- ===== src/Http/Probe/Sources.antt =====
-- Where the facts in the result of `probe` of src/http.rs come from.
use fast_downloader.Prelude.{
  ℕ, ◌≤◌, ◌<◌, ◌≡◌, ◌⊎◌, inl, inr, refl, sym, ap, ◌∙◌, Bool, true, false, not, ◌&&◌, ◌||◌, Option,
  none, some, List, arith, ◌==◌, Bool-cases, ==_iff,
}
use fast_downloader.Prelude.Text.{Text, codes, text_eq, text_eq_iff, to_ascii_lowercase}
use fast_downloader.Error.{Result, ok, err, ok-injective, Result-cases}
use fast_downloader.Checksum.Advertised.{digest_from_parts}
use fast_downloader.Http.{FileInfo}
use fast_downloader.Http.Probe.{
  Answer, is_success, accepts_ranges, Known, nothing_known, is_true, is_some, from_head, head_known,
  file_info, with_range_probe, range_probe, probe,
}

is_true-some : (o : Option Bool) → is_true o ≡ true → o ≡ some true
unfolding is_true
is_true-some none h = absurd (cc)
is_true-some (some b) h = ap some h

-- The header is there, and is `bytes` in any case.
abbrev pub SaysBytes : Option Text → Type 0
SaysBytes header = (v : Text) × (header ≡ some v) × (to_ascii_lowercase v ≡ codes "bytes")

accepts_ranges-SaysBytes : (o : Option Text) → accepts_ranges o ≡ some true → SaysBytes o
unfolding accepts_ranges
accepts_ranges-SaysBytes none h = absurd (cc)
accepts_ranges-SaysBytes (some v) h =
    elim (Bool-cases (text_eq (to_ascii_lowercase v) (codes "bytes"))) [
      | inl e ↦ (v, refl, (text_eq_iff (to_ascii_lowercase v) (codes "bytes")).0 e)
      | inr e ↦ elim (Bool-cases (text_eq (to_ascii_lowercase v) (codes "none"))) [
        | inl n ↦ absurd (cc (rw (accepts_ranges, e, n) at h))
        | inr n ↦ absurd (cc (rw (accepts_ranges, e, n) at h))
      ]
    ]

-- A status from 200 to 299.
abbrev pub IsSuccess : ℕ → Type 0
IsSuccess s = (200 ≤ s) × (s < 300)

is_success-IsSuccess : (s : ℕ) → is_success s ≡ true → IsSuccess s
unfolding is_success
is_success-IsSuccess s h = ground (arith, h)

second_only : (a b : Bool) → a ≡ false → (a || b) ≡ true → b ≡ true
second_only a b e h = ground arith

module _ (decode : Text → Option (List ℕ)) (url : Text) where
  -- The probe ended with the first answer, or with the second.
  abbrev Routes : Result Answer → Result Answer → FileInfo → Type 0
  Routes head get info =
      ((info ≡ file_info decode url (head_known decode url head) true)
        × (is_true (head_known decode url head).supports_range ≡ true))
      ⊎ ((resp : Answer) × (get ≡ ok resp)
          × (info
              ≡ file_info decode url (with_range_probe decode url (head_known decode url head) resp)
                  ((resp.status == 206) || is_true (head_known decode url head).supports_range)))

  probe-Routes :
      (head get : Result Answer) (info : FileInfo)
      → probe decode url head get ≡ ok info
      → Routes head get info
  unfolding probe range_probe
  probe-Routes head get info h =
      let k = head_known decode url head in
      elim (Bool-cases (is_true k.supports_range && is_some k.size)) [
        | inl enough ↦ inl (sym (ok-injective (rw (probe, enough) at h)), ground (arith, enough))
        | inr more ↦ elim (Result-cases get) [
          | inr (e, g) ↦ absurd (cc (rw (probe, more, g) at h))
          | inl (resp, g) ↦
              elim (Bool-cases (not (is_success resp.status) && not (resp.status == 206))) [
                | inl refuses ↦ absurd (cc (rw (probe, more, g, range_probe, refuses) at h))
                | inr serves ↦
                    inr
                      (resp, g, sym (ok-injective (rw (probe, more, g, range_probe, serves) at h)))
              ]
        ]
      ]

  head_known-cases :
      (head : Result Answer)
      → (head_known decode url head ≡ nothing_known)
        ⊎ ((a : Answer) × (head ≡ ok a)
            × (is_success a.status ≡ true)
            × (head_known decode url head ≡ from_head decode url a))
  unfolding head_known
  head_known-cases (err e) = inl refl
  head_known-cases (ok a) = elim (Bool-cases (is_success a.status)) [
    | inl serves ↦ inr (a, refl, serves, rw (head_known, serves) refl)
    | inr refuses ↦ inl (rw (head_known, refuses) refl)
  ]

  head_known-supports_range :
      (head : Result Answer)
      → is_true (head_known decode url head).supports_range ≡ true
      → (a : Answer) × (head ≡ ok a) × IsSuccess a.status × SaysBytes a.headers.accept_ranges
  unfolding from_head nothing_known is_true
  head_known-supports_range head h = elim (head_known-cases head) [
    | inl nothing ↦ absurd (cc (nothing, h))
    | inr (a, said, serves, known) ↦ (
      a,
      said,
      is_success-IsSuccess a.status serves,
      accepts_ranges-SaysBytes a.headers.accept_ranges (
          is_true-some (accepts_ranges a.headers.accept_ranges)
            (sym (ap (λ (k : Known). is_true k.supports_range) known) ∙ h)),
    )
  ]

  -- Range support is reported only on evidence: the server said `Accept-Ranges: bytes`, in any
  -- case, in an answer to the first request with a status from 200 to 299, or answered the second
  -- one with 206.
  pub probe-supports_range :
      (head get : Result Answer) (info : FileInfo)
      → probe decode url head get ≡ ok info
      → info.supports_range ≡ true
      → ((a : Answer) × (head ≡ ok a) × IsSuccess a.status × SaysBytes a.headers.accept_ranges)
        ⊎ ((resp : Answer) × (get ≡ ok resp) × (resp.status ≡ 206))
  unfolding file_info
  probe-supports_range head get info h s = elim (probe-Routes head get info h) [
    | inl (same, said) ↦ inl (head_known-supports_range head said)
    | inr (resp, g, same) ↦ elim (Bool-cases (resp.status == 206)) [
      | inl partial ↦ inr (resp, g, (==_iff resp.status 206).0 partial)
      | inr other ↦ inl (
          head_known-supports_range head (
            second_only (resp.status == 206) (is_true (head_known decode url head).supports_range)
              other (sym (ap (λ (i : FileInfo). i.supports_range) same) ∙ s)))
    ]
  ]

  -- The digest is that of a successful answer to the first request, or none: never one that came
  -- with the second request, whose answer may be about a single byte.
  pub probe-digest :
      (head get : Result Answer) (info : FileInfo)
      → probe decode url head get ≡ ok info
      → (info.digest ≡ none)
        ⊎ ((a : Answer) × (head ≡ ok a)
            × (is_success a.status ≡ true)
            × (info.digest
                ≡ digest_from_parts decode a.headers.repr_digest a.headers.digest
                    a.headers.content_md5))
  unfolding file_info with_range_probe from_head nothing_known
  probe-digest head get info h =
      let kept : info.digest ≡ (head_known decode url head).digest =
        elim (probe-Routes head get info h) [
          | inl (same, said) ↦ ap (λ (i : FileInfo). i.digest) same
          | inr (resp, g, same) ↦ ap (λ (i : FileInfo). i.digest) same
        ] in
      elim (head_known-cases head) [
        | inl nothing ↦ inl (kept ∙ ap (λ (k : Known). k.digest) nothing)
        | inr (a, said, serves, known) ↦
            inr (a, said, serves, kept ∙ ap (λ (k : Known). k.digest) known)
      ]
