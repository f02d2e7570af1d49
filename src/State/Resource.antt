-- ===== src/State/Resource.antt =====
-- `matches_resource` of src/state.rs: when a saved state may be resumed against a probed resource.
use fast_downloader.Prelude.{◌≡◌, ◌≢◌, ◌↔◌, ◌⊎◌, inl, inr, Bool, false, Option, none, some, arith}
use fast_downloader.Prelude.Text.{Text, text_eq_iff}
use fast_downloader.State.{
  DownloadState, is_weak, matches_etag, matches_last_modified, matches_resource,
}

-- Both sides report the validator, and the reports differ.
abbrev pub Differ : Option Text → Option Text → Type 0
Differ (some saved) (some current) = saved ≢ current
Differ (some saved) none = ⊥
Differ none current = ⊥

-- Both sides report the same strong `ETag`.
abbrev pub SameStrong : Option Text → Option Text → Type 0
SameStrong (some saved) (some current) = (saved ≡ current) × (is_weak saved ≡ false)
SameStrong (some saved) none = ⊥
SameStrong none current = ⊥

matches_last_modified-eq-false :
    (saved current : Option Text)
    → (matches_last_modified saved current ≡ false) ↔ Differ saved current
unfolding matches_last_modified
matches_last_modified-eq-false (some a) (some b) = ground (arith, text_eq_iff a b)
matches_last_modified-eq-false (some a) none = ground arith
matches_last_modified-eq-false none current = ground arith

matches_etag-eq-false :
    (saved current : Option Text) (fallback : Bool)
    → (matches_etag saved current fallback ≡ false)
      ↔ (Differ saved current ⊎ ((¬ SameStrong saved current) × (fallback ≡ false)))
unfolding matches_etag
matches_etag-eq-false (some a) (some b) fallback = ground (arith, text_eq_iff a b)
matches_etag-eq-false (some a) none fallback = ground arith
matches_etag-eq-false none current fallback = ground arith

-- A resume is refused exactly on positive evidence of a change: two `ETag`s that differ, or, unless
-- both sides report the same strong `ETag`, two `Last-Modified` values that differ.
pub matches_resource-eq-false :
    (s : DownloadState) (etag last_modified : Option Text)
    → (matches_resource s etag last_modified ≡ false)
      ↔ (Differ s.etag etag ⊎ ((¬ SameStrong s.etag etag) × Differ s.last_modified last_modified))
unfolding matches_resource
matches_resource-eq-false s etag last_modified =
    let e =
      matches_etag-eq-false s.etag etag (matches_last_modified s.last_modified last_modified) in
    let l = matches_last_modified-eq-false s.last_modified last_modified in
    (
      (λ h. elim (e.0 h) [ inl d ↦ inl d | inr p ↦ inr (p.0, l.0 p.1) ]),
      (λ d. e.1 (elim d [ inl d ↦ inl d | inr p ↦ inr (p.0, l.1 p.1) ])),
    )
