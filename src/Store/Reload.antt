-- ===== src/Store/Reload.antt =====
-- `save` then `load` of src/state.rs: what is read back, after a save that succeeds and after one
-- that fails.
use fast_downloader.Prelude.{ℕ, ◌≡◌, inl, inr, refl, ap, subst, Option, none, some, List, arith}
use fast_downloader.Prelude.Text.{Text}
use fast_downloader.Error.{Error, Result, ok, err, Result-cases, ok-injective, ◌>>=◌}
use fast_downloader.State.{DownloadState, validate}
use fast_downloader.State.Validity.{IsValid, validate-IsValid}
use fast_downloader.Store.{
  Disk, Codec, apply_ops, SaveFaults, tmp_path, save, save_bytes, load_from, load,
}
use fast_downloader.Store.Atomic.{
  complete, apply_ops-complete, save_bytes-Ends, apply_ops-Untouched, tmp_path-ne,
}

-- What the code relies on of the JSON codec: a state that is written is read back.
pub record IsCodec (c : Codec) : Type 0 where
  pub reads_back :
      (s : DownloadState) (bytes : List ℕ) → c.to_vec s ≡ ok bytes → c.from_slice bytes ≡ ok s

load-stored :
    (c : Codec) (d : Disk) (path : Text) (s : DownloadState) (bytes : List ℕ)
    → IsCodec c
    → c.to_vec s ≡ ok bytes
    → d path ≡ some bytes
    → validate s ≡ ok tt
    → load c d path ≡ ok s
unfolding load
load-stored c d path s bytes law t stored v = rw (stored, law.reads_back s bytes t, v)

-- A state that passes `validate` and is saved without an error is what `load` returns afterwards,
-- for a codec that reads back what it wrote.
pub load-save :
    (c : Codec) (path : Text) (s : DownloadState) (f : SaveFaults) (d : Disk)
    → IsCodec c
    → validate s ≡ ok tt
    → (save c path s f).1 ≡ ok tt
    → load c (apply_ops (save c path s f).0 d) path ≡ ok s
unfolding save
load-save c path s f d law v h = elim (Result-cases (c.to_vec s)) [
  | inr (e, t) ↦ absurd (ground (arith, t))
  | inl (bytes, t) ↦ elim (save_bytes-Ends path bytes f) [
    | inl only ↦ absurd (ground (arith, t, only.1.1))
    | inr done ↦
        rw (t, save, done.0)
          (load-stored c (apply_ops (complete path bytes) d) path s bytes law t
            (apply_ops-complete path bytes d).0 v)
  ]
]

-- After a save that fails, `load` returns what it returned before.
pub load-save_failed :
    (c : Codec) (path : Text) (s : DownloadState) (f : SaveFaults) (d : Disk) (x : Error)
    → (save c path s f).1 ≡ err x
    → load c (apply_ops (save c path s f).0 d) path ≡ load c d path
unfolding save load apply_ops
load-save_failed c path s f d x h = elim (Result-cases (c.to_vec s)) [
  | inr (e, t) ↦ rw (t, save)
  | inl (bytes, t) ↦ elim (save_bytes-Ends path bytes f) [
    | inl only ↦
        rw (t, save)
          (ap (load_from c) (
            apply_ops-Untouched (tmp_path path) (save_bytes path bytes f).0 d only.0 path
              (tmp_path-ne path)))
    | inr done ↦ absurd (ground (arith, t, done.1))
  ]
]

validated :
    (t s : DownloadState) (v : Result (Unit {0}))
    → validate t ≡ v
    → (v >>= λ _. ok t) ≡ ok s
    → validate s ≡ ok tt
validated t s (ok tt) e h = subst (λ x. validate x ≡ ok tt) (ok-injective h) e
validated t s (err x) e h = cc

loaded-validate :
    (c : Codec) (o : Option (List ℕ)) (s : DownloadState)
    → load_from c o ≡ ok s
    → validate s ≡ ok tt
unfolding load_from
loaded-validate c none s h = cc
loaded-validate c (some bytes) s h = elim (Result-cases (c.from_slice bytes)) [
  | inl (t, e) ↦ validated t s (validate t) refl (rw e at h)
  | inr (x, e) ↦ absurd (ground (arith, e))
]

-- What `load` returns has passed `validate`: the version is current, and the ranges tile the file.
pub load-IsValid :
    (c : Codec) (d : Disk) (path : Text) (s : DownloadState) → load c d path ≡ ok s → IsValid s
unfolding load
load-IsValid c d path s h = (validate-IsValid s).0 (loaded-validate c (d path) s h)
