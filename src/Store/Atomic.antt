-- ===== src/Store/Atomic.antt =====
-- `save` of src/state.rs replaces the file as a whole: no crash leaves a part of it.
use mathlib.Core.List.{append-nil, append_assoc}
use fast_downloader.Prelude.{
  ℕ, zero, suc, ◌≡◌, ◌≢◌, ◌⊎◌, inl, inr, refl, sym, ◌∙◌, ap, Option, none, some, List, [], ◌∷◌,
  ◌++◌, take, length, length-append, arith, Bool-cases, Option-cases,
}
use fast_downloader.Prelude.Text.{Text, codes, text_eq, text_eq_iff}
use fast_downloader.Error.{Error, Result, ok, err, Result-cases}
use fast_downloader.State.{DownloadState}
use fast_downloader.Store.{
  Disk, Codec, DiskOp, create, append, sync, rename, update, appended, apply_op, apply_ops,
  SaveFaults, tmp_path, write_ops, synced_ops, save_bytes, save,
}

update_self : (d : Disk) (p : Text) (c : Option (List ℕ)) → update d p c p ≡ c
unfolding update
update_self d p c = ground (arith, text_eq_iff p p)

update_ne : (d : Disk) (p q : Text) (c : Option (List ℕ)) → p ≢ q → update d p c q ≡ d q
unfolding update
update_ne d p q c h = ground (arith, text_eq_iff p q)

pub tmp_path-ne : (p : Text) → tmp_path p ≢ p
unfolding tmp_path
tmp_path-ne p e = omega (arith, ap length e, length-append p (codes ".tmp"))

-- Nothing but the file at `tmp` differs.
abbrev pub Untouched : Text → Disk → Disk → Type 0
Untouched tmp d d' = (q : Text) → tmp ≢ q → d' q ≡ d q

abbrev pub OnlyOn : Text → List DiskOp → Type 0
OnlyOn tmp [] = Unit
OnlyOn tmp (create p ∷ os) = (p ≡ tmp) × OnlyOn tmp os
OnlyOn tmp (append p b ∷ os) = (p ≡ tmp) × OnlyOn tmp os
OnlyOn tmp (sync p ∷ os) = OnlyOn tmp os
OnlyOn tmp (rename p q ∷ os) = ⊥

pub apply_ops-Untouched :
    (tmp : Text) (os : List DiskOp) (d : Disk) → OnlyOn tmp os → Untouched tmp d (apply_ops os d)
unfolding apply_ops apply_op
apply_ops-Untouched tmp [] d h q ne = refl
apply_ops-Untouched tmp (create p ∷ os) d h q ne =
    apply_ops-Untouched tmp os _ h.1 q ne ∙ update_ne d p q _ (λ e. ne (sym h.0 ∙ e))
apply_ops-Untouched tmp (append p b ∷ os) d h q ne =
    apply_ops-Untouched tmp os _ h.1 q ne ∙ update_ne d p q _ (λ e. ne (sym h.0 ∙ e))
apply_ops-Untouched tmp (sync p ∷ os) d h q ne = apply_ops-Untouched tmp os d h q ne
apply_ops-Untouched tmp (rename p r ∷ os) d h q ne = absurd h

OnlyOn-take : (tmp : Text) (k : ℕ) (os : List DiskOp) → OnlyOn tmp os → OnlyOn tmp (take k os)
OnlyOn-take tmp zero os h = tt
OnlyOn-take tmp (suc k) [] h = tt
OnlyOn-take tmp (suc k) (create p ∷ os) h = (h.0, OnlyOn-take tmp k os h.1)
OnlyOn-take tmp (suc k) (append p b ∷ os) h = (h.0, OnlyOn-take tmp k os h.1)
OnlyOn-take tmp (suc k) (sync p ∷ os) h = OnlyOn-take tmp k os h
OnlyOn-take tmp (suc k) (rename p q ∷ os) h = absurd h

write_ops-OnlyOn : (tmp : Text) (bs : List ℕ) → OnlyOn tmp (write_ops tmp bs)
unfolding write_ops
write_ops-OnlyOn tmp [] = tt
write_ops-OnlyOn tmp (b ∷ bs) = (refl, write_ops-OnlyOn tmp bs)

apply_ops-append :
    (os ps : List DiskOp) (d : Disk) → apply_ops (os ++ ps) d ≡ apply_ops ps (apply_ops os d)
unfolding apply_ops
apply_ops-append [] ps d = refl
apply_ops-append (o ∷ os) ps d = apply_ops-append os ps (apply_op o d)

-- Writing the bytes one by one writes them.
apply_ops-write_ops :
    (tmp : Text) (bs c : List ℕ) (d : Disk)
    → d tmp ≡ some c
    → apply_ops (write_ops tmp bs) d tmp ≡ some (c ++ bs)
unfolding apply_ops apply_op write_ops appended
apply_ops-write_ops tmp [] c d h = h ∙ ap some (sym (append-nil c))
apply_ops-write_ops tmp (b ∷ bs) c d h =
    apply_ops-write_ops tmp bs (c ++ b ∷ []) _ (update_self d tmp _ ∙ ap (λ o. appended o b) h)
    ∙ ap some (append_assoc c (b ∷ []) bs)

synced_ops-OnlyOn : (tmp : Text) (bs : List ℕ) → OnlyOn tmp (synced_ops tmp bs)
unfolding synced_ops write_ops
synced_ops-OnlyOn tmp [] = tt
synced_ops-OnlyOn tmp (b ∷ bs) = (refl, synced_ops-OnlyOn tmp bs)

apply_ops-synced_ops :
    (tmp : Text) (bs : List ℕ) (d : Disk)
    → d tmp ≡ some []
    → apply_ops (synced_ops tmp bs) d tmp ≡ some bs
unfolding synced_ops apply_ops apply_op
apply_ops-synced_ops tmp bs d h =
    ap (λ (x : Disk). x tmp) (apply_ops-append (write_ops tmp bs) (sync tmp ∷ []) d)
    ∙ apply_ops-write_ops tmp bs [] d h

take-snoc {ℓ} :
    {A : Type ℓ} (k : ℕ) (xs : List A) (y : A)
    → (take k (xs ++ y ∷ []) ≡ take k xs) ⊎ (take k (xs ++ y ∷ []) ≡ xs ++ y ∷ [])
take-snoc zero xs y = inl refl
take-snoc (suc zero) [] y = inr refl
take-snoc (suc (suc k)) [] y = inr refl
take-snoc (suc k) (x ∷ xs) y = elim (take-snoc k xs y) [
  | inl e ↦ inl (ap (λ z. x ∷ z) e)
  | inr e ↦ inr (ap (λ z. x ∷ z) e)
]

-- All the operations of a save that succeeds.
pub complete : Text → List ℕ → List DiskOp
complete path bytes =
    create (tmp_path path) ∷ (synced_ops (tmp_path path) bytes ++ rename (tmp_path path) path ∷ [])

pub apply_ops-complete :
    (path : Text) (bytes : List ℕ) (d : Disk)
    → (apply_ops (complete path bytes) d path ≡ some bytes)
      × ((q : Text) → tmp_path path ≢ q → path ≢ q → apply_ops (complete path bytes) d q ≡ d q)
unfolding complete apply_ops apply_op
apply_ops-complete path bytes d =
    let tmp = tmp_path path in
    let d1 = update d tmp (some []) in
    let d2 = apply_ops (synced_ops tmp bytes) d1 in
    let split = apply_ops-append (synced_ops tmp bytes) (rename tmp path ∷ []) d1 in
    let stored : d2 tmp ≡ some bytes = apply_ops-synced_ops tmp bytes d1 (update_self d tmp _) in
    (
      ap (λ (x : Disk). x path) split
          ∙ update_ne (update d2 path (d2 tmp)) tmp path none (tmp_path-ne path)
          ∙ update_self d2 path (d2 tmp)
          ∙ stored,
      λ q ne ne'.
          ap (λ (x : Disk). x q) split
          ∙ update_ne (update d2 path (d2 tmp)) tmp q none ne
          ∙ update_ne d2 path q (d2 tmp) ne'
          ∙ apply_ops-Untouched tmp (synced_ops tmp bytes) d1 (synced_ops-OnlyOn tmp bytes) q ne
          ∙ update_ne d tmp q _ ne,
    )

-- A save fails having touched the temporary file alone, or runs to its end.
abbrev pub Ends : Text → List ℕ → List DiskOp × Result (Unit {0}) → Type 0
Ends path bytes r =
    (OnlyOn (tmp_path path) r.0 × ((e : Error) × (r.1 ≡ err e)))
    ⊎ ((r.0 ≡ complete path bytes) × (r.1 ≡ ok tt))

pub save_bytes-Ends :
    (path : Text) (bytes : List ℕ) (f : SaveFaults) → Ends path bytes (save_bytes path bytes f)
unfolding save_bytes complete
save_bytes-Ends path bytes f =
    let tmp = tmp_path path in
    elim (Result-cases f.created) [
      | inr (e, c) ↦ rw (c, save_bytes) (inl (tt, (e, refl)))
      | inl (u, c) ↦ elim (Option-cases f.write_failure) [
        | inr ((k, e), w) ↦
            rw (c, w, save_bytes) (inl ((refl, write_ops-OnlyOn tmp (take k bytes)), (e, refl)))
        | inl w ↦ elim (Result-cases f.flushed) [
          | inr (e, x) ↦
              rw (c, w, x, save_bytes) (inl ((refl, write_ops-OnlyOn tmp bytes), (e, refl)))
          | inl (v, x) ↦ elim (Result-cases f.renamed) [
            | inr (e, r) ↦
                rw (c, w, x, r, save_bytes) (inl ((refl, synced_ops-OnlyOn tmp bytes), (e, refl)))
            | inl (t, r) ↦ rw (c, w, x, r, save_bytes) (inr (refl, refl))
          ]
        ]
      ]
    ]

-- What a crash after `k` operations of a complete save leaves.
complete_prefix :
    (path : Text) (bytes : List ℕ) (d : Disk) (k : ℕ) (q : Text)
    → tmp_path path ≢ q
    → (apply_ops (take k (complete path bytes)) d q ≡ d q)
      ⊎ ((q ≡ path) × (apply_ops (take k (complete path bytes)) d q ≡ some bytes))
unfolding complete
complete_prefix path bytes d k q ne =
    let tmp = tmp_path path in
    elim (take-snoc k (create tmp ∷ synced_ops tmp bytes) (rename tmp path)) [
      | inl e ↦ inl (
          ap (λ os. apply_ops os d q) e
          ∙ apply_ops-Untouched tmp (take k (create tmp ∷ synced_ops tmp bytes)) d
              (OnlyOn-take tmp k _ (refl, synced_ops-OnlyOn tmp bytes)) q ne)
      | inr e ↦ elim (Bool-cases (text_eq path q)) [
        | inl here ↦
            let same : path ≡ q = (text_eq_iff path q).0 here in
            inr (
              sym same,
              ap (λ os. apply_ops os d q) e
                  ∙ ap (apply_ops (complete path bytes) d) (sym same)
                  ∙ (apply_ops-complete path bytes d).0,
            )
        | inr other ↦ inl (
            ap (λ os. apply_ops os d q) e
            ∙ (apply_ops-complete path bytes d).1 q ne (λ s. cc (other, (text_eq_iff path q).1 s)))
      ]
    ]

-- A crash at any moment of a save, also in the midst of a write, and whatever call failed, leaves
-- each file but the temporary one as it was, except that the state file may be the new one, whole.
pub save-atomic :
    (c : Codec) (path : Text) (s : DownloadState) (f : SaveFaults) (d : Disk) (k : ℕ) (q : Text)
    → tmp_path path ≢ q
    → (apply_ops (take k (save c path s f).0) d q ≡ d q)
      ⊎ ((q ≡ path)
          × ((bytes : List ℕ) × (c.to_vec s ≡ ok bytes)
              × (apply_ops (take k (save c path s f).0) d q ≡ some bytes)))
unfolding save
save-atomic c path s f d k q ne = elim (Result-cases (c.to_vec s)) [
  | inr (e, t) ↦
      rw (t, save)
        (inl (
          apply_ops-Untouched (tmp_path path) (take k []) d (OnlyOn-take (tmp_path path) k [] tt) q
            ne))
  | inl (bytes, t) ↦ elim (save_bytes-Ends path bytes f) [
    | inl only ↦
        rw (t, save)
          (inl (
            apply_ops-Untouched (tmp_path path) _ d
              (OnlyOn-take (tmp_path path) k (save_bytes path bytes f).0 only.0) q ne))
    | inr done ↦
        rw (t, save, done.0)
          (elim (complete_prefix path bytes d k q ne) [
            | inl old ↦ inl old
            | inr whole ↦ inr (whole.0, (bytes, refl, whole.1))
          ])
  ]
]
