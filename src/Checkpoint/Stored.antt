-- ===== src/Checkpoint/Stored.antt =====
-- src/downloader.rs, src/state.rs: what the state on the disk names of the data file, at any
-- moment of a save.
use fast_downloader.Prelude.{ℕ, ◌≡◌, inl, inr, sym, ◌∙◌, subst, some, List, [], ◌∷◌, arith, take}
use fast_downloader.Error.{ok, err, ok-injective, Result-cases}
use fast_downloader.State.{WorkerRange, DownloadState, validate}
use fast_downloader.State.Partition.{Tiles}
use fast_downloader.Store.{Codec, Disk, SaveFaults, apply_ops, load_from, load}
use fast_downloader.Store.Atomic.{save-atomic, tmp_path-ne}
use fast_downloader.Store.Reload.{IsCodec}
use fast_downloader.Transfer.Safety.{Holds}
use fast_downloader.Transfer.Bytes.{Improves}
use fast_downloader.Checkpoint.{
  Saver, Checkpoint, waiting, taken, synced, saving, save_ops, disk_at, Happening, syncs,
}

-- What is loaded of a state that was stored is the state itself.
loaded_state :
    (c : Codec) (s t : DownloadState) (bytes : List ℕ)
    → IsCodec c
    → c.to_vec s ≡ ok bytes
    → load_from c (some bytes) ≡ ok t
    → t ≡ s
unfolding load_from
loaded_state c s t bytes law e loaded = elim (Result-cases (validate s)) [
  | inl (u, valid) ↦
      let stored : load_from c (some bytes) ≡ ok s = rw (law.reads_back s bytes e, valid) in
      ok-injective (sym loaded ∙ stored)
  | inr (x, bad) ↦
      let failed : load_from c (some bytes) ≡ err x = rw (law.reads_back s bytes e, bad) in
      absurd (ground (arith, failed))
]

module _ (content : ℕ → ℕ) (size : ℕ) (v : Saver) where
  -- A sync that follows a snapshot leaves all of the file.
  abbrev pub LeavesAll : (ℕ → ℕ) → (ℕ → ℕ) → Checkpoint → Type 0
  LeavesAll cache file (taken s) = Improves content cache file
  LeavesAll cache file _ = Unit

  abbrev pub SyncLeaves : (ℕ → ℕ) → (ℕ → ℕ) → Checkpoint → Happening → Type 0
  SyncLeaves cache file c (syncs r) = LeavesAll cache file c
  SyncLeaves cache file c _ = Unit

  -- The state's ranges tile the file, and name only what `file` holds of the resource.
  abbrev pub Names : (ℕ → ℕ) → DownloadState → Type 0
  Names file s = Tiles 0 size s.workers × Holds content file s.workers

  -- Whatever state the disk has for the download names only what `file` holds.
  abbrev pub Stores : (ℕ → ℕ) → Disk → Type 0
  Stores file d = (s : DownloadState) → load v.codec d v.path ≡ ok s → Names file s

  pub Holds-Improves :
      (file other : ℕ → ℕ) (ws : List WorkerRange)
      → Improves content file other
      → Holds content file ws
      → Holds content other ws
  Holds-Improves file other [] up h = tt
  Holds-Improves file other (w ∷ ws) up h =
      ((λ q l m. up q (h.0 q l m)), Holds-Improves file other ws up h.1)

  -- What the checkpoint under way knows of its snapshot.
  abbrev pub Knows : (ℕ → ℕ) → (ℕ → ℕ) → Checkpoint → Type 0
  Knows cache file waiting = Unit
  Knows cache file (taken s) = Names cache s
  Knows cache file (synced s) = Names file s
  Knows cache file (saving s f k) = Names file s

  -- A crash at any moment of a save leaves the old state or the new one.
  save-Stores :
      (file : ℕ → ℕ) (d : Disk) (s : DownloadState) (f : SaveFaults) (k : ℕ)
      → IsCodec v.codec
      → Names file s
      → Stores file d
      → Stores file (apply_ops (take k (save_ops v s f)) d)
  unfolding save_ops load
  save-Stores file d s f k law names old s' e =
      elim (save-atomic v.codec v.path s f d k v.path (tmp_path-ne v.path)) [
        | inl same ↦ old s' (subst (λ o. load_from v.codec o ≡ ok s') same e)
        | inr (here, (bytes, t, new)) ↦
            subst (Names file)
              (sym (
                loaded_state v.codec s s' bytes law t
                  (subst (λ o. load_from v.codec o ≡ ok s') new e)))
              names
      ]

  pub disk_at-Stores :
      (cache file : ℕ → ℕ) (d : Disk) (c : Checkpoint)
      → IsCodec v.codec
      → Knows cache file c
      → Stores file d
      → Stores file (disk_at v d c)
  unfolding disk_at
  disk_at-Stores cache file d waiting law k old = old
  disk_at-Stores cache file d (taken s) law k old = old
  disk_at-Stores cache file d (synced s) law k old = old
  disk_at-Stores cache file d (saving s f n) law k old = save-Stores file d s f n law k old

  pub Names-Improves :
      (file other : ℕ → ℕ) (s : DownloadState)
      → Improves content file other
      → Names file s
      → Names other s
  Names-Improves file other s up (tiles, holds) =
      (tiles, Holds-Improves file other s.workers up holds)

  pub Knows-Improves :
      (cache cache' file file' : ℕ → ℕ) (c : Checkpoint)
      → Improves content cache cache'
      → Improves content file file'
      → Knows cache file c
      → Knows cache' file' c
  Knows-Improves cache cache' file file' waiting up up' k = tt
  Knows-Improves cache cache' file file' (taken s) up up' k = Names-Improves cache cache' s up k
  Knows-Improves cache cache' file file' (synced s) up up' k = Names-Improves file file' s up' k
  Knows-Improves cache cache' file file' (saving s f n) up up' k = Names-Improves file file' s up' k
