-- ===== src/Checkpoint/Invariant.antt =====
-- src/downloader.rs, src/state.rs: what holds of the two tasks at any moment, for what a crash
-- leaves of the data file: the state on the disk names no byte that it lacks.
use fast_downloader.Prelude.{ℕ, ◌≤◌, ◌≡◌, inl, inr, arith, length, ltb, Bool-cases, ◌∙◌, Bool}
use fast_downloader.Store.{Disk, SaveFaults}
use fast_downloader.Store.Reload.{IsCodec}
use fast_downloader.Worker.Trace.{max_slice}
use fast_downloader.Transfer.{Transfer, snapshot}
use fast_downloader.Transfer.Steps.{IsSound, step-IsSound}
use fast_downloader.Transfer.Safety.{snapshot-Tiles}
use fast_downloader.Transfer.Bytes.{Improves, step-Improves}
use fast_downloader.Checkpoint.{
  Saver, Checkpoint, waiting, taken, synced, saving, Saving, save_ops, disk_now, take_snapshot,
  sync_data, sync_done, snapshot_taken, save_begun, op_done, disk_after, begin_save, next_op,
  Happening, works, ticks, syncs, saves, operates, writes_back, happen, carry_out, carries_out,
}
use fast_downloader.Checkpoint.Stored.{
  LeavesAll, SyncLeaves, Stores, Knows, Names-Improves, disk_at-Stores, Knows-Improves,
}

module _ (content : ℕ → ℕ) (size : ℕ) (v : Saver) where
  -- The invariant, for what is left of the data file in a crash.
  pub record Inv (file : ℕ → ℕ) (w : Saving) : Type 0 where
    pub sound : IsSound content size w.transfer
    pub shows : Improves content w.shown w.transfer.handed
    pub knows : Knows content size v w.shown file w.checkpoint
    pub stores : Stores content size v file w.disk

  pub crash-Stores :
      {file : ℕ → ℕ} (w : Saving)
      → IsCodec v.codec
      → Inv file w
      → Stores content size v file (disk_now v w)
  unfolding disk_now
  crash-Stores {file} w law inv =
      disk_at-Stores content size v w.shown file w.disk w.checkpoint law inv.knows inv.stores

  Inv-Improves :
      (file file' : ℕ → ℕ) (w : Saving) → Improves content file file' → Inv file w → Inv file' w
  Inv-Improves file file' w up inv = record {
    sound = inv.sound;
    shows = inv.shows;
    knows =
        Knows-Improves content size v w.shown w.shown file file' w.checkpoint (λ q h. h) up
          inv.knows;
    stores = λ s e. Names-Improves content size v file file' s up (inv.stores s e);
  }

  -- A state of the two tasks, field by field.
  abbrev at_checkpoint : Transfer → (ℕ → ℕ) → (ℕ → ℕ) → Disk → Checkpoint → Saving
  at_checkpoint t sh m d c = record {
    transfer = t;
    shown = sh;
    medium = m;
    disk = d;
    checkpoint = c;
  }

  take_snapshot-Inv :
      (file : ℕ → ℕ) (t : Transfer) (sh m : ℕ → ℕ) (d : Disk) (c : Checkpoint)
      → Improves content t.handed sh
      → Inv file (at_checkpoint t sh m d c)
      → Inv file (take_snapshot v (at_checkpoint t sh m d c))
  unfolding take_snapshot snapshot_taken
  take_snapshot-Inv file t sh m d waiting quiet inv = record {
    sound = inv.sound;
    shows = inv.shows;
    knows =
        Names-Improves content size v t.handed sh
          (snapshot v.url v.file_size v.etag v.last_modified t) quiet
          (snapshot-Tiles content size v.url v.file_size v.etag v.last_modified t inv.sound);
    stores = inv.stores;
  }
  take_snapshot-Inv file t sh m d (taken s) quiet inv = inv
  take_snapshot-Inv file t sh m d (synced s) quiet inv = inv
  take_snapshot-Inv file t sh m d (saving s f n) quiet inv = inv

  sync_done-Inv :
      (file : ℕ → ℕ) (t : Transfer) (sh m m' : ℕ → ℕ) (d : Disk) (c : Checkpoint)
      → LeavesAll content size v sh file c
      → Inv file (at_checkpoint t sh m d c)
      → Inv file (at_checkpoint t sh m' d (sync_done c))
  unfolding sync_done
  sync_done-Inv file t sh m m' d waiting all inv = record {
    sound = inv.sound;
    shows = inv.shows;
    knows = tt;
    stores = inv.stores;
  }
  sync_done-Inv file t sh m m' d (taken s) all inv = record {
    sound = inv.sound;
    shows = inv.shows;
    knows = Names-Improves content size v sh file s all inv.knows;
    stores = inv.stores;
  }
  sync_done-Inv file t sh m m' d (synced s) all inv = record {
    sound = inv.sound;
    shows = inv.shows;
    knows = inv.knows;
    stores = inv.stores;
  }
  sync_done-Inv file t sh m m' d (saving s f n) all inv = record {
    sound = inv.sound;
    shows = inv.shows;
    knows = inv.knows;
    stores = inv.stores;
  }

  begin_save-Inv :
      (file : ℕ → ℕ) (f : SaveFaults) (t : Transfer) (sh m : ℕ → ℕ) (d : Disk) (c : Checkpoint)
      → Inv file (at_checkpoint t sh m d c)
      → Inv file (begin_save f (at_checkpoint t sh m d c))
  unfolding begin_save save_begun
  begin_save-Inv file f t sh m d waiting inv = inv
  begin_save-Inv file f t sh m d (taken s) inv = inv
  begin_save-Inv file f t sh m d (synced s) inv = record {
    sound = inv.sound;
    shows = inv.shows;
    knows = inv.knows;
    stores = inv.stores;
  }
  begin_save-Inv file f t sh m d (saving s g n) inv = inv

  next_op-Inv :
      (file : ℕ → ℕ) (t : Transfer) (sh m : ℕ → ℕ) (d : Disk) (c : Checkpoint)
      → IsCodec v.codec
      → Inv file (at_checkpoint t sh m d c)
      → Inv file (next_op v (at_checkpoint t sh m d c))
  unfolding next_op op_done disk_after
  next_op-Inv file t sh m d waiting law inv = inv
  next_op-Inv file t sh m d (taken s) law inv = inv
  next_op-Inv file t sh m d (synced s) law inv = inv
  next_op-Inv file t sh m d (saving s f n) law inv =
      elim (Bool-cases (ltb n (length (save_ops v s f)))) [
        | inl go ↦ rw go (record {
          sound = inv.sound;
          shows = inv.shows;
          knows = inv.knows;
          stores = inv.stores;
        })
        | inr done ↦ rw done (record {
          sound = inv.sound;
          shows = inv.shows;
          knows = tt;
          stores = disk_at-Stores content size v sh file d (saving s f n) law inv.knows inv.stores;
        })
      ]

  -- Where a snapshot is taken, the system shows all that was handed over: no write is under way.
  abbrev pub Quiet : Happening → Saving → Type 0
  Quiet ticks w = (q : ℕ) → w.shown q ≡ w.transfer.handed q
  Quiet _ w = Unit

  pub carried_out-Improves :
      (chosen : ℕ → Bool) (w : Saving)
      → Improves content w.shown w.transfer.handed
      → Improves content w.shown (carry_out chosen w).shown
        × Improves content (carry_out chosen w).shown w.transfer.handed
  unfolding carry_out
  carried_out-Improves chosen w up = (
    (λ q h. elim (Bool-cases (chosen q)) [ inl e ↦ rw e (up q h) | inr e ↦ rw e h ]),
    (λ q h. elim (Bool-cases (chosen q)) [ inl e ↦ rw e at h | inr e ↦ up q (rw e at h) ]),
  )

  -- A happening keeps the invariant, where what is left of the file only gets better, and where a
  -- sync leaves all of the file.
  pub happen-Inv :
      (file file' : ℕ → ℕ) (e : Happening) (w : Saving)
      → IsCodec v.codec
      → size ≤ max_slice
      → Improves content file file'
      → Quiet e w
      → SyncLeaves content size v w.shown file' w.checkpoint e
      → Inv file w
      → Inv file' (happen v e w)
  unfolding happen sync_data carry_out
  happen-Inv file file' (works i) w law bound up quiet left inv =
      let next = Inv-Improves file file' w up inv in
      record {
        sound = step-IsSound content size w.transfer i (omega arith) inv.sound;
        shows = λ q h. step-Improves content size w.transfer i inv.sound q (inv.shows q h);
        knows = next.knows;
        stores = next.stores;
      }
  happen-Inv file file' ticks w law bound up quiet left inv =
      take_snapshot-Inv file' w.transfer w.shown w.medium w.disk w.checkpoint (λ q h. quiet q ∙ h)
        (Inv-Improves file file' w up inv)
  happen-Inv file file' (syncs r) w law bound up quiet left inv =
      sync_done-Inv file' w.transfer w.shown w.medium _ w.disk w.checkpoint left
        (Inv-Improves file file' w up inv)
  happen-Inv file file' (saves f) w law bound up quiet left inv =
      begin_save-Inv file' f w.transfer w.shown w.medium w.disk w.checkpoint
        (Inv-Improves file file' w up inv)
  happen-Inv file file' operates w law bound up quiet left inv =
      next_op-Inv file' w.transfer w.shown w.medium w.disk w.checkpoint law
        (Inv-Improves file file' w up inv)
  happen-Inv file file' (carries_out chosen) w law bound up quiet left inv =
      let next = Inv-Improves file file' w up inv in
      let (better, still) = carried_out-Improves chosen w inv.shows in
      record {
        sound = next.sound;
        shows = still;
        knows =
            Knows-Improves content size v w.shown (carry_out chosen w).shown file' file'
              w.checkpoint better (λ q h. h) next.knows;
        stores = next.stores;
      }
  happen-Inv file file' (writes_back chosen) w law bound up quiet left inv =
      let next = Inv-Improves file file' w up inv in
      record { sound = next.sound; shows = next.shows; knows = next.knows; stores = next.stores }
