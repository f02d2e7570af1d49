-- ===== src/Checkpoint/Left.antt =====
-- src/state.rs: what a power loss leaves of the state file, beside what it leaves of the data file.
use fast_downloader.Prelude.{ℕ, ◌≤◌, ◌≡◌, ◌≢◌, true, List, [], ◌∷◌, All, subst}
use fast_downloader.Error.{ok}
use fast_downloader.Store.{Disk, SaveFaults, load}
use fast_downloader.Store.Reload.{IsCodec}
use fast_downloader.Worker.Trace.{max_slice}
use fast_downloader.Transfer.Bytes.{Improves}
use fast_downloader.Checkpoint.{
  Saver, Saving, disk_now, Happening, works, ticks, syncs, saves, operates, carries_out,
  writes_back, happen, happen_all, take_snapshot, sync_data, begin_save, next_op, carry_out,
  write_back,
}
use fast_downloader.Checkpoint.Stored.{Stores, Names-Improves}
use fast_downloader.Checkpoint.Invariant.{crash-Stores}
use fast_downloader.Checkpoint.Crash.{
  Succeeds, Durable, AllQuiet, synced-Improves, written_back-Improves, happen-Durable,
}

-- The state file is as it was at the loss or at any moment before: a rename need not be on the
-- medium yet. Where a `sync_all` of a save failed, the file that was renamed may hold anything.
pub data Left (v : Saver) (d : Disk) : Saving → List Happening → Type 0 where
  now : {w : Saving} {es : List Happening} → d ≡ disk_now v w → Left v d w es
  later :
      {w : Saving} {e : Happening} {es : List Happening}
      → Left v d (happen v e w) es
      → Left v d w (e ∷ es)
  unsynced :
      {w : Saving} {f : SaveFaults} {es : List Happening}
      → f.synced ≢ ok tt
      → Left v d w (saves f ∷ es)

module _ (content : ℕ → ℕ) (size : ℕ) (v : Saver) where
  -- No byte that is right on the medium is spoiled.
  happen-Improves :
      (e : Happening) (w : Saving)
      → Improves content w.medium w.shown
      → Improves content w.medium (happen v e w).medium
  unfolding happen take_snapshot sync_data begin_save next_op carry_out write_back
  happen-Improves (works i) w up = λ q h. h
  happen-Improves ticks w up = λ q h. h
  happen-Improves (syncs r) w up =
      (synced-Improves content size v v.has_sync_file r w.shown w.medium w.checkpoint up).0
  happen-Improves (saves f) w up = λ q h. h
  happen-Improves operates w up = λ q h. h
  happen-Improves (carries_out chosen) w up = λ q h. h
  happen-Improves (writes_back chosen) w up = (written_back-Improves content size v chosen w up).0

  module _ (law : IsCodec v.codec) (bound : size ≤ max_slice) (has : v.has_sync_file ≡ true) where
    happen_all-Improves :
        (es : List Happening) (w : Saving)
        → AllQuiet content size v es w
        → All Succeeds es
        → Durable content size v w
        → Improves content w.medium (happen_all v es w).medium
    unfolding happen_all
    happen_all-Improves [] w quiet good d = λ q h. h
    happen_all-Improves (e ∷ es) w quiet good d = λ q h.
        happen_all-Improves es (happen v e w) quiet.1 good.1
          (happen-Durable content size v e w law bound has quiet.0 good.0 d) q
          (happen-Improves e w d.behind q h)

    -- With every sync done, the state file that is left names no byte that the medium lacks.
    pub Left-Stores :
        (d : Disk) (es : List Happening) (w : Saving)
        → AllQuiet content size v es w
        → All Succeeds es
        → Durable content size v w
        → Left v d w es
        → Stores content size v (happen_all v es w).medium d
    unfolding happen_all
    Left-Stores d es w quiet good dur (now e) s loaded =
        Names-Improves content size v w.medium (happen_all v es w).medium s
          (happen_all-Improves es w quiet good dur)
          (crash-Stores content size v w law dur.inv s
            (subst (λ x. load v.codec x v.path ≡ ok s) e loaded))
    Left-Stores d (x ∷ es) w quiet good dur (later left) s loaded =
        Left-Stores d es (happen v x w) quiet.1 good.1
          (happen-Durable content size v x w law bound has quiet.0 good.0 dur) left s loaded
    Left-Stores d (saves f ∷ es) w quiet good dur (unsynced lost) s loaded = absurd (lost good.0)
