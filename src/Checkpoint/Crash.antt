-- ===== src/Checkpoint/Crash.antt =====
-- src/downloader.rs, src/state.rs: what is left when the process is killed or the power is lost
-- at any moment of a transfer, and what the next run makes of it.
use fast_downloader.Prelude.{
  ℕ, ◌≤◌, ◌≡◌, inl, inr, Bool, true, false, List, [], ◌∷◌, All, arith, Bool-cases,
}
use fast_downloader.Error.{Result, ok, err}
use fast_downloader.Store.Reload.{IsCodec}
use fast_downloader.Worker.Trace.{max_slice}
use fast_downloader.Transfer.Bytes.{Improves}
use fast_downloader.Checkpoint.{
  Saver, Checkpoint, waiting, taken, synced, saving, Saving, take_snapshot, sync_data,
  synced_medium, begin_save, next_op, carry_out, write_back, Happening, works, ticks, syncs, saves,
  operates, carries_out, writes_back, happen, happen_all,
}
use fast_downloader.Checkpoint.Stored.{LeavesAll}
use fast_downloader.Checkpoint.Invariant.{Inv, Quiet, carried_out-Improves, happen-Inv}

-- A sync that is called succeeds, of the data file or of the state to be saved.
abbrev pub Succeeds : Happening → Type 0
Succeeds (syncs r) = r ≡ ok tt
Succeeds (saves f) = f.synced ≡ ok tt
Succeeds _ = Unit

module _ (content : ℕ → ℕ) (size : ℕ) (v : Saver) where
  -- The invariant for the medium, on which nothing is right that the file has wrong.
  pub record Durable (w : Saving) : Type 0 where
    pub inv : Inv content size v w.medium w
    pub behind : Improves content w.medium w.shown

  pub synced-Improves :
      (b : Bool) (r : Result (Unit {0})) (file medium : ℕ → ℕ) (c : Checkpoint)
      → Improves content medium file
      → Improves content medium (synced_medium b r file medium c)
        × Improves content (synced_medium b r file medium c) file
  unfolding synced_medium
  synced-Improves true (ok _) file medium (taken s) up = (up, λ q h. h)
  synced-Improves true (ok _) file medium waiting up = ((λ q h. h), up)
  synced-Improves true (ok _) file medium (synced s) up = ((λ q h. h), up)
  synced-Improves true (ok _) file medium (saving s f k) up = ((λ q h. h), up)
  synced-Improves true (err e) file medium c up = ((λ q h. h), up)
  synced-Improves false r file medium c up = ((λ q h. h), up)

  synced-LeavesAll :
      (b : Bool) (r : Result (Unit {0})) (file medium : ℕ → ℕ) (c : Checkpoint)
      → b ≡ true
      → r ≡ ok tt
      → LeavesAll content size v file (synced_medium b r file medium c) c
  unfolding synced_medium
  synced-LeavesAll true (ok _) file medium waiting b e = tt
  synced-LeavesAll true (ok _) file medium (taken s) b e = λ q h. h
  synced-LeavesAll true (ok _) file medium (synced s) b e = tt
  synced-LeavesAll true (ok _) file medium (saving s f k) b e = tt
  synced-LeavesAll true (err x) file medium c b e = absurd (ground (arith, e))
  synced-LeavesAll false r file medium c b e = absurd (ground (arith, b))

  pub written_back-Improves :
      (chosen : ℕ → Bool) (w : Saving)
      → Improves content w.medium w.shown
      → Improves content w.medium (write_back chosen w).medium
        × Improves content (write_back chosen w).medium w.shown
  unfolding write_back
  written_back-Improves chosen w up = (
    (λ q h. elim (Bool-cases (chosen q)) [ inl e ↦ rw e (up q h) | inr e ↦ rw e h ]),
    (λ q h. elim (Bool-cases (chosen q)) [ inl e ↦ rw e at h | inr e ↦ up q (rw e at h) ]),
  )

  pub happen-Durable :
      (e : Happening) (w : Saving)
      → IsCodec v.codec
      → size ≤ max_slice
      → v.has_sync_file ≡ true
      → Quiet content size v e w
      → Succeeds e
      → Durable w
      → Durable (happen v e w)
  unfolding happen take_snapshot sync_data begin_save next_op carry_out write_back
  happen-Durable (works i) w law bound has quiet good d = record {
    inv =
        happen-Inv content size v w.medium w.medium (works i) w law bound (λ q h. h) quiet tt d.inv;
    behind = d.behind;
  }
  happen-Durable ticks w law bound has quiet good d = record {
    inv = happen-Inv content size v w.medium w.medium ticks w law bound (λ q h. h) quiet tt d.inv;
    behind = d.behind;
  }
  happen-Durable (syncs r) w law bound has quiet good d =
      let (up, still) = synced-Improves v.has_sync_file r w.shown w.medium w.checkpoint d.behind in
      record {
        inv =
            happen-Inv content size v w.medium _ (syncs r) w law bound up quiet
              (synced-LeavesAll v.has_sync_file r w.shown w.medium w.checkpoint has good) d.inv;
        behind = still;
      }
  happen-Durable (saves f) w law bound has quiet good d = record {
    inv =
        happen-Inv content size v w.medium w.medium (saves f) w law bound (λ q h. h) quiet tt d.inv;
    behind = d.behind;
  }
  happen-Durable operates w law bound has quiet good d = record {
    inv =
        happen-Inv content size v w.medium w.medium operates w law bound (λ q h. h) quiet tt d.inv;
    behind = d.behind;
  }
  happen-Durable (carries_out chosen) w law bound has quiet good d =
      let (better, still) = carried_out-Improves content size v chosen w d.inv.shows in
      record {
        inv =
            happen-Inv content size v w.medium w.medium (carries_out chosen) w law bound (λ q h. h)
              quiet tt d.inv;
        behind = λ q h. better q (d.behind q h);
      }
  happen-Durable (writes_back chosen) w law bound has quiet good d =
      let (up, still) = written_back-Improves chosen w d.behind in
      record {
        inv =
            happen-Inv content size v w.medium _ (writes_back chosen) w law bound up quiet tt d.inv;
        behind = still;
      }

  -- No write is under way at any snapshot of the run.
  abbrev pub AllQuiet : List Happening → Saving → Type 0
  AllQuiet [] w = Unit
  AllQuiet (e ∷ es) w = Quiet content size v e w × AllQuiet es (happen v e w)

  pub happen_all-Durable :
      (es : List Happening) (w : Saving)
      → IsCodec v.codec
      → size ≤ max_slice
      → v.has_sync_file ≡ true
      → AllQuiet es w
      → All Succeeds es
      → Durable w
      → Durable (happen_all v es w)
  unfolding happen_all
  happen_all-Durable [] w law bound has quiet good d = d
  happen_all-Durable (e ∷ es) w law bound has quiet good d =
      happen_all-Durable es (happen v e w) law bound has quiet.1 good.1
        (happen-Durable e w law bound has quiet.0 good.0 d)

  leaves_itself : (file : ℕ → ℕ) (c : Checkpoint) → LeavesAll content size v file file c
  leaves_itself file waiting = tt
  leaves_itself file (taken s) = λ q h. h
  leaves_itself file (synced s) = tt
  leaves_itself file (saving s f k) = tt

  -- What the system shows of the file outlives the process.
  happen-killed :
      (e : Happening) (w : Saving)
      → IsCodec v.codec
      → size ≤ max_slice
      → Quiet content size v e w
      → Inv content size v w.shown w
      → Inv content size v (happen v e w).shown (happen v e w)
  unfolding happen take_snapshot sync_data begin_save next_op carry_out write_back
  happen-killed (works i) w law bound quiet inv =
      happen-Inv content size v w.shown _ (works i) w law bound (λ q h. h) quiet tt inv
  happen-killed ticks w law bound quiet inv =
      happen-Inv content size v w.shown _ ticks w law bound (λ q h. h) quiet tt inv
  happen-killed (syncs r) w law bound quiet inv =
      happen-Inv content size v w.shown _ (syncs r) w law bound (λ q h. h) quiet
        (leaves_itself w.shown w.checkpoint) inv
  happen-killed (saves f) w law bound quiet inv =
      happen-Inv content size v w.shown _ (saves f) w law bound (λ q h. h) quiet tt inv
  happen-killed operates w law bound quiet inv =
      happen-Inv content size v w.shown _ operates w law bound (λ q h. h) quiet tt inv
  happen-killed (carries_out chosen) w law bound quiet inv =
      happen-Inv content size v w.shown _ (carries_out chosen) w law bound
        (carried_out-Improves content size v chosen w inv.shows).0 quiet tt inv
  happen-killed (writes_back chosen) w law bound quiet inv =
      happen-Inv content size v w.shown _ (writes_back chosen) w law bound (λ q h. h) quiet tt inv

  pub happen_all-killed :
      (es : List Happening) (w : Saving)
      → IsCodec v.codec
      → size ≤ max_slice
      → AllQuiet es w
      → Inv content size v w.shown w
      → Inv content size v (happen_all v es w).shown (happen_all v es w)
  unfolding happen_all
  happen_all-killed [] w law bound quiet inv = inv
  happen_all-killed (e ∷ es) w law bound quiet inv =
      happen_all-killed es (happen v e w) law bound quiet.1
        (happen-killed e w law bound quiet.0 inv)
