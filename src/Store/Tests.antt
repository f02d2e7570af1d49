-- ===== src/Store/Tests.antt =====
-- The theorems on the state file at a codec that writes a state as its numbers.
use fast_downloader.Prelude.{ℕ, ◌≡◌, ◌⊎◌, refl, none, some, List, [], ◌∷◌, take}
use fast_downloader.Prelude.Text.{codes}
use fast_downloader.Error.{ok, err, io}
use fast_downloader.State.{DownloadState, new, validate, validate_workers}
use fast_downloader.Store.{Disk, SaveFaults, save, save_bytes, load, load_from, apply_ops}
use fast_downloader.Store.Numbers.{written, read, numbers, numbers-IsCodec}
use fast_downloader.Store.Atomic.{save-atomic, tmp_path-ne}
use fast_downloader.Store.Reload.{load-save}

abbrev half : DownloadState
half = new (codes "u") 10 (record { start = 0; current = 5; end = 10 } ∷ [])

abbrev no_faults : SaveFaults
no_faults = record {
  created = ok tt;
  write_failure = none;
  flushed = ok tt;
  synced = ok tt;
  renamed = ok tt;
}

-- The disk is full after two bytes.
abbrev full_disk : SaveFaults
full_disk = record no_faults { write_failure = some (2, io (codes "full")) }

abbrev empty_disk : Disk
empty_disk p = none

half-validate : validate half ≡ ok tt
unfolding validate validate_workers new
half-validate = refl

half_saved : (save numbers (codes "s") half no_faults).1 ≡ ok tt
unfolding save save_bytes written new
half_saved = refl

half_lost : (save numbers (codes "s") half full_disk).1 ≡ err (io (codes "full"))
unfolding save save_bytes written new
half_lost = refl

-- A crash in the midst of the write.
save-atomic_example :
    (apply_ops (take 4 (save numbers (codes "s") half no_faults).0) empty_disk (codes "s")
      ≡ empty_disk (codes "s"))
    ⊎ ((codes "s" ≡ codes "s")
        × ((bytes : List ℕ) × (numbers.to_vec half ≡ ok bytes)
            × (apply_ops (take 4 (save numbers (codes "s") half no_faults).0) empty_disk (codes "s")
                ≡ some bytes)))
save-atomic_example =
    save-atomic numbers (codes "s") half no_faults empty_disk 4 (codes "s")
      (tmp_path-ne (codes "s"))

load-save_example :
    load numbers (apply_ops (save numbers (codes "s") half no_faults).0 empty_disk) (codes "s")
    ≡ ok half
load-save_example =
    load-save numbers (codes "s") half no_faults empty_disk numbers-IsCodec half-validate half_saved

-- The disk with that state on it.
abbrev half_disk : Disk
half_disk p = some (2 ∷ 10 ∷ 0 ∷ 5 ∷ 10 ∷ codes "u")

half_loads : load numbers half_disk (codes "s") ≡ ok half
unfolding load load_from read validate validate_workers new
half_loads = refl
