-- ===== src/Queue/Deadlock.antt =====
-- src/queue.rs: the queue never stands still with work left.
use fast_downloader.Prelude.{
  ℕ, ◌<◌, ◌≡◌, ◌⊎◌, inl, inr, refl, sym, ap, true, List, [], ◌∷◌, length, ltb, Bool-cases, arith,
}
use fast_downloader.Checksum.{Hashes}
use fast_downloader.Config.{DownloaderConfig, DownloadTask}
use fast_downloader.Queue.{
  Stage, absent, entering, sending, in_channel, waiting, running, answered, finished, rejected,
  lost, panicked, Job, QueueMsg, DownloadQueue, register, send, reject, in_messages, dispatch,
  acquire, leave, Circumstances,
}
use fast_downloader.Queue.Family.{total-positive}
use fast_downloader.Queue.Steps.{
  Internal, registers, sends, rejects, receives, acquires, leaves, Reach,
}
use fast_downloader.Queue.Invariant.{Inv, holds}
use fast_downloader.Queue.Reachable.{Reach-Inv}

-- The steps that a submission has yet to take at most.
abbrev pub steps_left : Job → ℕ
steps_left j = elim j.stage [
  | entering ↦ 6
  | sending ↦ 5
  | in_channel ↦ 4
  | waiting ↦ 3
  | running ↦ 2
  | answered has_permit ↦ 1
  | _ ↦ 0
]

List-cases :
    (c : List QueueMsg) → (c ≡ []) ⊎ ((m : QueueMsg) × (rest : List QueueMsg) × (c ≡ m ∷ rest))
List-cases [] = inl refl
List-cases (m ∷ rest) = inr (m, rest, refl)

in_messages-length : (t : ℕ) (c : List QueueMsg) → 0 < in_messages t c → 0 < length c
unfolding in_messages
in_messages-length t [] h = h
in_messages-length t (m ∷ c) h = omega arith

holder : (j : Job) → 0 < holds j → (j.stage ≡ running) ⊎ (j.stage ≡ answered true)
holder j h =
    elim j.stage as (λ s. s ≡ j.stage → (j.stage ≡ running) ⊎ (j.stage ≡ answered true)) [
      | running ↦ λ e. inl (sym e)
      | answered has_permit ↦ λ e. inr (ground (arith, e, h))
      | _ ↦ λ e. absurd (ground (arith, e))
    ]
      refl

module _ {mc qc : ℕ} {q : DownloadQueue} (inv : Inv mc qc q) where
  -- Something can be done without a client.
  abbrev pub Moves : Type 0
  Moves = ((r : DownloadQueue) × Internal q r) ⊎ ((i : ℕ) × ((q.jobs i).stage ≡ running))

  can_receive : q.receiving ≡ true → 0 < length q.channel → Moves
  can_receive receiving some_ = elim (List-cases q.channel) [
    | inl e ↦ absurd (ground (arith, e))
    | inr (m, rest, e) ↦ inl (dispatch m rest q, receives m rest receiving e)
  ]

  can_receive_unread : (t : ℕ) → (q.jobs t).stage ≡ in_channel → Moves
  unfolding in_messages
  can_receive_unread t at = elim (Bool-cases q.receiving) [
    | inl receiving ↦
        can_receive receiving
          (in_messages-length t q.channel (ground (arith, at, inv.in_channel_once t)))
    | inr gone ↦
        absurd (ground (arith, at, inv.in_channel_once t, ap (in_messages t) (inv.closed gone)))
  ]

  can_send : (t : ℕ) → (q.jobs t).stage ≡ sending → Moves
  can_send t at = elim (Bool-cases q.receiving) [
    | inl receiving ↦ elim (Bool-cases (ltb (length q.channel) q.capacity)) [
      | inl has_room ↦ inl (send t q, sends t at receiving (ground arith))
      | inr full ↦ can_receive receiving (ground (arith, inv.capacity))
    ]
    | inr gone ↦ inl (reject t q, rejects t at gone)
  ]

  can_leave : (t : ℕ) → 0 < holds (q.jobs t) → Moves
  can_leave t held = elim (holder (q.jobs t) held) [
    | inl at ↦ inr (t, at)
    | inr at ↦ inl (leave t true q, leaves t true at)
  ]

  can_acquire : (t : ℕ) → (q.jobs t).stage ≡ waiting → Moves
  can_acquire t at = elim (Bool-cases (ltb 0 q.permits)) [
    | inl has_permit ↦ inl (acquire t q, acquires t at inv.is_open (ground arith))
    | inr full ↦
        let (i, below, held) = total-positive holds q.created q.jobs (ground (arith, inv.slots)) in
        can_leave i held
  ]

  -- While a submission has steps left, one of the queue's own steps can be taken, or a download
  -- runs.
  can_step : (t : ℕ) (s : Stage) → (q.jobs t).stage ≡ s → 0 < steps_left (q.jobs t) → Moves
  can_step t absent at left = absurd (ground (arith, at))
  can_step t entering at left = inl (register t q, registers t at)
  can_step t sending at left = can_send t at
  can_step t in_channel at left = can_receive_unread t at
  can_step t waiting at left = can_acquire t at
  can_step t running at left = inr (t, at)
  can_step t (answered has_permit) at left = inl (leave t has_permit q, leaves t has_permit at)
  can_step t finished at left = absurd (ground (arith, at))
  can_step t rejected at left = absurd (ground (arith, at))
  can_step t lost at left = absurd (ground (arith, at))
  can_step t panicked at left = absurd (ground (arith, at))

-- No deadlock: in a state that the queue reaches, as long as a submission has not ended, a step
-- of the queue itself can be taken or a download is running.
pub no_deadlock :
    {cfg : DownloaderConfig} {h : Hashes} {Meets : Circumstances} {Allowed : DownloadTask → Type 0}
    {max_concurrent queue_capacity : ℕ} {q : DownloadQueue}
    → Reach cfg h Meets Allowed max_concurrent queue_capacity q
    → (t : ℕ) → 0 < steps_left (q.jobs t)
    → ((r : DownloadQueue) × Internal q r) ⊎ ((i : ℕ) × ((q.jobs i).stage ≡ running))
no_deadlock {q = q} r t left = can_step (Reach-Inv r) t (q.jobs t).stage refl left
