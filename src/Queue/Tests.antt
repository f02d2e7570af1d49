-- ===== src/Queue/Tests.antt =====
-- A queue with one slot and room for two messages: two submissions, the second cancelled as it
-- waits.
use fast_downloader.Prelude.{
  ℕ, ◌+◌, ◌*◌, ◌≤◌, ◌≡◌, ◌⊎◌, inl, inr, refl, true, false, none, some, [], ◌∷◌, length, arith,
  if◌then◌else◌,
}
use fast_downloader.Prelude.Text.{codes}
use fast_downloader.Prelude.Words.{add_u64}
use fast_downloader.Error.{cancelled, task_not_found, ok, err}
use fast_downloader.Checksum.{Digest, Hashes}
use fast_downloader.Config.{DownloaderConfig, default_config, DownloadTask}
use fast_downloader.Queue.{
  Circumstances, running, panicked, submitted, DownloadQueue, new, enter, register, send, dispatch,
  acquire, give_up, unwind, leave, remove, insert, get,
}
use fast_downloader.Queue.Calls.{cancel, cancel_token, cancel_all}
use fast_downloader.Queue.Family.{total}
use fast_downloader.Queue.Steps.{
  enters, cancels_id, Internal, registers, sends, receives, acquires, gives_up, leaves, unwinds,
  call, internal, ending, Reach, start, later,
}
use fast_downloader.Queue.Reachable.{is_running, concurrency_bound}
use fast_downloader.Queue.Pool.{Turns}
use fast_downloader.Queue.Refines.{view, Reach-refines}
use fast_downloader.Queue.Answers.{IsAnswered, ended_answer}
use fast_downloader.Queue.Deadlock.{no_deadlock}
use fast_downloader.Queue.Drains.{Works, idle, more, Works-bounded}
use fast_downloader.Queue.Ids.{has_entry, IsAuto}
use fast_downloader.Queue.Cancel.{cancel_auto, same_id}

abbrev cfg : DownloaderConfig
cfg = default_config (codes "test")

abbrev toy : Digest
toy = record { State = Unit {0}; start = tt; update = λ s bs. tt; finalize = λ s. [] }

abbrev toys : Hashes
toys = record { md5_digest = toy; sha256_digest = toy; sha512_digest = toy }

abbrev task : DownloadTask
task = record {
  id = 0;
  url = codes "u";
  save_path = codes "p";
  thread_count = none;
  expected_checksum = none;
}

-- No download here meets anything that it returns from.
abbrev unlucky : Circumstances
unlucky b t m = ⊥

abbrev Reached : DownloadQueue → Type 0
Reached = Reach cfg toys unlucky IsAuto 0 2

-- Both are in the channel.
abbrev sent : DownloadQueue
sent = send 1 (register 1 (send 0 (register 0 (enter task (enter task (new 0 2))))))

sent-Reached : Reached sent
unfolding new enter register send
sent-Reached =
    later
      (later
        (later
          (later (later (later start (call (enters task refl))) (call (enters task refl)))
            (internal (registers 0 refl)))
          (internal (sends 0 refl refl (omega arith))))
        (internal (registers 1 refl)))
      (internal (sends 1 refl refl (omega arith)))

-- The first is in its download, the second waits.
abbrev busy : DownloadQueue
busy = acquire 0 (dispatch (submitted 1) [] (dispatch (submitted 0) (submitted 1 ∷ []) sent))

busy-Reached : Reached busy
unfolding new enter register send dispatch acquire
busy-Reached =
    later
      (later (later sent-Reached (internal (receives (submitted 0) (submitted 1 ∷ []) refl refl)))
        (internal (receives (submitted 1) [] refl refl)))
      (internal (acquires 0 refl refl (omega arith)))

-- The second is cancelled and gives up; the download of the first panics.
abbrev over : DownloadQueue
over = unwind 0 (leave 1 false (give_up 1 (cancel_token 1 busy)))

asked-Reached : Reached (cancel_token 1 busy)
unfolding new enter register send dispatch acquire cancel cancel_token get insert remove add_u64
asked-Reached = later busy-Reached (call (cancels_id 2 refl))

over_work : Works cfg toys unlucky (cancel_token 1 busy) 3 over
unfolding new enter register send dispatch acquire cancel_token give_up leave
over_work =
    more (more (more idle (inl (gives_up 1 refl refl))) (inl (leaves 1 false refl)))
      (inr (unwinds 0 refl))

over-Reached : Reached over
unfolding new enter register send dispatch acquire cancel_token give_up leave
over-Reached =
    later
      (later (later asked-Reached (internal (gives_up 1 refl refl)))
        (internal (leaves 1 false refl)))
      (ending (unwinds 0 refl))

concurrency_bound_example :
    (total is_running busy.created busy.jobs + busy.permits ≤ 1) × (length busy.channel ≤ 2)
concurrency_bound_example = concurrency_bound busy-Reached

-- One runs, and no permit is left.
busy_full : total is_running busy.created busy.jobs ≡ 1
unfolding new enter register send dispatch acquire total
busy_full = refl

Reach-refines_example : Turns cfg toys unlucky 1 (view busy)
Reach-refines_example = Reach-refines busy-Reached

ended_answer_example :
    IsAnswered cfg toys unlucky (over.jobs 1).is_cancelled (over.jobs 1).task (over.jobs 1).reply
    ⊎ (((over.jobs 1).stage ≡ panicked) ⊎ (over.receiving ≡ false))
unfolding new enter register send dispatch acquire cancel_token give_up leave unwind
ended_answer_example = ended_answer over-Reached 1 refl

-- The answer is `Cancelled`.
over_reply : (over.jobs 1).reply ≡ some (err cancelled)
unfolding new enter register send dispatch acquire cancel_token give_up leave unwind
over_reply = refl

no_deadlock_example :
    ((r : DownloadQueue) × Internal busy r) ⊎ ((i : ℕ) × ((busy.jobs i).stage ≡ running))
unfolding new enter register send dispatch acquire
no_deadlock_example = no_deadlock busy-Reached 1 (omega arith)

Works-bounded_example : 3 ≤ 6 * (cancel_token 1 busy).created + length (cancel_token 1 busy).channel
Works-bounded_example = Works-bounded asked-Reached over_work

cancel_auto_example :
    ((busy.jobs 1).task.id ≡ 2)
    × (cancel 2 busy ≡ (
        if has_entry (busy.jobs 1).stage then ok (cancel_token 1 busy) else err (task_not_found 2)))
    × ((has_entry (busy.jobs 1).stage ≡ false) ⊎ (((cancel_all busy).jobs 1).is_cancelled ≡ true))
unfolding new enter register send dispatch acquire
cancel_auto_example = cancel_auto busy-Reached (omega arith) 1 (omega arith)

-- Both have the id 7; the second is cancelled before it has a permit.
abbrev seven : DownloadTask
seven = record task { id = 7 }

abbrev shared : DownloadQueue
shared =
    give_up 1
      (cancel_token 1 (acquire 0 (register 1 (register 0 (enter seven (enter seven (new 0 2)))))))

same_id_example :
    (cancel 7 (leave 1 false shared) ≡ err (task_not_found 7))
    × (((leave 1 false shared).jobs 0).stage ≡ running)
unfolding new enter register send dispatch acquire cancel_token give_up
same_id_example = same_id shared 0 1 false (λ e. omega arith) refl refl
