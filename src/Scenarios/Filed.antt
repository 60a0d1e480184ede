-- ===== src/Scenarios/Filed.antt =====
-- A read, a write that a stop request cancels, and two closes of one file.
use uvpp.Base.{
  ◌+◌, ◌≤◌, ◌≡◌, refl, ◌≢◌, ◌⊎◌, true, false, none, some, [], ◌∷◌, arith, pos, negsuc, is_neg,
}
use uvpp.Co.Await.{Awaiter, link, unlink}
use uvpp.Core.Error.{returned}
use uvpp.Fs.Request.{Op, complete, submit, unsubmitted}
use uvpp.Fs.File.{Closer, await_close, await_read, complete_close, complete_read, is_open}
use uvpp.Fs.File.Exclusive.{
  Reach, Run, close_ends, close_excludes_io, close_refused, closes, fresh, next, only, read_ends,
  reads, resumes, start,
}
use uvpp.Scenarios.Basics.{linux, task}

abbrev unread : Awaiter Op
unread = record { resume_to = none; linked = false; event = unsubmitted; status = pos 0 }

abbrev closer : Closer
closer = record { status = pos 0; resume_to = none }

abbrev finished : Run
finished = record {
  file = record {
    loop = some 1;
    descriptor = negsuc 0;
    waiters = [];
    close_status = pos 0;
    read_active = false;
    write_active = false;
    close_active = false;
    close_complete = true;
  };
  reads = 0;
  writes = 0;
  closes = 0;
  submitted = 1;
  closers = 81 ∷ 80 ∷ [];
  resuming = 80 ∷ [];
  closed = 81 ∷ [];
}

finished-Reach : Reach linux (fresh linux 1 5) finished
unfolding await_read is_open submit link complete_read complete unlink await_close complete_close
finished-Reach =
    next
      (next
        (next
          (next
            (next (next start (reads unread none task false (pos 0) _ _ true refl refl))
              (read_ends unread none task (pos 3) _ (λ p. omega arith) refl))
            (closes closer _ 1 80 (pos 0) _ true refl))
          (closes closer _ 1 81 (pos 0) _ true refl))
        (close_ends (pos 0) (λ p. omega arith)))
      (resumes 81 (80 ∷ []) refl)

close_excludes_io_example :
    (finished.reads ≡ only finished.file.read_active)
    × (finished.writes ≡ only finished.file.write_active)
    × (finished.closes ≤ finished.submitted)
    × (finished.submitted ≤ 1)
    × ((finished.submitted ≡ 0) ⊎ ((finished.reads ≡ 0) × (finished.writes ≡ 0)))
close_excludes_io_example = close_excludes_io linux 1 5 finished finished-Reach

-- A file with a read in progress.
abbrev busy : Run
busy = record {
  file = record {
    loop = some 1;
    descriptor = pos 5;
    waiters = [];
    close_status = pos 0;
    read_active = true;
    write_active = false;
    close_active = false;
    close_complete = false;
  };
  reads = 1;
  writes = 0;
  closes = 0;
  submitted = 0;
  closers = [];
  resuming = [];
  closed = [];
}

busy-Reach : Reach linux (fresh linux 1 5) busy
unfolding await_read is_open submit link
busy-Reach = next start (reads unread none task false (pos 0) _ _ true refl refl)

abbrev refused_closer : Closer
refused_closer = record { status = negsuc linux.ebusy; resume_to = none }

await_close-busy :
    await_close linux busy.file closer 1 80 (pos 0) ≡ returned ((busy.file, refused_closer), false)
unfolding await_close is_open
await_close-busy = refl

close_refused_example :
    (busy.file ≡ busy.file)
    × (((busy.file.close_complete ≡ true) × (refused_closer.status ≡ busy.file.close_status))
        ⊎ (((busy.reads + busy.writes ≢ 0) × (refused_closer.status ≡ negsuc linux.ebusy))
            ⊎ ((is_neg (pos 0) ≡ true) × (refused_closer.status ≡ pos 0))))
close_refused_example =
    close_refused linux 1 5 busy closer refused_closer 1 80 (pos 0) busy.file busy-Reach
      await_close-busy
