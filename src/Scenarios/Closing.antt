-- ===== src/Scenarios/Closing.antt =====
-- Runs of the close protocol of include/uvpp/detail.
use uvpp.Base.{◌≡◌, refl, true, false, ◌&&◌, none, some, [], ◌∷◌, if◌then◌else◌, negsuc}
use uvpp.Detail.AsyncClose.{add_waiter, complete_begin, complete_end, closed, closing}
use uvpp.Detail.AsyncClose.Life.{
  Life, Reach, quiet, here, next, requests, waits, releases, completes, resumes, ends, born,
  release_owner, request_close, Inv, delete_once, is_gone,
}
use uvpp.Detail.OwnerClose.{Owned, await_close, idle, OwnerAwaiter, join_close}
use uvpp.Scenarios.Basics.{linux}
use uvpp.Core.Error.{returned}

-- A life that a close ended, with the owner released.
abbrev over : Life
over = record {
  close = record {
    phase = closed;
    waiters = [];
    callback_waiter = none;
    released = true;
    completion_active = false;
  };
  native = false;
  pc = quiet;
  deleted = 1;
}

-- One task waits for the close, and releases the owner before it is resumed from it.
over-Reach : Reach born over
unfolding born request_close release_owner add_waiter complete_begin complete_end
over-Reach =
    next
      (next
        (next (next (next (next here (requests refl)) (waits (some 9) refl)) (completes refl refl))
          (releases refl))
        (resumes 9 [] refl))
      (ends refl)

delete_once_example :
    (over.deleted ≡ (if is_gone over then 1 else 0)) × ((over.native && is_gone over) ≡ false)
delete_once_example = delete_once over over-Reach

-- An owner whose close has one waiter.
abbrev closing_life : Life
closing_life = record {
  close = record {
    phase = closing;
    waiters = some 4 ∷ [];
    callback_waiter = none;
    released = false;
    completion_active = false;
  };
  native = true;
  pc = quiet;
  deleted = 0;
}

abbrev joined_life : Life
joined_life = record closing_life {
  close = record (closing_life.close) { waiters = some 4 ∷ some 9 ∷ [] };
}

closing_life-Inv : Inv closing_life
closing_life-Inv = record { counted = refl; owed = refl; active = refl; after_close = λ h. cc }

abbrev owned : Life → Owned
owned l = record { loop = 1; active = false; life = l }

closing_life-await :
    await_close linux (some (owned closing_life)) idle true 1 9
    ≡ returned ((some (owned joined_life), idle), true)
unfolding await_close join_close add_waiter request_close
closing_life-await = refl

-- A file with an operation under way, whose close rejects it.
abbrev busy : Owned
busy = record { loop = 1; active = true; life = closing_life }

abbrev rejected : OwnerAwaiter
rejected = record { status = negsuc 15; initiated = false }

busy-await : await_close linux (some busy) idle true 1 9 ≡ returned ((some busy, rejected), false)
unfolding await_close
busy-await = refl
