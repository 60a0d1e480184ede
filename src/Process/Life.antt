-- ===== src/Process/Life.antt =====
-- The life of a process under its owner, its exit callback and its close callback.
use uvpp.Base.{
  ℕ, ◌+◌, ◌≡◌, Bool, true, false, ◌&&◌, ◌||◌, not, Option, List, [], ◌∷◌, arith, if◌then◌else◌,
}
use uvpp.Detail.AsyncClose.{
  add_waiter, begin, closed, complete_begin, complete_end, fresh, is_closed, is_closing,
  owner_released,
}
use uvpp.Detail.AsyncClose.Life.{Pc, is_quiet, quiet, resuming}
use uvpp.Process.{Exit, Process, new_process, on_exit, release_owner, request_close}

-- `running` and `native` are set while libuv owes the exit callback and the close callback; `deleted`
-- counts the deletions of the state.
pub record Life : Type 0 where
  pub process : Process
  pub running : Bool
  pub native : Bool
  pub pc : Pc
  pub deleted : ℕ

abbrev pub born : ℕ → Life
born loop = record {
  process = new_process loop;
  running = true;
  native = false;
  pc = quiet;
  deleted = 0;
}

unfoldable pub release : Life → Life
unfolding release_owner
release l =
    let (p, begun, gone) = release_owner l.process in
    record l {
      process = p;
      native = l.native || begun;
      deleted = if gone then l.deleted + 1 else l.deleted;
    }

-- The last act of on_close.
unfoldable pub end_close : Life → Life
unfolding complete_end
end_close l =
    let (c, gone) = complete_end l.process.close in
    record l {
      process = record (l.process) { close = c };
      pc = quiet;
      deleted = if gone && l.process.released then l.deleted + 1 else l.deleted;
    }

-- One step. What goes through the owner needs that it is not released; `releases` is a release that
-- happens outside of a completion.
pub data Step (l : Life) : Life → Type 0 where
  exits :
      (exit : Exit)
      → l.running ≡ true
      → Step l (record l {
        process = (on_exit l.process exit).0;
        native = l.native || (on_exit l.process exit).1;
        running = false;
      })
  requests :
      l.process.released ≡ false
      → Step l (record l {
        process = (request_close l.process).0;
        native = l.native || (request_close l.process).1;
      })
  waits :
      (h : Option ℕ)
      → l.process.released ≡ false
      → l.process.exited ≡ true
      → Step l
          (record l { process = record (l.process) { close = (add_waiter l.process.close h).0 } })
  releases : l.process.released ≡ false → l.pc ≡ quiet → Step l (release l)
  completes :
      l.native ≡ true
      → l.pc ≡ quiet
      → Step l (record l {
        process = record (l.process) { close = (complete_begin l.process.close).0 };
        native = false;
        pc = resuming (complete_begin l.process.close).1;
      })
  resumes :
      (h : ℕ) (rest : List ℕ)
      → l.pc ≡ resuming (h ∷ rest)
      → Step l (record l { pc = resuming rest })
  ends : l.pc ≡ resuming [] → Step l (end_close l)

pub data Reach (l : Life) : Life → Type 0 where
  start : Reach l l
  next : {m n : Life} → Reach l m → Step m n → Reach l n

abbrev pub is_gone : Life → Bool
is_gone l = l.process.released && (is_closed l.process.close.phase && is_quiet l.pc)

pub record Inv (l : Life) : Type 0 where
  pub counted : l.deleted ≡ (if is_gone l then 1 else 0)
  pub same : l.process.close.released ≡ l.process.released
  pub alive : l.running ≡ not l.process.exited
  pub owed : l.native ≡ (is_closing l.process.close && not (is_closed l.process.close.phase))
  pub left : l.process.exited ≡ false → is_closing l.process.close ≡ false
  pub ending :
      l.process.released ≡ true → l.process.exited ≡ true → is_closing l.process.close ≡ true
  pub after_close : is_quiet l.pc ≡ false → l.process.close.phase ≡ closed

Step-Inv : {l m : Life} → Step l m → Inv l → Inv m
unfolding on_exit request_close begin add_waiter release release_owner owner_released complete_begin
    end_close complete_end
Step-Inv {l} (exits exit r) v = ground arith
Step-Inv {l} (requests r) v = ground arith
Step-Inv {l} (waits h r x) v = ground arith
Step-Inv {l} (releases r q) v = ground arith
Step-Inv {l} (completes n q) v = ground arith
Step-Inv {l} (resumes h rest q) v = ground arith
Step-Inv {l} (ends q) v = ground arith

Reach-Inv : {l m : Life} → Reach l m → Inv l → Inv m
Reach-Inv start v = v
Reach-Inv (next r s) v = Step-Inv s (Reach-Inv r v)

born-Inv : (loop : ℕ) → Inv (born loop)
unfolding fresh
born-Inv loop = ground arith

-- A process from its spawn on, in any order of its exit, close requests, waits for the close, the
-- close callback and a release of its owner that is not inside the completion of a close. Its
-- state is deleted exactly when the close has completed and the owner is released, once, and never
-- while libuv owes it the exit or the close callback; and when the owner is released and the
-- process has exited, it is deleted, or libuv owes the close callback, or a completion is running.
pub process_deleted_once :
    (loop : ℕ) (l : Life)
    → Reach (born loop) l
    → (l.deleted ≡ (if is_gone l then 1 else 0))
      × (((l.running || l.native) && is_gone l) ≡ false)
      × ((not (l.process.released && l.process.exited)
            || (is_gone l || (l.native || not (is_quiet l.pc))))
          ≡ true)
process_deleted_once loop l r =
    let v = Reach-Inv r (born-Inv loop) in (v.counted, ground arith, ground arith)

-- A process whose owner is released inside the completion of its close, as by a coroutine that
-- awaited the close and then destroys the process: its state is deleted there at once, and deleted
-- again when the completion ends.
pub end_close-release :
    (loop : ℕ) (l : Life) (hs : List ℕ)
    → Reach (born loop) l
    → l.pc ≡ resuming hs
    → l.process.released ≡ false
    → ((release l).deleted ≡ 1)
      × ((end_close (record (release l) { pc = resuming [] })).deleted ≡ 2)
unfolding release release_owner owner_released end_close complete_end request_close begin
end_close-release loop l hs r p n =
    let v = Reach-Inv r (born-Inv loop) in (ground arith, ground arith)
