-- ===== src/Fs/File.antt =====
-- include/uvpp/fs/coroutines.hpp: the state of an opened file, its owner and the awaiters of open,
-- read, write and close. The statuses of the native calls are arguments. A null state is `none`.
pub mod Exclusive
use uvpp.Base.{
  ℕ, Bool, true, false, ◌&&◌, ◌||◌, not, Option, none, some, List, [], ◌∷◌, if◌then◌else◌,
  points_to, ℤ, pos, negsuc, is_neg, eqb,
}
use uvpp.Co.Await.{World, Caller, stop_requested, refuse}
use uvpp.Core.Error.{
  Errnos, Outcome, Result, error_of, from_native, logic_error, returned, thrown, value_of,
}
use uvpp.Fs.Request.{Op, submit, complete}

-- file_state; `waiters` are the continuations of its close waiters, the newest first.
pub record File : Type 0 where
  pub loop : Option ℕ
  pub descriptor : ℤ
  pub waiters : List ℕ
  pub close_status : ℤ
  pub read_active : Bool
  pub write_active : Bool
  pub close_active : Bool
  pub close_complete : Bool

abbrev pub new_file : File
new_file = record {
  loop = none;
  descriptor = negsuc 0;
  waiters = [];
  close_status = pos 0;
  read_active = false;
  write_active = false;
  close_active = false;
  close_complete = false;
}

-- file_state::open
unfoldable pub is_open : File → Bool
is_open f = not (is_neg f.descriptor) && (not f.close_active && not f.close_complete)

unfoldable pub has_active_operation : File → Bool
has_active_operation f = f.read_active || (f.write_active || f.close_active)

-- file::reset, which ends in `std::terminate` for `none`.
unfoldable pub reset : Option File → Option (Option File)
unfolding is_open
reset state = elim state [
  | none ↦ some none
  | some f ↦ if f.read_active || (f.write_active || is_open f) then none else some none
]

-- Reads and writes are awaited on a state that may be null.
abbrev pub FileIo : Type 0
FileIo = World (Option File) Op

-- detail_open_awaiter
unfoldable pub await_open : Errnos → World File Op → Caller → ℤ → World File Op × Bool
unfolding submit
await_open e w c native =
    if stop_requested w
    then refuse w (negsuc e.ecanceled)
    else (let f = record (w.source) { loop = some c.loop } in
        submit (record w { source = f }) f c native)

abbrev pub opened : File → ℤ → File
opened f status = if is_neg status then f else record f { descriptor = status }

unfoldable pub complete_open : World File Op → Caller → ℤ → World File Op × Option ℕ
unfolding complete
complete_open = complete opened

unfoldable pub open_result : World File Op → Result File
unfolding from_native
open_result w =
    if is_neg w.awaiter.status then error_of (from_native w.awaiter.status) else value_of w.source

-- detail_read_awaiter; `empty` says that the buffer is empty.
unfoldable pub await_read : Errnos → FileIo → Caller → Bool → ℤ → Outcome (FileIo × Bool)
unfolding submit is_open
await_read e w c empty native = elim w.source [
  | none ↦ returned (refuse w (negsuc e.ebadf))
  | some f ↦
      if not (is_open f)
      then returned (refuse w (negsuc e.ebadf))
      else if not (points_to f.loop c.loop)
      then thrown logic_error
      else if stop_requested w
      then returned (refuse w (negsuc e.ecanceled))
      else if empty
      then returned (w, false)
      else if f.read_active
      then returned (refuse w (negsuc e.ebusy))
      else returned (submit w (some (record f { read_active = true })) c native)
]

abbrev pub read_done : Option File → ℤ → Option File
read_done none status = none
read_done (some f) status = some (record f { read_active = false })

unfoldable pub complete_read : FileIo → Caller → ℤ → FileIo × Option ℕ
unfolding complete
complete_read = complete read_done

-- file_read_result
pub record FileReadResult : Type 0 where
  pub count : ℕ
  pub eof : Bool

unfoldable pub read_result : ℤ → Bool → Result FileReadResult
unfolding from_native
read_result status empty = elim status [
  | negsuc n ↦ error_of (from_native (negsuc n))
  | pos n ↦ value_of (record { count = n; eof = not empty && eqb (pos n) (pos 0) })
]

-- detail_write_awaiter
unfoldable pub await_write : Errnos → FileIo → Caller → Bool → ℤ → Outcome (FileIo × Bool)
unfolding submit is_open
await_write e w c empty native = elim w.source [
  | none ↦ returned (refuse w (negsuc e.ebadf))
  | some f ↦
      if not (is_open f)
      then returned (refuse w (negsuc e.ebadf))
      else if not (points_to f.loop c.loop)
      then thrown logic_error
      else if stop_requested w
      then returned (refuse w (negsuc e.ecanceled))
      else if empty
      then returned (w, false)
      else if f.write_active
      then returned (refuse w (negsuc e.ebusy))
      else returned (submit w (some (record f { write_active = true })) c native)
]

abbrev pub write_done : Option File → ℤ → Option File
write_done none status = none
write_done (some f) status = some (record f { write_active = false })

unfoldable pub complete_write : FileIo → Caller → ℤ → FileIo × Option ℕ
unfolding complete
complete_write = complete write_done

unfoldable pub write_result : ℤ → Result ℕ
unfolding from_native
write_result status = elim status [
  | negsuc n ↦ error_of (from_native (negsuc n))
  | pos n ↦ value_of n
]

-- detail_close_awaiter, whose memory is its status and its continuation.
pub record Closer : Type 0 where
  pub status : ℤ
  pub resume_to : Option ℕ

-- add_waiter
unfoldable pub add_waiter : File → ℕ → File
add_waiter f h = record f { waiters = h ∷ f.waiters }

-- The part of `await_suspend` that starts the close of an idle file.
unfoldable pub start_close : File → Closer → ℕ → ℤ → (File × Closer) × Bool
unfolding add_waiter
start_close f a h native =
    let g = add_waiter (record f { close_active = true }) h in
    if is_neg native
    then (
      (
        record g { waiters = []; close_active = false },
        record a { status = native; resume_to = none },
      ),
      false,
    )
    else ((g, record a { status = native; resume_to = some h }), true)

-- `await_suspend` of a close on a state that is not null, for a coroutine of a loop.
unfoldable pub await_close : Errnos → File → Closer → ℕ → ℕ → ℤ → Outcome ((File × Closer) × Bool)
unfolding start_close add_waiter is_open
await_close e f a loop h native =
    if not (points_to f.loop loop)
    then thrown logic_error
    else if f.close_complete
    then returned ((f, record a { status = f.close_status }), false)
    else if f.close_active
    then returned ((add_waiter f h, record a { resume_to = some h }), true)
    else if not (is_open f)
    then returned ((f, record a { status = negsuc e.ebadf; resume_to = none }), false)
    else if f.read_active || f.write_active
    then returned ((f, record a { status = negsuc e.ebusy; resume_to = none }), false)
    else returned (start_close f a h native)

-- The same on a state that may be null.
unfoldable pub await_close_any :
    Errnos → Option File → Closer → ℕ → ℕ → ℤ → Outcome ((Option File × Closer) × Bool)
unfolding await_close
await_close_any e state a loop h native = elim state [
  | none ↦ returned ((none, record a { status = negsuc e.ebadf }), false)
  | some f ↦ elim (await_close e f a loop h native) [
    | thrown x ↦ thrown x
    | returned v ↦ (let ((g, b), suspended) = v in returned ((some g, b), suspended))
  ]
]

-- The callback of a close up to its first resumption: the waiters that it then resumes in order,
-- each with the status.
unfoldable pub complete_close : File → ℤ → File × List ℕ
complete_close f status = (
  record f {
    descriptor = negsuc 0;
    close_active = false;
    close_complete = true;
    close_status = status;
    waiters = [];
  },
  f.waiters,
)

-- complete_waiter
unfoldable pub complete_waiter : Closer → ℤ → Closer × Option ℕ
complete_waiter a status = (record { status = status; resume_to = none }, a.resume_to)
