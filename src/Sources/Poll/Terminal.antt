-- ===== src/Sources/Poll/Terminal.antt =====
-- The close of a poll source is terminal.
use uvpp.Core.Callback.OneShot
use uvpp.Base.{ℕ, ◌≡◌, true, false, none, some, arith, ℤ, negsuc}
use uvpp.Co.Await.{Caller, refuse}
use uvpp.Sources.Poll.Next.{waiting}
use uvpp.Core.Error.{Errnos, returned}
use uvpp.Sources.Poll.{Poll, Source, await_suspend, request_close}
use uvpp.Detail.AsyncClose.{is_closing, closing}

-- The source that a close request leaves.
abbrev pub finished : Source → Source
finished s = record s {
  close = record (s.close) { phase = closing };
  waiter = OneShot.empty;
  armed = false;
  native_closing = true;
}

first_close :
    (e : Errnos) (w : Poll) (s : Source) (c : Caller)
    → is_closing s.close ≡ false
    → w.awaiter.resume_to ≡ some c.continuation
    → let (v, resumed, begun) = request_close e w (waiting s c) c in
      (begun ≡ true)
      × (resumed ≡ some c.continuation)
      × (v.awaiter.status ≡ negsuc e.ecanceled)
      × (v.awaiter.linked ≡ false)
      × (v.source ≡ some (finished s))
unfolding request_close
first_close e w s c o r = ground arith

closed_source :
    (e : Errnos) (allowed : ℕ) (w : Poll) (s : Source) (c : Caller) (requested : ℕ) (start : ℤ)
    → w.source ≡ some (finished s)
    → await_suspend e allowed w c requested start ≡ returned (refuse w (negsuc e.ebadf))
unfolding await_suspend
closed_source e allowed w s c requested start i = ground arith

-- The first close request of an open source with a wait in progress stops polling, resumes the
-- waiting task with UV_ECANCELED, withdraws its registration and begins the native close; a
-- further request changes nothing and resumes nobody, and every later `next()` is refused with
-- UV_EBADF and leaves the source alone.
pub poll_close_terminal :
    (e : Errnos) (allowed : ℕ) (w : Poll) (s : Source) (c d : Caller) (requested : ℕ) (start : ℤ)
    → is_closing s.close ≡ false
    → w.awaiter.resume_to ≡ some c.continuation
    → let (v, resumed, begun) = request_close e w (waiting s c) c in
      (begun ≡ true)
      × (resumed ≡ some c.continuation)
      × (v.awaiter.status ≡ negsuc e.ecanceled)
      × (v.awaiter.linked ≡ false)
      × (v.source ≡ some (finished s))
      × (request_close e v (finished s) d ≡ (v, none, false))
      × (await_suspend e allowed v d requested start ≡ returned (refuse v (negsuc e.ebadf)))
unfolding request_close
poll_close_terminal e allowed w s c d requested start o r =
    let (b, q, x, y, z) = first_close e w s c o r in
    (
      b,
      q,
      x,
      y,
      z,
      ground arith,
      closed_source e allowed (request_close e w (waiting s c) c).0 s d requested start z,
    )
