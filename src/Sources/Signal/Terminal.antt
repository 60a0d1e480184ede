-- ===== src/Sources/Signal/Terminal.antt =====
-- A wait on a signal source ends once: by a signal, or by the close, which is terminal.
use uvpp.Core.Callback.OneShot
use uvpp.Base.{◌≡◌, true, false, none, some, arith, ℤ, negsuc, eqb, eqb_refl}
use uvpp.Co.Await.{Caller, refuse}
use uvpp.Core.Error.{Errnos, returned}
use uvpp.Sources.Signal.{Signal, Source, await_suspend, deliver_signal, request_close}
use uvpp.Detail.AsyncClose.{closing, is_closing}

-- A source with a wait in progress, and one that a close request leaves.
abbrev pub waiting : Source → Caller → Source
waiting s c = record s { waiter = record { context = some c.self; callback = some tt } }

abbrev pub finished : Source → Source
finished s = record s {
  close = record (s.close) { phase = closing };
  waiter = OneShot.empty;
  started = false;
  native_closing = true;
}

-- A signal that reaches an open source with a wait in progress resumes exactly that task, with the
-- signal as its event and its status untouched if the signal is not the number UV_ECANCELED; the
-- slot is free again, the registration withdrawn, and nothing becomes pending.
pub deliver_signal-waiting :
    (e : Errnos) (w : Signal) (s : Source) (c : Caller) (n : ℤ)
    → is_closing s.close ≡ false
    → w.awaiter.resume_to ≡ some c.continuation
    → eqb n (negsuc e.ecanceled) ≡ false
    → let (v, resumed) = deliver_signal e w (waiting s c) c n in
      (resumed ≡ some c.continuation)
      × (v.awaiter.event ≡ n)
      × (v.awaiter.status ≡ w.awaiter.status)
      × (v.awaiter.linked ≡ false)
      × (v.awaiter.resume_to ≡ none)
      × (v.source ≡ some (record s { waiter = OneShot.empty }))
unfolding deliver_signal
deliver_signal-waiting e w s c n o r x = ground arith

first_close :
    (e : Errnos) (w : Signal) (s : Source) (c : Caller)
    → is_closing s.close ≡ false
    → w.awaiter.resume_to ≡ some c.continuation
    → let (v, resumed, begun) = request_close e w (waiting s c) c in
      (begun ≡ true)
      × (resumed ≡ some c.continuation)
      × (v.awaiter.status ≡ negsuc e.ecanceled)
      × (v.awaiter.linked ≡ false)
      × (v.source ≡ some (finished s))
unfolding request_close
first_close e w s c o r = ground (arith, eqb_refl (negsuc e.ecanceled))

after_close :
    (e : Errnos) (w : Signal) (s : Source) (c : Caller) (n : ℤ)
    → w.source ≡ some (finished s)
    → (deliver_signal e w (finished s) c n ≡ (w, none))
      × (request_close e w (finished s) c ≡ (w, none, false))
      × (await_suspend e w c ≡ returned (refuse w (negsuc e.ebadf)))
unfolding deliver_signal request_close await_suspend
after_close e w s c n i = ground arith

-- The first close request of an open source with a wait in progress stops the watch, resumes the
-- waiting task with UV_ECANCELED, withdraws its registration and begins the native close. After it
-- a signal is dropped, a further request changes nothing and resumes nobody, and every `next()` is
-- refused with UV_EBADF, even if a signal was pending.
pub signal_close_terminal :
    (e : Errnos) (w : Signal) (s : Source) (c d : Caller) (n : ℤ)
    → is_closing s.close ≡ false
    → w.awaiter.resume_to ≡ some c.continuation
    → let (v, resumed, begun) = request_close e w (waiting s c) c in
      (begun ≡ true)
      × (resumed ≡ some c.continuation)
      × (v.awaiter.status ≡ negsuc e.ecanceled)
      × (v.awaiter.linked ≡ false)
      × (v.source ≡ some (finished s))
      × (deliver_signal e v (finished s) d n ≡ (v, none))
      × (request_close e v (finished s) d ≡ (v, none, false))
      × (await_suspend e v d ≡ returned (refuse v (negsuc e.ebadf)))
signal_close_terminal e w s c d n o r =
    let (b, q, x, y, z) = first_close e w s c o r in
    let (f, g, h) = after_close e (request_close e w (waiting s c) c).0 s d n z in
    (b, q, x, y, z, f, g, h)
