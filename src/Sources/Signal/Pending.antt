-- ===== src/Sources/Signal/Pending.antt =====
-- Signals that come while nobody waits are kept as one, the latest, for the next `next()`.
use uvpp.Core.Callback.OneShot
use uvpp.Base.{◌≡◌, refl, true, false, none, some, List, [], ◌∷◌, ◌++◌, arith, ℤ}
use uvpp.Co.Await.{Caller, stop_requested, link}
use uvpp.Core.Error.{Errnos, returned}
use uvpp.Sources.Signal.{Signal, Source, await_suspend, deliver_signal}
use uvpp.Detail.AsyncClose.{is_closing}

-- on_signal of the native handle, one notification after another.
unfoldable pub notify : Errnos → Signal → Caller → List ℤ → Signal
notify e w c [] = w
notify e w c (n ∷ ns) =
    notify e (elim w.source [ none ↦ w | some s ↦ (deliver_signal e w s c n).0 ]) c ns

kept_one :
    (e : Errnos) (w : Signal) (s : Source) (c : Caller) (n : ℤ)
    → is_closing s.close ≡ false
    → OneShot.claimed s.waiter ≡ false
    → (deliver_signal e w s c n).0
      ≡ record w { source = some (record s { pending_signal = n; pending = true }) }
unfolding deliver_signal
kept_one e w s c n o f = ground arith

notify_kept :
    (ns : List ℤ) (e : Errnos) (w : Signal) (s : Source) (c : Caller) (n : ℤ)
    → w.source ≡ some s
    → is_closing s.close ≡ false
    → OneShot.claimed s.waiter ≡ false
    → notify e w c (ns ++ n ∷ [])
      ≡ record w { source = some (record s { pending_signal = n; pending = true }) }
unfolding notify
notify_kept [] e w s c n i o f = rw i (kept_one e w s c n o f)
notify_kept (m ∷ ns) e w s c n i o f =
    rw (i, notify)
      (rw (kept_one e w s c m o f) (
        notify_kept ns e
          (record w { source = some (record s { pending_signal = m; pending = true }) })
          (record s { pending_signal = m; pending = true }) c n refl o f))

-- However many signals come while an open source has no consumer, the next `next()` of a task on
-- its loop that is not stopped completes at once with the latest of them, and with no error; the
-- one after that finds nothing pending and waits with the slot.
pub await_suspend-latest :
    (e : Errnos) (w : Signal) (s : Source) (c : Caller) (ns : List ℤ) (n : ℤ)
    → w.source ≡ some s
    → is_closing s.close ≡ false
    → OneShot.claimed s.waiter ≡ false
    → c.loop ≡ s.loop
    → stop_requested w ≡ false
    → let v = record w {
      source = some (record s { pending_signal = n; pending = false });
      awaiter = record (w.awaiter) { event = n };
    } in
      (await_suspend e (notify e w c (ns ++ n ∷ [])) c ≡ returned (v, false))
      × (await_suspend e v c
          ≡ returned (
            (link
                (record v {
                  source = some (record s {
                    pending_signal = n;
                    pending = false;
                    waiter = record { context = some c.self; callback = some tt };
                  });
                })
                c).0,
            true,
          ))
unfolding await_suspend link
await_suspend-latest e w s c ns n i o f l r =
    (rw (notify_kept ns e w s c n i o f) (ground arith), ground arith)
