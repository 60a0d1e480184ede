-- ===== src/Net/TcpConnection/Connect.antt =====
-- The life of a connect that suspended its task: the connect callback and the close callback come
-- when libuv owes them.
use uvpp.Base.{
  ℕ, ◌≡◌, subst, ◌⊎◌, inl, inr, Bool, true, false, none, some, List, [], ◌∷◌, ◌++◌, arith,
  Bool-cases, ℤ, pos, negsuc, is_neg,
}
use uvpp.Core.Error.{Errnos, operational, returned, thrown}
use uvpp.Co.Sleep.Awakening.{add_resumed}
use uvpp.Detail.AsyncClose.{opened, closing, closed, is_closed, is_closing}
use uvpp.Detail.AsyncClose.Life.{born, release_owner, request_close}
use uvpp.Net.TcpConnection.{
  Connecting, Connection, new_connection, await_suspend, on_connect, on_close, await_resume, fail,
  request_close_from_callback,
}

-- A connect with the coroutines that it resumed.
pub record Run : Type 0 where
  pub connect : Connecting
  pub resumed : List ℕ

abbrev pub asleep : Connecting → Run
asleep a = record { connect = a; resumed = [] }

pub data Step (r : Run) : Run → Type 0 where
  connects :
      (s : Connection) (status : ℤ)
      → r.connect.state ≡ some s
      → r.connect.pending ≡ true
      → Step r (record {
        connect = (on_connect r.connect s status).0;
        resumed = add_resumed r.resumed (on_connect r.connect s status).1;
      })
  closes :
      (s : Connection)
      → r.connect.state ≡ some s
      → s.life.native ≡ true
      → Step r (record {
        connect = record (r.connect) { state = some (on_close s).0 };
        resumed = (on_close s).1 ++ r.resumed;
      })

pub data Reach (r : Run) : Run → Type 0 where
  start : Reach r r
  next : {m n : Run} → Reach r m → Step m n → Reach r n

record Inv (loop h : ℕ) (r : Run) (s : Connection) : Type 0 where
  at : r.connect.state ≡ some s
  home : s.loop ≡ some loop
  idle : (s.write_active ≡ false) × (s.active_read ≡ none) × (s.handle_export_active ≡ false)
  quiet : s.life.close.completion_active ≡ false
  waiters : s.life.close.waiters ≡ []
  waiting :
      r.connect.pending ≡ true
      → (r.resumed ≡ [])
        × (r.connect.owned ≡ true)
        × (s.connect_continuation ≡ some h)
        × (s.life.close.phase ≡ opened)
        × (s.life.close.released ≡ false)
        × (s.life.native ≡ false)
        × (s.life.deleted ≡ 0)
        × (s.life.close.callback_waiter ≡ none)
  ready :
      r.connect.pending ≡ false
      → is_neg r.connect.status ≡ false
      → (r.resumed ≡ h ∷ [])
        × (r.connect.owned ≡ true)
        × (s.life.close.phase ≡ opened)
        × (s.life.close.released ≡ false)
        × (s.life.native ≡ false)
        × (s.life.deleted ≡ 0)
  failing :
      r.connect.pending ≡ false
      → is_neg r.connect.status ≡ true
      → s.life.native ≡ true
      → (r.resumed ≡ [])
        × (r.connect.owned ≡ false)
        × (s.life.close.phase ≡ closing)
        × (s.life.close.released ≡ true)
        × (s.life.close.callback_waiter ≡ some h)
        × (s.life.deleted ≡ 0)
  failed :
      r.connect.pending ≡ false
      → is_neg r.connect.status ≡ true
      → s.life.native ≡ false
      → (r.resumed ≡ h ∷ [])
        × (r.connect.owned ≡ false)
        × (s.life.close.phase ≡ closed)
        × (s.life.deleted ≡ 1)

connect-Inv :
    (loop h : ℕ) (r : Run) (s : Connection) (status : ℤ)
    → r.connect.pending ≡ true
    → Inv loop h r s
    → (t : Connection) × Inv loop h
        (record {
          connect = (on_connect r.connect s status).0;
          resumed = add_resumed r.resumed (on_connect r.connect s status).1;
        })
        t
unfolding on_connect fail request_close_from_callback release_owner request_close
connect-Inv loop h r s (pos n) p v =
    (record s { connect_status = pos n; connect_continuation = none }, ground arith)
connect-Inv loop h r s (negsuc n) p v = (
  request_close_from_callback
      (record s {
        connect_status = negsuc n;
        connect_continuation = none;
        life = release_owner s.life;
      })
      s.connect_continuation,
  ground arith,
)

close-Inv :
    (loop h : ℕ) (r : Run) (s : Connection)
    → s.life.native ≡ true
    → Inv loop h r s
    → Inv loop h
        (record {
          connect = record (r.connect) { state = some (on_close s).0 };
          resumed = (on_close s).1 ++ r.resumed;
        })
        (on_close s).0
unfolding on_close
close-Inv loop h r s n v = elim (Bool-cases r.connect.pending) [
  | inl on ↦ ground arith
  | inr off ↦ elim (Bool-cases (is_neg r.connect.status)) [
    | inl neg ↦ ground arith
    | inr ok ↦ ground arith
  ]
]

same :
    (loop h : ℕ) (r : Run) (s t : Connection)
    → r.connect.state ≡ some t
    → Inv loop h r s
    → Inv loop h r t
same loop h r s t i v = let q : s ≡ t = ground (arith, v.at) in subst (Inv loop h r) q v

Step-Inv :
    (loop h : ℕ) {r q : Run} (s : Connection)
    → Step r q
    → Inv loop h r s
    → (t : Connection) × Inv loop h q t
Step-Inv loop h {r} s (connects t status i p) v =
    connect-Inv loop h r t status p (same loop h r s t i v)
Step-Inv loop h {r} s (closes t i n) v =
    ((on_close t).0, close-Inv loop h r t n (same loop h r s t i v))

Reach-Inv :
    (loop h : ℕ) {r q : Run} (s : Connection)
    → Reach r q
    → Inv loop h r s
    → (t : Connection) × Inv loop h q t
Reach-Inv loop h s start v = (s, v)
Reach-Inv loop h s (next p st) v = let (t, w) = Reach-Inv loop h s p v in Step-Inv loop h t st w

-- The state of a connect whose callback is to come.
abbrev making : ℕ → ℕ → ℤ → Connection
making loop h status = record new_connection {
  loop = some loop;
  connect_continuation = some h;
  provisional = true;
  initialized = true;
  connect_status = status;
}

suspended-Inv :
    (e : Errnos) (stopped : Bool) (loop h : ℕ) (init sent : ℤ) (a : Connecting)
    → await_suspend e stopped loop h init sent ≡ (a, true)
    → (s : Connection) × Inv loop h (asleep a) s
unfolding await_suspend new_connection fail request_close_from_callback release_owner request_close
suspended-Inv e stopped loop h init (pos n) a i = (making loop h (pos n), ground arith)
suspended-Inv e stopped loop h init (negsuc n) a i = (
  request_close_from_callback
      (record (making loop h (negsuc n)) { connect_continuation = none; life = release_owner born })
      (some h),
  ground arith,
)

-- A connect that suspended its task, in whatever order libuv calls it back: the connect callback
-- is to come and the task was not resumed; or the connect succeeded, the task was resumed exactly
-- once, and it is returned the open connection; or it failed, also at once, and the close
-- callback is to come and the task was not resumed; or the failed connection was closed, its state
-- deleted exactly once and the task resumed exactly once, which is thrown the status.
pub connect_resumed_once :
    (e : Errnos) (stopped : Bool) (loop h : ℕ) (init sent : ℤ) (a : Connecting) (r : Run)
    → await_suspend e stopped loop h init sent ≡ (a, true)
    → Reach (asleep a) r
    → (s : Connection) × (r.connect.state ≡ some s)
      × (((r.connect.pending ≡ true) × (r.resumed ≡ []) × (s.life.deleted ≡ 0))
          ⊎ (((await_resume r.connect ≡ returned (some (record s { provisional = false })))
                × (r.resumed ≡ h ∷ [])
                × (is_closing s.life.close ≡ false)
                × (s.life.deleted ≡ 0))
              ⊎ (((s.life.native ≡ true) × (r.resumed ≡ []) × (s.life.deleted ≡ 0))
                  ⊎ ((await_resume r.connect ≡ thrown (operational r.connect.status))
                      × (r.resumed ≡ h ∷ [])
                      × (r.connect.owned ≡ false)
                      × (is_closed s.life.close.phase ≡ true)
                      × (s.life.deleted ≡ 1)))))
unfolding await_resume
connect_resumed_once e stopped loop h init sent a r i p =
    let (u, w) = suspended-Inv e stopped loop h init sent a i in
    let (s, v) = Reach-Inv loop h u p w in
    (
      s,
      v.at,
      elim (Bool-cases r.connect.pending) [
        | inl on ↦ inl (ground arith)
        | inr off ↦ elim (Bool-cases (is_neg r.connect.status)) [
          | inr ok ↦ inr (inl (ground (arith, v.at)))
          | inl neg ↦ elim (Bool-cases s.life.native) [
            | inl owed ↦ inr (inr (inl (ground arith)))
            | inr paid ↦ inr (inr (inr (ground (arith, v.at))))
          ]
        ]
      ],
    )
