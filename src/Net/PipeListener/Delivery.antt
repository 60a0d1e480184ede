-- ===== src/Net/PipeListener/Delivery.antt =====
-- What an accept of a pipe listener gives to its task.
use uvpp.Base.{◌≡◌, ◌⊎◌, true, false, none, some, is_neg}
use uvpp.Core.Error.{error_of, value_of}
use uvpp.Net.PipeListener.{Accepting, Child, accept_result}
use uvpp.Net.TcpListener
use uvpp.Net.TcpListener.Accept as Tcp

-- The connection that an accept of this awaiter prepares: its mode and that of its native pipe are
-- the listener's.
abbrev pub prepared : Accepting → Child
prepared a = record { loop = a.listener.loop; ipc = a.listener.ipc; native_ipc = a.listener.ipc }

-- What the task finds when it was resumed.
pub Ends : Accepting → Accepting → Type 0
Ends a b =
    ((is_neg b.status ≡ false) × (accept_result b ≡ some (value_of (some (prepared a)))))
    ⊎ ((is_neg b.status ≡ true)
        × (accept_result b ≡ some (error_of (record { status = b.status })))
        × (b.connection ≡ none)
        × (b.provisional_close_completed ≡ true))
