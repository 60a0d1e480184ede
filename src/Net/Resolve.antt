-- ===== src/Net/Resolve.antt =====
-- include/uvpp/net/dns.hpp: the awaiter of a resolution, one native request in the frame of its
-- coroutine. It keeps copies of its inputs for libuv until the request is over.
pub mod Delivery
use uvpp.Base.{ℕ, Bool, Option, none, some, List, [], if◌then◌else◌, ℤ, pos, negsuc, is_neg}
use uvpp.Co.Await.{World, Caller, stop_requested, refuse}
use uvpp.Core.Error.{
  Errnos, Outcome, Result, error_of, from_native, returned, thrown, throw_if_error, value_of,
}
use uvpp.Fs.Request.{Op, submit, complete}
use uvpp.Requests.Dns.{AddrInfo, AddressInfo, Bytes, to_vector}

-- resolve_options
pub record ResolveOptions : Type 0 where
  pub flags : ℤ
  pub family : ℤ
  pub socket_type : ℤ
  pub protocol : ℤ

-- The inputs of an awaiter and what its request resolved. The hints of libuv hold the four numbers of
-- the options and nothing else.
pub record Resolution : Type 0 where
  pub node : Option Bytes
  pub service : Option Bytes
  pub hints : Option ResolveOptions
  pub completion : List AddrInfo

abbrev pub Resolving : Type 0
Resolving = World Resolution Op

-- resolve_awaiter::resolve_awaiter
unfoldable pub construct : Option Bytes → Option Bytes → Option ResolveOptions → Resolution
construct node service options = record {
  node = node;
  service = service;
  hints = options;
  completion = [];
}

-- clear_inputs
unfoldable pub clear_inputs : Resolution → Resolution
clear_inputs r = record r { node = none; service = none; hints = none }

-- await_suspend, with the status of `uv_getaddrinfo`.
unfoldable pub await_resolve : Errnos → Resolving → Caller → ℤ → Resolving × Bool
unfolding submit clear_inputs
await_resolve e w c native =
    if stop_requested w
    then refuse w (negsuc e.ecanceled)
    else submit (record w { source = clear_inputs w.source }) w.source c native

-- complete, for the addresses that libuv hands over.
abbrev pub resolved : List AddrInfo → Resolution → ℤ → Resolution
unfolding clear_inputs
resolved addresses r status = clear_inputs (record r { completion = addresses })

unfoldable pub complete_resolve : List AddrInfo → Resolving → Caller → ℤ → Resolving × Option ℕ
unfolding complete clear_inputs
complete_resolve addresses w c status = complete (resolved addresses) w c status

-- await_resume of `ops::resolve`, and of `resolve`, which throws.
unfoldable pub resolve_result : ℕ → Resolving → Result (List AddressInfo)
unfolding from_native
resolve_result storage w =
    if is_neg w.awaiter.status
    then error_of (from_native w.awaiter.status)
    else value_of (to_vector storage w.source.completion)

unfoldable pub resolve_value : ℕ → Resolving → Outcome (List AddressInfo)
unfolding throw_if_error
resolve_value storage w = elim (throw_if_error w.awaiter.status) [
  | thrown x ↦ thrown x
  | returned n ↦ returned (to_vector storage w.source.completion)
]
