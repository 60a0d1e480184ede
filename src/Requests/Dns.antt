-- ===== src/Requests/Dns.antt =====
-- include/uvpp/requests/dns.hpp: the addresses that libuv resolves, the values that are copied from
-- them, and the two requests. A string is the list of its bytes, a native address is a pointer to memory,
-- and a null pointer is `none`; the chain of an `addrinfo` and of those that follow it is a list, and null is the empty
-- one. `storage` is the size of `sockaddr_storage`.
pub mod Copies
pub mod Delivery
use uvpp.Base.{
  zero, suc, ℕ, ◌+◌, Bool, true, false, ◌||◌, not, Option, none, some, List, [], ◌∷◌, ◌++◌, min,
  ◌==◌, if◌then◌else◌, take, ℤ, negsuc, is_neg, is_some,
}
use uvpp.Core.Error.{Errnos, Status, status_from_native}

abbrev pub Bytes : Type 0
Bytes = List ℕ

-- What a pointer points to: the byte at each offset from it. How many of them may be read is said
-- elsewhere.
abbrev pub Memory : Type 0
Memory = ℕ → ℕ

-- The bytes that a copy of some length reads, from an offset on.
unfoldable pub memcpy : Memory → ℕ → ℕ → Bytes
memcpy memory offset zero = []
memcpy memory offset (suc n) = memory offset ∷ memcpy memory (offset + 1) n

-- addrinfo
pub record AddrInfo : Type 0 where
  pub flags : ℕ
  pub family : ℕ
  pub socket_type : ℕ
  pub protocol : ℕ
  pub address_length : ℕ
  pub address : Option Memory
  pub canonical_name : Option Bytes

-- socket_address: the bytes that were put in its storage, and its length.
pub record SocketAddress : Type 0 where
  pub bytes : Bytes
  pub len : ℕ

-- address_info
pub record AddressInfo : Type 0 where
  pub flags : ℕ
  pub family : ℕ
  pub socket_type : ℕ
  pub protocol : ℕ
  pub address_length : ℕ
  pub address : SocketAddress
  pub canonical_name : Bytes

-- copy_socket_address
unfoldable pub copy_socket_address : ℕ → Option Memory → ℕ → SocketAddress
unfolding memcpy
copy_socket_address storage address length = elim address [
  | none ↦ record { bytes = []; len = 0 }
  | some memory ↦
      if length == 0
      then record { bytes = []; len = 0 }
      else record { bytes = memcpy memory 0 (min length storage); len = min length storage }
]

-- addrinfo_view::to_value, for what its pointer points to. An `address_info` that is not filled has
-- the length of the storage in its address.
unfoldable pub to_value : ℕ → Option AddrInfo → AddressInfo
unfolding copy_socket_address
to_value storage none = record {
  flags = 0;
  family = 0;
  socket_type = 0;
  protocol = 0;
  address_length = 0;
  address = record { bytes = []; len = storage };
  canonical_name = [];
}
to_value storage (some a) = record {
  flags = a.flags;
  family = a.family;
  socket_type = a.socket_type;
  protocol = a.protocol;
  address_length = a.address_length;
  address = copy_socket_address storage a.address a.address_length;
  canonical_name = elim a.canonical_name [ none ↦ [] | some n ↦ n ];
}

-- addrinfo_iterator: operator* and operator++
unfoldable pub dereference : List AddrInfo → Option AddrInfo
dereference [] = none
dereference (a ∷ as_next) = some a

unfoldable pub increment : List AddrInfo → List AddrInfo
increment [] = []
increment (a ∷ as_next) = as_next

-- getaddrinfo_result::to_vector: the loop from an iterator to the end.
unfoldable pub append_values : ℕ → List AddrInfo → List AddressInfo → List AddressInfo
unfolding to_value dereference
append_values storage [] out = out
append_values storage (a ∷ as_next) out =
    append_values storage as_next (out ++ to_value storage (dereference (a ∷ as_next)) ∷ [])

unfoldable pub to_vector : ℕ → List AddrInfo → List AddressInfo
unfolding append_values
to_vector storage addresses = append_values storage addresses []

-- getaddrinfo_result: the chain that it owns, by its address; an operation gives the chains that it
-- frees.
pub record GetaddrinfoResult : Type 0 where
  pub status : ℤ
  pub addresses : Option ℕ

abbrev pub freed : Option ℕ → List ℕ
freed none = []
freed (some a) = a ∷ []

-- reset, and the destructor, which resets to null.
unfoldable pub reset : GetaddrinfoResult → Option ℕ → GetaddrinfoResult × List ℕ
reset r addresses = (record r { addresses = addresses }, freed r.addresses)

-- The move constructor: the new result and the one that was moved from.
unfoldable pub move_construct : GetaddrinfoResult → GetaddrinfoResult × GetaddrinfoResult
move_construct other = (other, record other { addresses = none })

-- The move assignment of another result: both, and what is freed.
unfoldable pub move_assign :
    GetaddrinfoResult → GetaddrinfoResult → (GetaddrinfoResult × GetaddrinfoResult) × List ℕ
unfolding reset
move_assign r other = ((other, record other { addresses = none }), (reset r none).1)

-- getaddrinfo_request and getnameinfo_request, whose callbacks are values of `C`.
pub record DnsRequest (C : Type 0) : Type 0 where
  pub callback : Option C
  pub static_callback : Option C
  pub is_pending : Bool

module _ {C : Type 0} where
  abbrev pub new_request : DnsRequest C
  new_request = record { callback = none; static_callback = none; is_pending = false }

  -- submit, with the status of libuv's function.
  unfoldable pub submit : Errnos → DnsRequest C → Option C → ℤ → DnsRequest C × Status
  unfolding status_from_native
  submit e r cb native =
      if r.is_pending
      then (r, status_from_native (negsuc e.ebusy))
      else if not (is_some cb)
      then (r, status_from_native (negsuc e.einval))
      else (
        if is_neg native
            then r
            else record { callback = cb; static_callback = none; is_pending = true },
        status_from_native native,
      )

  -- submit_static
  unfoldable pub submit_static : Errnos → DnsRequest C → C → ℤ → DnsRequest C × Status
  unfolding status_from_native
  submit_static e r cb native = if r.is_pending then (r, status_from_native (negsuc e.ebusy)) else (
    if is_neg native
        then r
        else record { callback = none; static_callback = some cb; is_pending = true },
    status_from_native native,
  )

  -- cancel, with the status of `uv_cancel`.
  unfoldable pub cancel : Errnos → DnsRequest C → ℤ → Status
  unfolding status_from_native
  cancel e r native =
      if r.is_pending then status_from_native native else status_from_native (negsuc e.einval)

  -- complete: the callback that it calls last.
  unfoldable pub complete : DnsRequest C → DnsRequest C × Option C
  complete r = (new_request, elim r.static_callback [ none ↦ r.callback | some c ↦ some c ])
