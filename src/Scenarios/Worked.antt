-- ===== src/Scenarios/Worked.antt =====
-- Work and DNS requests, and operations of the filesystem that own their state.
use uvpp.Base.{
  ◌==◌, ℕ, ◌≡◌, ◌⊎◌, refl, true, false, none, some, [], ◌∷◌, ◌++◌, map, pos, if◌then◌else◌, is_neg,
}
use uvpp.Co.Await.{stop_requested}
use uvpp.Core.Error.{returned}
use uvpp.Fs.Owned.{Answer, copy_entry, scan, scandir}
use uvpp.Fs.Owned.Copies.{scan_lem}
use uvpp.Fs.Owned.Lifetime.{Fate, owned_once}
use uvpp.Net.Resolve.{await_resolve, construct}
use uvpp.Net.Resolve.Delivery as Resolve
use uvpp.Requests.Dns.{AddrInfo, Memory, new_request, to_value, to_vector}
use uvpp.Requests.Dns
use uvpp.Requests.Dns.Copies.{Copies, to_vector-Copies}
use uvpp.Requests.Dns.Delivery
use uvpp.Requests.Work.{WorkRequest, new_work}
use uvpp.Requests.Work
use uvpp.Requests.Work.Order
use uvpp.Scenarios.Basics.{linux, calm_registry, one_registered, task}

-- A request that ran work 1 and called its follow-up, and has work 3 queued without one.
abbrev busy_work : Order.Run ℕ
busy_work = record {
  request = record { work = some 3; after = none; is_pending = true };
  stage = Order.queued;
  works = 1 ∷ 3 ∷ [];
  afters = some 2 ∷ none ∷ [];
  settled = Order.was_run 1 ∷ [];
  followed = some 2 ∷ [];
}

busy_work-Reach : Order.Reach linux Order.unused busy_work
unfolding Work.submit Work.run Work.complete
busy_work-Reach =
    Order.next
      (Order.next
        (Order.next (Order.next Order.start (Order.submits 1 (some 2) (pos 0) refl))
          (Order.runs refl))
        (Order.completes refl))
      (Order.submits 3 none (pos 0) refl)

followed_once_example :
    (busy_work.request.is_pending ≡ true)
    × (((true ≡ false) × (busy_work.works ≡ Order.subjects busy_work.settled))
        ⊎ ((true ≡ true)
            × ((c : ℕ) × (busy_work.request.work ≡ some c)
                × (busy_work.works ≡ Order.subjects busy_work.settled ++ c ∷ []))))
    × (((false ≡ false) × (busy_work.afters ≡ busy_work.followed ++ busy_work.request.after ∷ []))
        ⊎ ((false ≡ true)
            × (busy_work.afters ≡ busy_work.followed)
            × (busy_work.request.work ≡ none)
            × (busy_work.request.after ≡ none)))
followed_once_example = Order.followed_once linux busy_work busy_work-Reach

-- A request that called callback 1 and is pending with callback 2, a static one.
abbrev busy_dns : Delivery.Run ℕ
busy_dns = record {
  request = record { callback = none; static_callback = some 2; is_pending = true };
  accepted = 1 ∷ 2 ∷ [];
  called = some 1 ∷ [];
}

busy_dns-Reach : Delivery.Reach linux Delivery.unused busy_dns
unfolding Dns.submit Dns.submit_static Dns.complete
busy_dns-Reach =
    Delivery.next
      (Delivery.next (Delivery.next Delivery.start (Delivery.submits 1 (pos 0)))
        (Delivery.completes refl))
      (Delivery.submits_static 2 (pos 0))

delivered_once_example :
    ((true ≡ true)
      × (some 1 ∷ some 2 ∷ [] ≡ busy_dns.called ++ (Dns.complete busy_dns.request).1 ∷ []))
    ⊎ ((true ≡ false) × (some 1 ∷ some 2 ∷ [] ≡ busy_dns.called))
delivered_once_example = Delivery.delivered_once linux busy_dns busy_dns-Reach

abbrev loopback_memory : Memory
loopback_memory offset = if offset == 0 then 127 else if offset == 3 then 1 else 0

-- An address of which libuv says that it has nine, for a storage of eight.
abbrev loopback : AddrInfo
loopback = record {
  flags = 0;
  family = 2;
  socket_type = 1;
  protocol = 6;
  address_length = 9;
  address = some loopback_memory;
  canonical_name = none;
}

to_vector-Copies_example : Copies 8 (loopback ∷ []) (to_vector 8 (loopback ∷ []))
to_vector-Copies_example = to_vector-Copies 8 (loopback ∷ [])

resolve_delivered_example :
    Resolve.Fate linux 8 task
      (construct (some (97 ∷ [])) none none)
      (loopback ∷ [])
      (pos 0)
      (some one_registered)
      0
      (await_resolve linux
        (Resolve.awaiting (construct (some (97 ∷ [])) none none) (some calm_registry))
        task
        (pos 0))
      (stop_requested
        (Resolve.awaiting (construct (some (97 ∷ [])) none none) (some calm_registry)))
      (pos 0)
resolve_delivered_example =
    Resolve.resolve_delivered linux 8 task (some (97 ∷ [])) none none (loopback ∷ []) (pos 0)
      (pos 0) (some calm_registry) (some one_registered) 0 (refl, tt) refl

-- A directory with the entries "a" and one without a name.
abbrev two_entries : Answer ℕ ℕ
two_entries = record {
  result = pos 2;
  ptr = none;
  path = none;
  statbuf = none;
  statfs = none;
  entries = record { name = some (97 ∷ []); type = 1 } ∷ record { name = none; type = 0 } ∷ [];
}

scan_lem_example :
    scan two_entries.result two_entries.entries
    ≡ (if is_neg two_entries.result then [] else map copy_entry two_entries.entries)
scan_lem_example = scan_lem two_entries.result two_entries.entries

owned_once_example : Fate {C = ℕ} scandir two_entries 5 [] two_entries [] (returned (pos 0))
owned_once_example = owned_once scandir two_entries 5 [] two_entries [] (returned (pos 0))
