-- ===== src/Net/PipeConnection/Adopt.antt =====
-- What the loop over the native queue of a pipe takes over.
use uvpp.Base.{
  ℕ, ◌≡◌, refl, sym, ap, ◌∙◌, ◌≢◌, ◌⊎◌, inl, inr, Bool, true, false, ◌&&◌, ◌||◌, not, List, [], ◌∷◌,
  ◌++◌, map, append-nil, append_assoc, arith, Bool-cases, All, pos, is_neg,
}
use uvpp.Core.Error.{Errnos}
use uvpp.Net.PipeConnection.{
  Handle, Pending, waiting, broken, Incoming, Receiver, adopt_pending_tcp, is_missing, missing,
  ending, spare,
}

abbrev pub is_ending : Incoming → Bool
is_ending ending = true
is_ending _ = false

abbrev pub is_filled : List Handle → Bool
is_filled [] = false
is_filled _ = true

-- A handle that libuv handed over as a TCP connection.
pub record IsAdopted (h : Handle) : Type 0 where
  pub tcp : h.is_tcp ≡ true
  pub initialised : is_neg h.init ≡ false
  pub accepted : is_neg h.accept ≡ false

-- The receiver `t` and the result `done` after the loop over `ps` from the receiver `r`: `hs` were
-- taken over, and `left` was not.
pub record Adopts (ps : List Pending) (r t : Receiver) (adopted done : Bool) : Type 0 where
  pub hs : List Handle
  pub left : List Pending
  pub split : ps ≡ map waiting hs ++ left
  pub good : All IsAdopted hs
  pub order : t.received ≡ r.received ++ map (λ h. h.connection) hs
  pub bytes : t.bytes ≡ r.bytes
  pub kept : (t.discarded ≡ r.discarded) × (t.child_waiter ≡ r.child_waiter)
  pub child : (is_ending r.incoming || not (is_ending t.incoming)) ≡ true
  pub settled :
      ((left ≡ [])
        × (t.status ≡ pos 0)
        × (done ≡ (adopted || is_filled hs))
        × (t.close_pipe ≡ r.close_pipe))
      ⊎ ((left ≢ []) × (is_neg t.status ≡ true) × (done ≡ true) × (t.close_pipe ≡ true))

-- A loop that stops at its first entry.
stops :
    (p : Pending) (ps : List Pending) (r t : Receiver) (adopted : Bool)
    → t.received ≡ r.received
    → t.bytes ≡ r.bytes
    → (t.discarded ≡ r.discarded) × (t.child_waiter ≡ r.child_waiter)
    → (is_ending r.incoming || not (is_ending t.incoming)) ≡ true
    → is_neg t.status ≡ true
    → t.close_pipe ≡ true
    → Adopts (p ∷ ps) r t adopted true
stops p ps r t adopted o b k c n q = record {
  hs = [];
  left = p ∷ ps;
  split = refl;
  good = tt;
  order = o ∙ sym (append-nil r.received);
  bytes = b;
  kept = k;
  child = c;
  settled = inr (ground arith);
}

-- A loop that takes its first entry over, and then does what it does with the others.
goes_on :
    (h : Handle) (ps : List Pending) (r t : Receiver) (adopted done : Bool)
    → IsAdopted h
    → Adopts ps
        (record r {
          status = h.accept;
          incoming = missing;
          received = r.received ++ h.connection ∷ [];
        })
        t
        true
        done
    → Adopts (waiting h ∷ ps) r t adopted done
goes_on h ps r t adopted done g v = record {
  hs = h ∷ v.hs;
  left = v.left;
  split = ap (λ xs. waiting h ∷ xs) v.split;
  good = (g, v.good);
  order = v.order ∙ append_assoc r.received (h.connection ∷ []) (map (λ x. x.connection) v.hs);
  bytes = v.bytes;
  kept = v.kept;
  child = ground (arith, v.child);
  settled = elim v.settled [
    | inl (e, i, d, c) ↦ inl (e, i, ground (arith, d), c)
    | inr (e, i, d, c) ↦ inr (e, i, d, c)
  ];
}

-- The loop over the native queue takes handles over from the front of the queue, in its order, each
-- of them a TCP handle that was initialised and accepted. It goes on to the end of the queue with
-- the status 0, and then reports whether it or an earlier one took anything over; or it stops at an
-- entry with an error, and then reports success and has the pipe closed. The count of bytes is left
-- alone, and no owner is destroyed.
pub adopt_pending_tcp_lem :
    (e : Errnos) (ps : List Pending) (r : Receiver) (adopted : Bool)
    → let (t, done) = adopt_pending_tcp e ps r adopted in Adopts ps r t adopted done
unfolding adopt_pending_tcp
adopt_pending_tcp_lem e [] r adopted = record {
  hs = [];
  left = [];
  split = refl;
  good = tt;
  order = sym (append-nil r.received);
  bytes = refl;
  kept = (refl, refl);
  child = ground arith;
  settled = inl (refl, refl, ground arith, refl);
}
adopt_pending_tcp_lem e (broken n ∷ ps) r adopted =
    stops (broken n) ps r _ adopted refl refl (refl, refl) (ground arith) refl refl
adopt_pending_tcp_lem e (waiting h ∷ ps) r adopted = elim (Bool-cases h.is_tcp) [
  | inr other ↦
      simp other (stops (waiting h) ps r _ adopted refl refl (refl, refl) (ground arith) refl refl)
  | inl tcp ↦ elim (Bool-cases h.room) [
    | inr full ↦
        simp (tcp, full)
          (stops (waiting h) ps r _ adopted refl refl (refl, refl) (ground arith) refl refl)
    | inl room ↦ elim (Bool-cases (is_missing r.incoming && not h.made)) [
      | inl full ↦
          simp (tcp, room, full)
            (stops (waiting h) ps r _ adopted refl refl (refl, refl) (ground arith) refl refl)
      | inr made ↦ elim (Bool-cases (is_neg h.init)) [
        | inl failed ↦
            simp (tcp, room, made, failed)
              (stops (waiting h) ps r _ adopted refl refl (refl, refl) (ground arith) failed refl)
        | inr initialised ↦ elim (Bool-cases (is_neg h.accept)) [
          | inl failed ↦
              simp (tcp, room, made, initialised, failed)
                (stops (waiting h) ps r _ adopted refl refl (refl, refl) (ground arith) failed refl)
          | inr accepted ↦
              simp (tcp, room, made, initialised, accepted)
                (goes_on h ps r _ adopted _
                  (record { tcp = tcp; initialised = initialised; accepted = accepted })
                  (adopt_pending_tcp_lem e ps _ true))
        ]
      ]
    ]
  ]
]

some_taken :
    (p : Pending) (ps left : List Pending) (hs : List Handle) (received : List ℕ)
    → p ∷ ps ≡ map waiting hs ++ left
    → left ≡ []
    → received ≡ map (λ h. h.connection) hs
    → (is_filled hs ≡ true) × (received ≢ [])
some_taken p ps left [] received i l o = ground arith
some_taken p ps left (h ∷ hs) received i l o = ground arith

-- What the loop does for a receive that has taken nothing over yet.
pub adopt_first :
    (e : Errnos) (ps : List Pending) (r : Receiver)
    → r.incoming ≡ spare
    → r.received ≡ []
    → let (t, done) = adopt_pending_tcp e ps r false in
      (t.bytes ≡ r.bytes)
      × (t.discarded ≡ r.discarded)
      × (t.child_waiter ≡ r.child_waiter)
      × (is_ending t.incoming ≡ false)
      × (((done ≡ false) × (t ≡ record r { status = pos 0 }))
          ⊎ ((done ≡ true)
              × (((is_neg t.status ≡ false) × (t.received ≢ []) × (t.close_pipe ≡ r.close_pipe))
                  ⊎ ((is_neg t.status ≡ true) × (t.close_pipe ≡ true)))))
unfolding adopt_pending_tcp
adopt_first e [] r i n = (refl, refl, refl, ground arith, inl (refl, refl))
adopt_first e (p ∷ ps) r i n =
    let v = adopt_pending_tcp_lem e (p ∷ ps) r false in
    (
      v.bytes,
      v.kept.0,
      v.kept.1,
      ground (arith, v.child),
      inr (elim v.settled [
        | inl (l, z, d, c) ↦
            (let (f, t) =
                some_taken p ps v.left v.hs _ v.split l
                  (v.order ∙ ap (λ xs. xs ++ map (λ h. h.connection) v.hs) n) in
              (d ∙ f, inl (rw z refl, t, c)))
        | inr (l, z, d, c) ↦ (d, inr (z, c))
      ]),
    )
