-- ===== src/Detail/AsyncClose/Life.antt =====
-- The life of an owner's native state under the close protocol: the public owner may request close,
-- wait for it and be released at any time, from a resumed coroutine too; libuv calls the close
-- callback once for the native close that a request began.
use uvpp.Base.{
  ℕ, ◌+◌, ◌≡◌, Bool, true, false, ◌&&◌, not, Option, List, [], ◌∷◌, arith, if◌then◌else◌,
}
use uvpp.Detail.AsyncClose.{
  CloseState, add_waiter, begin, can_destroy_now, closed, complete_begin, complete_end, fresh,
  is_closed, is_closing, is_opened, owner_released, set_callback_waiter,
}

-- Outside a completion, or inside one with the handles that are still to be resumed.
pub data Pc : Type 0 where
  quiet : Pc
  resuming : List ℕ → Pc

-- `native` is set while libuv owes the close callback; `deleted` counts the deletions.
pub record Life : Type 0 where
  pub close : CloseState
  pub native : Bool
  pub pc : Pc
  pub deleted : ℕ

-- `release_owner` of the owner families: it closes an open state, and deletes a closed one unless
-- its completion is still running.
unfoldable pub release_owner : Life → Life
unfolding owner_released begin can_destroy_now
release_owner l =
    let c = owner_released l.close in
    if is_opened c.phase
    then record l { close = (begin c).0; native = true }
    else if can_destroy_now c
    then record l { close = c; deleted = l.deleted + 1 }
    else record l { close = c }

-- `request_close` of the owner families, without what they quiesce.
unfoldable pub request_close : Life → Life
unfolding begin
request_close l =
    let (c, begun) = begin l.close in if begun then record l { close = c; native = true } else l

-- One step. What goes through the public owner needs that it is not released.
pub data Step (l : Life) : Life → Type 0 where
  requests : l.close.released ≡ false → Step l (request_close l)
  waits :
      (h : Option ℕ)
      → l.close.released ≡ false
      → Step l (record l { close = (add_waiter l.close h).0 })
  waits_in_callback :
      (h : Option ℕ) → l.native ≡ true → Step l (record l { close = set_callback_waiter l.close h })
  releases : l.close.released ≡ false → Step l (release_owner l)
  completes :
      l.native ≡ true
      → l.pc ≡ quiet
      → Step l (record l {
        close = (complete_begin l.close).0;
        native = false;
        pc = resuming (complete_begin l.close).1;
      })
  resumes :
      (h : ℕ) (rest : List ℕ)
      → l.pc ≡ resuming (h ∷ rest)
      → Step l (record l { pc = resuming rest })
  ends :
      l.pc ≡ resuming []
      → Step l (record l {
        close = (complete_end l.close).0;
        pc = quiet;
        deleted = if (complete_end l.close).1 then l.deleted + 1 else l.deleted;
      })

pub data Reach (l : Life) : Life → Type 0 where
  here : Reach l l
  next : {m n : Life} → Reach l m → Step m n → Reach l n

unfoldable pub born : Life
unfolding fresh
born = record { close = fresh; native = false; pc = quiet; deleted = 0 }

abbrev pub is_quiet : Pc → Bool
is_quiet quiet = true
is_quiet _ = false

-- The state is gone exactly when it is closed, its owner released and no completion running.
abbrev pub is_gone : Life → Bool
is_gone l = l.close.released && (is_closed l.close.phase && is_quiet l.pc)

pub record Inv (l : Life) : Type 0 where
  pub counted : l.deleted ≡ (if is_gone l then 1 else 0)
  pub owed : l.native ≡ (is_closing l.close && not (is_closed l.close.phase))
  pub active : l.close.completion_active ≡ not (is_quiet l.pc)
  pub after_close : is_quiet l.pc ≡ false → l.close.phase ≡ closed

Step-Inv : {l m : Life} → Step l m → Inv l → Inv m
unfolding request_close release_owner add_waiter set_callback_waiter complete_begin complete_end
Step-Inv {l} (requests r) v = ground arith
Step-Inv {l} (waits h r) v = ground arith
Step-Inv {l} (waits_in_callback h n) v = ground arith
Step-Inv {l} (releases r) v = ground arith
Step-Inv {l} (completes n q) v = ground arith
Step-Inv {l} (resumes h rest q) v = ground arith
Step-Inv {l} (ends q) v = ground arith

Reach-Inv : {l m : Life} → Reach l m → Inv l → Inv m
Reach-Inv here v = v
Reach-Inv (next r st) v = Step-Inv st (Reach-Inv r v)

born-Inv : Inv born
unfolding born
born-Inv = ground arith

-- From its construction on, in any order of requests, waits, releases and close callbacks, the
-- native state is deleted at most once: it has been deleted exactly when it is closed, its owner
-- is released and no completion is running, and that is never so while libuv owes the close
-- callback.
pub delete_once :
    (l : Life)
    → Reach born l
    → (l.deleted ≡ (if is_gone l then 1 else 0)) × ((l.native && is_gone l) ≡ false)
delete_once l r = let v = Reach-Inv r born-Inv in (v.counted, ground arith)
