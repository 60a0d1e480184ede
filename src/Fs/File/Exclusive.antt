-- ===== src/Fs/File/Exclusive.antt =====
-- The native operations of an opened file: any number of tasks read, write and close it, in any
-- order, and their callbacks come in any order.
use uvpp.Base.{
  ℕ, ◌+◌, ◌-◌, ◌≤◌, ◌≡◌, ◌≢◌, ◌⊎◌, inl, inr, Bool, true, false, ◌&&◌, ◌||◌, not, Option, some, List,
  [], ◌∷◌, ◌++◌, append_assoc, arith, if◌then◌else◌, Bool-cases, ℤ, pos, negsuc, is_neg,
}
use uvpp.Co.Await.{Awaiter, Caller}
use uvpp.Co.Cancellation.Spec.{Registry}
use uvpp.Core.Error.{Errnos, returned}
use uvpp.Fs.Request.{Op}
use uvpp.Fs.File.{
  File, FileIo, Closer, await_read, await_write, await_close, complete_read, complete_write,
  complete_close, is_open, new_file, opened,
}
use uvpp.Detail.OwnerClose.{idle}
use uvpp.Fs.Scandir.{loop}

-- A file with its native requests: those that libuv has, and how many closes it was given in all.
-- `closers` are the tasks that a close suspended, the newest first, `closed` those that were
-- resumed, and `resuming` those that the callback of the close is about to resume.
pub record Run : Type 0 where
  pub file : File
  pub reads : ℕ
  pub writes : ℕ
  pub closes : ℕ
  pub submitted : ℕ
  pub closers : List ℕ
  pub resuming : List ℕ
  pub closed : List ℕ

abbrev pub only : Bool → ℕ
only b = if b then 1 else 0

abbrev pub io : File → Awaiter Op → Option Registry → FileIo
io f a g = record { source = some f; awaiter = a; cancel = g }

module _ (e : Errnos) where
  pub data Step (r : Run) : Run → Type 0 where
    reads :
        (a : Awaiter Op) (g : Option Registry) (c : Caller) (empty : Bool) (native : ℤ) (v : FileIo)
        (f : File) (suspended : Bool)
        → await_read e (io r.file a g) c empty native ≡ returned (v, suspended)
        → v.source ≡ some f
        → Step r (record r { file = f; reads = r.reads + only suspended })
    read_ends :
        (a : Awaiter Op) (g : Option Registry) (c : Caller) (status : ℤ) (f : File)
        → r.reads ≢ 0
        → (complete_read (io r.file a g) c status).0.source ≡ some f
        → Step r (record r { file = f; reads = r.reads - 1 })
    writes :
        (a : Awaiter Op) (g : Option Registry) (c : Caller) (empty : Bool) (native : ℤ) (v : FileIo)
        (f : File) (suspended : Bool)
        → await_write e (io r.file a g) c empty native ≡ returned (v, suspended)
        → v.source ≡ some f
        → Step r (record r { file = f; writes = r.writes + only suspended })
    write_ends :
        (a : Awaiter Op) (g : Option Registry) (c : Caller) (status : ℤ) (f : File)
        → r.writes ≢ 0
        → (complete_write (io r.file a g) c status).0.source ≡ some f
        → Step r (record r { file = f; writes = r.writes - 1 })
    closes :
        (a b : Closer) (loop h : ℕ) (native : ℤ) (f : File) (suspended : Bool)
        → await_close e r.file a loop h native ≡ returned ((f, b), suspended)
        → Step r (record r {
          file = f;
          closes = r.closes + only (suspended && not r.file.close_active);
          submitted = r.submitted + only (suspended && not r.file.close_active);
          closers = if suspended then h ∷ r.closers else r.closers;
        })
    close_ends :
        (status : ℤ)
        → r.closes ≢ 0
        → Step r (record r {
          file = (complete_close r.file status).0;
          closes = r.closes - 1;
          resuming = (complete_close r.file status).1;
        })
    resumes :
        (h : ℕ) (rest : List ℕ)
        → r.resuming ≡ h ∷ rest
        → Step r (record r { resuming = rest; closed = r.closed ++ h ∷ [] })

  pub data Reach (r : Run) : Run → Type 0 where
    start : Reach r r
    next : {m n : Run} → Reach r m → Step m n → Reach r n

  record Inv (r : Run) : Type 0 where
    reading : r.reads ≡ only r.file.read_active
    writing : r.writes ≡ only r.file.write_active
    closing : r.closes ≡ only r.file.close_active
    total : r.submitted ≡ only (r.file.close_active || r.file.close_complete)
    apart :
        ((r.file.close_active || r.file.close_complete)
          && (r.file.read_active || r.file.write_active))
        ≡ false
    phase : (r.file.close_active && r.file.close_complete) ≡ false
    before :
        r.file.close_complete ≡ false
        → (r.closers ≡ r.file.waiters) × (r.resuming ≡ []) × (r.closed ≡ [])
    after :
        r.file.close_complete ≡ true
        → (r.closers ≡ r.closed ++ r.resuming)
          × (r.file.waiters ≡ [])
          × (is_neg r.file.descriptor ≡ true)
    live : r.file.close_complete ≡ false → is_neg r.file.descriptor ≡ false
    none_waits : (r.file.close_active || r.file.close_complete) ≡ false → r.file.waiters ≡ []

  Step-Inv : {r q : Run} → Step r q → Inv r → Inv q
  unfolding await_read await_write await_close complete_read complete_write complete_close
  Step-Inv {r} (reads a g c empty native v f b h i) w = ground arith
  Step-Inv {r} (read_ends a g c status f n h) w = ground arith
  Step-Inv {r} (writes a g c empty native v f b h i) w = ground arith
  Step-Inv {r} (write_ends a g c status f n h) w = ground arith
  Step-Inv {r} (closes a b loop h native f s i) w = ground arith
  Step-Inv {r} (close_ends status n) w = ground arith
  Step-Inv {r} (resumes h rest i) w = ground (arith, append_assoc r.closed (h ∷ []) rest)

  Reach-Inv : {r q : Run} → Reach r q → Inv r → Inv q
  Reach-Inv start v = v
  Reach-Inv (next p s) v = Step-Inv s (Reach-Inv p v)

  -- A file as its open leaves it for its owner.
  abbrev pub fresh : ℕ → ℕ → Run
  fresh loop descriptor = record {
    file = opened (record new_file { loop = some loop }) (pos descriptor);
    reads = 0;
    writes = 0;
    closes = 0;
    submitted = 0;
    closers = [];
    resuming = [];
    closed = [];
  }

  fresh-Inv : (loop descriptor : ℕ) → Inv (fresh loop descriptor)
  fresh-Inv loop descriptor = ground arith

  -- From an opened file, after any reads, writes, closes and callbacks: libuv has at most one read
  -- and one write of the file, exactly while the file says so; libuv has taken at most one close of
  -- it ever; and while the close is with libuv, or after it, there is no read and no write.
  pub close_excludes_io :
      (loop descriptor : ℕ) (r : Run)
      → Reach (fresh loop descriptor) r
      → (r.reads ≡ only r.file.read_active)
        × (r.writes ≡ only r.file.write_active)
        × (r.closes ≤ r.submitted)
        × (r.submitted ≤ 1)
        × ((r.submitted ≡ 0) ⊎ ((r.reads ≡ 0) × (r.writes ≡ 0)))
  close_excludes_io loop descriptor r p =
      let v = Reach-Inv p (fresh-Inv loop descriptor) in
      elim (Bool-cases (r.file.close_active || r.file.close_complete)) [
        | inl on ↦
            (v.reading, v.writing, ground arith, ground arith, inr (ground arith, ground arith))
        | inr off ↦ (v.reading, v.writing, ground arith, ground arith, inl (ground arith))
      ]

  -- From an opened file, after any reads, writes, closes and callbacks: the tasks that a close
  -- suspended all wait until the callback of the close comes, and none was resumed; or it has come,
  -- the file is not open any more, and those tasks, the newest first, are the ones that were
  -- resumed followed by the ones that are still to be: each is resumed once.
  pub closers_resumed_once :
      (loop descriptor : ℕ) (r : Run)
      → Reach (fresh loop descriptor) r
      → ((r.file.close_complete ≡ false) × (r.closers ≡ r.file.waiters) × (r.closed ≡ []))
        ⊎ ((r.file.close_complete ≡ true)
            × (is_open r.file ≡ false)
            × (r.closers ≡ r.closed ++ r.resuming))
  unfolding is_open
  closers_resumed_once loop descriptor r p =
      let v = Reach-Inv p (fresh-Inv loop descriptor) in
      elim (Bool-cases r.file.close_complete) [
        | inl on ↦ (let (q, i, k) = v.after on in inr (on, ground arith, q))
        | inr off ↦ (let (q, i, k) = v.before off in inl (off, q, k))
      ]

  -- From an opened file, after any reads, writes, closes and callbacks, a close that does not
  -- suspend its task leaves the file as it is, and the file's waiters too, also when the native
  -- call failed; then either the file is closed and the status is that of the close, or a read or a
  -- write is active and the status is UV_EBUSY, or the native call failed with the status.
  pub close_refused :
      (loop descriptor : ℕ) (r : Run) (a b : Closer) (on h : ℕ) (native : ℤ) (f : File)
      → Reach (fresh loop descriptor) r
      → await_close e r.file a on h native ≡ returned ((f, b), false)
      → (f ≡ r.file)
        × (((r.file.close_complete ≡ true) × (b.status ≡ r.file.close_status))
            ⊎ (((r.reads + r.writes ≢ 0) × (b.status ≡ negsuc e.ebusy))
                ⊎ ((is_neg native ≡ true) × (b.status ≡ native))))
  unfolding await_close
  close_refused loop descriptor r a b on h native f p i =
      let v = Reach-Inv p (fresh-Inv loop descriptor) in
      elim (Bool-cases r.file.close_complete) [
        | inl on ↦ (ground arith, inl (ground arith))
        | inr off ↦ elim (Bool-cases (r.file.read_active || r.file.write_active)) [
          | inl busy ↦ (ground arith, inr (inl (ground arith)))
          | inr idle ↦ (ground arith, inr (inr (ground arith)))
        ]
      ]
