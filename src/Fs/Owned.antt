-- ===== src/Fs/Owned.antt =====
-- include/uvpp/fs/operations.hpp: the functions of namespace `uv::fs`, each of which puts a request
-- and the caller's callback in a state on the heap, hands the request to libuv, and calls the callback
-- with a result that holds copies. A string is the list of its bytes, and a null pointer is `none`;
-- `S` is `uv_stat_t`, `F` is `uv_statfs_t`, and `C` are the callbacks.
pub mod Copies
pub mod Lifetime
use uvpp.Base.{
  ℕ, zero, suc, ◌+◌, ◌*◌, Bool, true, false, not, Option, none, some, List, [], ◌∷◌, ◌++◌,
  if◌then◌else◌, length, take, ℤ, pos, negsuc, is_neg,
}
use uvpp.Core.Error.{
  Outcome, Status, returned, status_from_native, status_ok, status_throw_if_error, thrown,
}
use uvpp.Fs.Scandir.{Scandir, next_entry}

abbrev pub Bytes : Type 0
Bytes = List ℕ

-- uv_dirent_t, and `directory_entry` of namespace `uv::fs`.
pub record NativeEntry : Type 0 where
  pub name : Option Bytes
  pub type : ℕ

pub record Entry : Type 0 where
  pub name : Bytes
  pub type : ℕ

-- What the accessors of a request give.
pub record Answer (S F : Type 0) : Type 0 where
  pub result : ℤ
  pub ptr : Option Bytes
  pub path : Option Bytes
  pub statbuf : Option S
  pub statfs : Option F
  pub entries : List NativeEntry

-- The result classes. The fields of a stat that is not copied are zero, `none` here.
pub data Output (S F : Type 0) : Type 0 where
  status_result : ℤ → Output S F
  open_result : ℤ → Output S F
  byte_count_result : ℤ → Output S F
  read_result : ℤ → Bytes → Output S F
  stat_result : ℤ → Option S → Output S F
  path_result : ℤ → Bytes → Output S F
  temp_file_result : ℤ → Bytes → Output S F
  statfs_result : ℤ → Option F → Output S F
  scandir_result : ℤ → List Entry → Output S F

-- The operations, by what they do at their end: `path_of_ptr` are realpath and readlink,
-- `path_of_request` is mkdtemp, `temp_file` mkstemp.
pub data Kind : Type 0 where
  status open_file byte_count read_owned write_copy stat statfs path_of_ptr path_of_request
        temp_file scandir :
      Kind

-- byte_count_result::count and read_result::count
unfoldable pub count : ℤ → ℕ
count r = elim r [ pos n ↦ n | negsuc n ↦ 0 ]

-- read_result::bytes
unfoldable pub bytes : ℤ → Bytes → Bytes
unfolding count
bytes r buffer = take (count r) buffer

-- path_result::path and temp_file_result::path of a raw result.
unfoldable pub raw_path : ℤ → Option Bytes → Bytes
raw_path r path = if is_neg r then [] else elim path [ none ↦ [] | some p ↦ p ]

-- The constructor of a raw directory entry, and the copy that is kept.
unfoldable pub copy_entry : NativeEntry → Entry
copy_entry e = record { name = elim e.name [ none ↦ [] | some n ↦ n ]; type = e.type }

-- The loop of scandir's callback, on fuel.
unfoldable pub copy_entries : ℕ → Scandir NativeEntry → List Entry → Option (List Entry)
unfolding next_entry copy_entry
copy_entries zero s out = none
copy_entries (suc fuel) s out = elim (next_entry s).1 [
  | none ↦ some out
  | some e ↦ copy_entries fuel (next_entry s).0 (out ++ copy_entry e ∷ [])
]

abbrev pub entries_of : Option (List Entry) → List Entry
entries_of none = []
entries_of (some es) = es

-- The scan of a request: one unit of fuel more than it has entries.
unfoldable pub scan : ℤ → List NativeEntry → List Entry
unfolding copy_entries
scan r es =
    if is_neg r
    then []
    else entries_of (copy_entries (suc (length es)) (record { result = r; left = es }) [])

module _ {S F : Type 0} where
  -- The accessors of the result classes. A descriptor that is not valid is `none`.
  unfoldable pub raw : Output S F → ℤ
  raw (status_result r) = r
  raw (open_result r) = r
  raw (byte_count_result r) = r
  raw (read_result r buffer) = r
  raw (stat_result r s) = r
  raw (path_result r path) = r
  raw (temp_file_result r path) = r
  raw (statfs_result r s) = r
  raw (scandir_result r entries) = r

  unfoldable pub ok : Output S F → Bool
  unfolding raw
  ok o = not (is_neg (raw o))

  unfoldable pub raw_status : Output S F → ℤ
  unfolding raw
  raw_status o = if is_neg (raw o) then raw o else pos 0

  -- open_result::file and temp_file_result::file
  unfoldable pub file_of : Output S F → Option ℕ
  unfolding raw
  file_of o = elim (raw o) [ pos n ↦ some n | negsuc n ↦ none ]

-- The state on the heap: `slot` says that the request has a callback. `faults` counts the accesses of
-- the state after it was deleted.
pub record Owned (S F C : Type 0) : Type 0 where
  pub answer : Answer S F
  pub slot : Bool
  pub callback : Option C
  pub buffer : Bytes
  pub live : Bool
  pub cleanups : ℕ
  pub deletes : ℕ
  pub faults : ℕ

module _ {S F : Type 0} where
  -- The results that the callbacks make of a raw result.
  unfoldable pub output : Kind → Answer S F → Bytes → Output S F
  unfolding raw_path scan
  output status a buffer = status_result a.result
  output open_file a buffer = open_result a.result
  output byte_count a buffer = byte_count_result a.result
  output read_owned a buffer = read_result a.result buffer
  output write_copy a buffer = byte_count_result a.result
  output stat a buffer = stat_result a.result (if is_neg a.result then none else a.statbuf)
  output statfs a buffer = statfs_result a.result a.statfs
  output path_of_ptr a buffer = path_result a.result (raw_path a.result a.ptr)
  output path_of_request a buffer = path_result a.result (raw_path a.result a.path)
  output temp_file a buffer = temp_file_result a.result (raw_path a.result a.path)
  output scandir a buffer = scandir_result a.result (scan a.result a.entries)

  -- What a cleaned request still gives.
  abbrev pub freed : Answer S F → Answer S F
  freed a = record a { ptr = none; path = none; statfs = none; entries = [] }

module _ {S F C : Type 0} where
  abbrev pub touch : Owned S F C → Owned S F C
  touch s = record s { faults = s.faults + (if s.live then 0 else 1) }

  -- callback_state, and the states of read_owned and write_copy.
  abbrev pub allocate : Answer S F → C → Bytes → Owned S F C
  allocate fresh c buffer = record {
    answer = fresh;
    slot = false;
    callback = some c;
    buffer = buffer;
    live = true;
    cleanups = 0;
    deletes = 0;
    faults = 0;
  }

  -- request::cleanup
  unfoldable pub cleanup : Owned S F C → Owned S F C
  cleanup s = record (touch s) { cleanups = s.cleanups + 1; answer = freed s.answer }

  -- cleanup_guard::cleanup, for a guard that has a request or none; its destructor does the same.
  unfoldable pub guard_cleanup : Bool → Owned S F C → Bool × Owned S F C
  unfolding cleanup
  guard_cleanup active s = if active then (false, cleanup s) else (false, s)

  abbrev pub delete : Owned S F C → Owned S F C
  delete s = record (touch s) { live = false; deletes = s.deletes + 1 }

  -- detail::set_callback
  unfoldable pub set_callback : Owned S F C → Owned S F C
  set_callback s = record (touch s) { slot = true }

  -- detail::submit of namespace `uv::raw::fs`
  unfoldable pub submit : Owned S F C → ℤ → Owned S F C × Status
  unfolding status_from_native
  submit s native =
      (if is_neg native then record (touch s) { slot = false } else s, status_from_native native)

  -- A raw operation: it throws before libuv is called, or has the answer of libuv's function.
  unfoldable pub raw_operation : Owned S F C → Outcome ℤ → Owned S F C × Outcome Status
  unfolding set_callback submit
  raw_operation s (thrown x) = (s, thrown x)
  raw_operation s (returned native) =
      let (t, answered) = submit (set_callback s) native in (t, returned answered)

  -- submit_owned
  unfoldable pub submit_owned : Owned S F C → Outcome ℤ → Owned S F C × Outcome (Unit {0})
  unfolding raw_operation status_ok status_throw_if_error cleanup
  submit_owned s call =
      let (t, submitted) = raw_operation s call in
      elim submitted [
        | thrown x ↦ (delete t, thrown x)
        | returned answered ↦
            (if status_ok answered
              then (t, returned tt)
              else (delete (cleanup t), status_throw_if_error answered))
      ]

  -- finish_status and its like, and the callbacks that are written out: the callback that is called
  -- and its result. The guard's destructor runs last.
  unfoldable pub finish : Kind → Owned S F C → Owned S F C × Option (C × Output S F)
  unfolding guard_cleanup output
  finish kind s =
      let callback = s.callback in
      let out = output kind s.answer s.buffer in
      let (active, t) = guard_cleanup true (record (touch s) { callback = none }) in
      let (over, u) = guard_cleanup active (delete t) in
      (u, elim callback [ none ↦ none | some c ↦ some (c, out) ])

  -- trampoline and request::invoke, which moves the callback out of the request first.
  unfoldable pub invoke : Kind → Owned S F C → Owned S F C × Option (C × Output S F)
  unfolding finish
  invoke kind s = if s.slot then finish kind (record (touch s) { slot = false }) else (s, none)
