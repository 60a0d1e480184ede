-- ===== src/Fs/Owned/Copies.antt =====
-- What the results of namespace `uv::fs` hold: copies of what libuv had for the request.
use uvpp.Base.{
  ℕ, suc, ◌≡◌, refl, ap, ◌∙◌, sym, some, List, [], ◌∷◌, ◌++◌, map, append-nil, append_assoc,
  if◌then◌else◌, length, take, drop, ℤ, pos, negsuc, is_neg,
}
use uvpp.Fs.Owned.{Bytes, Entry, NativeEntry, entries_of, bytes, copy_entries, copy_entry, scan}
use uvpp.Fs.Owned.Lifetime.{written}

copy_entries_lem :
    (es : List NativeEntry) (n : ℕ) (out : List Entry)
    → copy_entries (suc (length es)) (record { result = pos n; left = es }) out
      ≡ some (out ++ map copy_entry es)
unfolding copy_entries
copy_entries_lem [] n out = ap some (sym (append-nil out))
copy_entries_lem (e ∷ es) n out =
    copy_entries_lem es n (out ++ copy_entry e ∷ [])
    ∙ ap some (append_assoc out (copy_entry e ∷ []) (map copy_entry es))

-- A directory scan, of any number of entries: after a successful one the loop of the callback ends
-- and has a copy of every entry of libuv, in order; after a failed one it has none.
pub scan_lem :
    (r : ℤ) (es : List NativeEntry) → scan r es ≡ (if is_neg r then [] else map copy_entry es)
unfolding scan
scan_lem (pos n) es = ap entries_of (copy_entries_lem es n [])
scan_lem (negsuc n) es = refl

take-append : (xs ys : Bytes) → take (length xs) (xs ++ ys) ≡ xs
take-append [] ys = refl
take-append (x ∷ xs) ys = rw (take-append xs ys)

-- The bytes of a read result, when libuv read as many as it says, are those that it wrote.
pub bytes-written : (bs buffer : Bytes) → bytes (pos (length bs)) (written bs buffer) ≡ bs
unfolding bytes
bytes-written bs buffer = take-append bs (drop (length bs) buffer)
