-- ===== src/Fs/Scandir.antt =====
-- include/uvpp/fs/result.hpp, `scandir_result`: an input range over the entries that libuv still has
-- for a request. An entry is a value of `E`; `directory_entry` is what the code makes of one.
use uvpp.Base.{
  ℕ, zero, suc, ◌+◌, ◌≡◌, refl, ap, Bool, true, false, ◌&&◌, not, Option, none, some, List, [], ◌∷◌,
  ◌==◌, if◌then◌else◌, length, ℤ, pos, negsuc, is_neg,
}

-- `left` are the entries that `uv_fs_scandir_next` has still to give.
pub record Scandir (E : Type 0) : Type 0 where
  pub result : ℤ
  pub left : List E

-- scandir_result::iterator; `attached` says that its result is not null.
pub record Iterator (E : Type 0) : Type 0 where
  pub attached : Bool
  pub index : ℕ
  pub entry : Option E

module _ {E : Type 0} where
  -- scandir_result::count
  unfoldable pub count : Scandir E → ℕ
  count s = elim s.result [ pos n ↦ n | negsuc n ↦ 0 ]

  -- scandir_result::next: the entry, where there is one.
  unfoldable pub next_entry : Scandir E → Scandir E × Option E
  next_entry s =
      if is_neg s.result
      then (s, none)
      else elim s.left [ [] ↦ (s, none) | x ∷ xs ↦ (record s { left = xs }, some x) ]

  -- iterator::operator++
  unfoldable pub increment : Scandir E → Iterator E → Scandir E × Iterator E
  unfolding next_entry
  increment s i =
      if not i.attached
      then (s, i)
      else (let (t, x) = next_entry s in
          elim x [
            | none ↦ (t, record i { attached = false })
            | some y ↦ (t, record i { index = i.index + 1; entry = some y })
          ])

  -- scandir_result::begin and scandir_result::end
  unfoldable pub first : Scandir E → Scandir E × Iterator E
  unfolding increment
  first s = increment s (record { attached = true; index = 0; entry = none })

  unfoldable pub past : Iterator E
  past = record { attached = false; index = 0; entry = none }

  -- operator== of two iterators of one result.
  unfoldable pub equal : Iterator E → Iterator E → Bool
  equal a b = elim a.attached [ false ↦ not b.attached | true ↦ b.attached && a.index == b.index ]

  abbrev pub before :
      Option E → Option (Scandir E × List (Option E)) → Option (Scandir E × List (Option E))
  before x none = none
  before x (some v) = some (v.0, x ∷ v.1)

  -- The loop of a range-based `for`, on fuel: the entries that it visits.
  unfoldable pub loop : ℕ → Scandir E → Iterator E → Option (Scandir E × List (Option E))
  unfolding increment equal past
  loop zero s i = none
  loop (suc fuel) s i =
      let (t, j) = increment s i in
      let rest = loop fuel t j in if equal i past then some (s, []) else before i.entry rest

  unfoldable pub visit : ℕ → Scandir E → Option (Scandir E × List (Option E))
  unfolding first loop
  visit fuel s = let (t, i) = first s in loop fuel t i

  abbrev pub given : List E → List (Option E)
  given [] = []
  given (x ∷ xs) = some x ∷ given xs

  loop_lem :
      (xs : List E) (n index : ℕ) (x : E)
      → loop
          (suc (suc (length xs)))
          (record { result = pos n; left = xs })
          (record { attached = true; index = index; entry = some x })
        ≡ some (record { result = pos n; left = [] }, given (x ∷ xs))
  unfolding loop increment equal past next_entry
  loop_lem [] n index x = refl
  loop_lem (y ∷ ys) n index x =
      ap {B = Option (Scandir E × List (Option E))} (before (some x)) (loop_lem ys n (index + 1) y)

  visits :
      (r : ℤ) (xs : List E)
      → visit (suc (length xs)) (record { result = r; left = xs }) ≡ (
          if is_neg r
          then some (record { result = r; left = xs }, [])
          else some (record { result = r; left = [] }, given xs))
  unfolding visit first increment next_entry loop equal past
  visits (negsuc n) [] = refl
  visits (negsuc n) (x ∷ xs) = refl
  visits (pos n) [] = refl
  visits (pos n) (x ∷ xs) = loop_lem xs n 1 x

  -- The loop over a scan ends, with one unit of fuel more than it has entries: after a successful
  -- scan it visits each entry once, in order, and nothing is left; after a failed one it visits
  -- nothing and leaves the request alone.
  pub visit_lem :
      (s : Scandir E)
      → visit (suc (length s.left)) s
        ≡ (if is_neg s.result then some (s, []) else some (record s { left = [] }, given s.left))
  visit_lem s = visits s.result s.left
