-- ===== src/Process/Options/Passed.antt =====
-- What a child gets of the options that it is spawned with.
use uvpp.Base.{
  ◌≡◌, refl, ap, inl, inr, Option, none, some, List, [], ◌∷◌, ◌++◌, append-nil, append_assoc, ◌∙◌,
  sym, Bool-cases, if◌then◌else◌, length,
}
use uvpp.Process.Options.{
  Options, Stdio, Text, add_argument, add_arguments, c_str, is_empty, passed, pointers,
}

-- What a program reads of an array of pointers that ends with null.
abbrev pub until_null : List (Option Text) → List Text
until_null [] = []
until_null (none ∷ ps) = []
until_null (some t ∷ ps) = t ∷ until_null ps

abbrev pub c_strs : List Text → List Text
c_strs [] = []
c_strs (t ∷ ts) = c_str t ∷ c_strs ts

-- The environment of a child, which is its parent's if it is given none.
abbrev pub child_environment : List Text → Option (List (Option Text)) → List Text
child_environment parent none = parent
child_environment parent (some env) = until_null env

-- The directory that a child starts in.
abbrev pub child_directory : Text → Option Text → Text
child_directory parent none = parent
child_directory parent (some path) = path

abbrev pub child_stdio : Option (List Stdio) → List Stdio
child_stdio none = []
child_stdio (some entries) = entries

until_null-pointers : (ts : List Text) → until_null (pointers ts) ≡ c_strs ts
until_null-pointers [] = refl
until_null-pointers (t ∷ ts) = ap (λ xs. c_str t ∷ xs) (until_null-pointers ts)

child_environment-pointers :
    (ts parent : List Text)
    → child_environment parent (if is_empty (pointers ts) then none else some (pointers ts))
      ≡ c_strs ts
child_environment-pointers [] parent = refl
child_environment-pointers (t ∷ ts) parent = until_null-pointers (t ∷ ts)

child_stdio-some :
    (entries : List Stdio) → child_stdio (if is_empty entries then none else some entries) ≡ entries
child_stdio-some [] = refl
child_stdio-some (x ∷ xs) = refl

-- What a child gets of the native options: for arguments the file and then the arguments, each up
-- to its first zero byte; for its environment that of its parent if this is inherited, and
-- otherwise exactly the entries, also where there are none; the working directory of its parent if
-- none is given; and all stdio entries, with their number. The file, up to its first zero byte,
-- the flags and the ids of user and group are those of the options.
pub child-passed :
    (o : Options) (parent : List Text) (directory : Text)
    → let n = passed o in
      (until_null n.args ≡ c_str o.file ∷ c_strs o.arguments)
      × (child_environment parent n.env
          ≡ (if o.inherit_parent_environment then parent else c_strs o.environment))
      × (child_directory directory n.cwd
          ≡ (if is_empty o.working_directory then directory else c_str o.working_directory))
      × (child_stdio n.stdio ≡ o.stdio_entries)
      × (n.stdio_count ≡ length o.stdio_entries)
      × (n.file ≡ c_str o.file)
      × (n.flags ≡ o.flags)
      × (n.uid ≡ o.uid)
      × (n.gid ≡ o.gid)
unfolding passed
child-passed o parent directory =
    let env = child_environment-pointers o.environment parent in
    (
      ap (λ xs. c_str o.file ∷ xs) (until_null-pointers o.arguments),
      elim (Bool-cases o.inherit_parent_environment) [
        | inl kept ↦ rw (kept) refl
        | inr own ↦ rw (own) env
      ],
      elim (Bool-cases (is_empty o.working_directory)) [
        | inl no_path ↦ rw (no_path) refl
        | inr path ↦ rw (path) refl
      ],
      child_stdio-some o.stdio_entries,
      refl,
      refl,
      refl,
      refl,
      refl,
    )

-- Adding arguments one after the other adds them in order.
pub add_arguments-append :
    (o : Options) (vs : List Text) → add_arguments o vs ≡ record o { arguments = o.arguments ++ vs }
unfolding add_arguments add_argument
add_arguments-append o [] = ap (λ xs. record o { arguments = xs }) (sym (append-nil o.arguments))
add_arguments-append o (v ∷ vs) =
    add_arguments-append (add_argument o v) vs
    ∙ ap (λ xs. record o { arguments = xs }) (append_assoc o.arguments (v ∷ []) vs)
