-- ===== src/Process/Options.antt =====
-- include/uvpp/handles/process.hpp: the options of a raw process, and what `uv_spawn` is given for
-- them. A string is the list of its bytes, an array of pointers that ends with null the list of
-- what they point to, with `none` for null. A stream is its address.
pub mod Passed
pub mod Entries
use uvpp.Base.{
  ℕ, zero, suc, ◌+◌, ◌-◌, ◌^◌, Bool, true, false, not, Option, none, some, List, [], ◌∷◌, ◌++◌, leb,
  ltb, if◌then◌else◌, length,
}
use Prim.Native.Nat.{bit_and, bit_or}

abbrev pub Text : Type 0
Text = List ℕ

-- uv_stdio_container_t. A container of zeros is that of `process_stdio::ignore`.
pub data Stdio : Type 0 where
  ignore : Stdio
  inherit_fd : ℕ → Stdio
  inherit_stream : ℕ → Stdio
  create_pipe : ℕ → ℕ → Stdio

-- process_stdio::readable_pipe, writable_pipe and duplex_pipe, for libuv's two flags.
module _ (readable writable stream : ℕ) where
  unfoldable pub readable_pipe : Stdio
  readable_pipe = create_pipe stream readable

  unfoldable pub writable_pipe : Stdio
  writable_pipe = create_pipe stream writable

  unfoldable pub duplex_pipe : Stdio
  duplex_pipe = create_pipe stream (bit_or readable writable)

-- process_options
pub record Options : Type 0 where
  pub file : Text
  pub arguments : List Text
  pub inherit_parent_environment : Bool
  pub environment : List Text
  pub working_directory : Text
  pub flags : ℕ
  pub uid : ℕ
  pub gid : ℕ
  pub stdio_entries : List Stdio

-- process_options::make
unfoldable pub make : Text → Options
make file = record {
  file = file;
  arguments = [];
  inherit_parent_environment = true;
  environment = [];
  working_directory = [];
  flags = 0;
  uid = 0;
  gid = 0;
  stdio_entries = [];
}

unfoldable pub add_argument : Options → Text → Options
add_argument o value = record o { arguments = o.arguments ++ value ∷ [] }

unfoldable pub add_arguments : Options → List Text → Options
unfolding add_argument
add_arguments o [] = o
add_arguments o (v ∷ vs) = add_arguments (add_argument o v) vs

unfoldable pub cwd : Options → Text → Options
cwd o path = record o { working_directory = path }

unfoldable pub inherit_environment : Options → Options
inherit_environment o = record o { inherit_parent_environment = true; environment = [] }

unfoldable pub empty_environment : Options → Options
empty_environment o = record o { inherit_parent_environment = false; environment = [] }

unfoldable pub add_environment : Options → Text → Options
add_environment o entry = record o {
  inherit_parent_environment = false;
  environment = o.environment ++ entry ∷ [];
}

-- env with a key and a value; '=' is 61.
unfoldable pub add_variable : Options → Text → Text → Options
unfolding add_environment
add_variable o key value = add_environment o (key ++ 61 ∷ value)

unfoldable pub set_process_flag : Options → ℕ → Bool → Options
set_process_flag o flag enable =
    if enable
    then record o { flags = bit_or o.flags flag }
    else record o { flags = o.flags - bit_and o.flags flag }

unfoldable pub set_uid : Options → ℕ → ℕ → Options
unfolding set_process_flag
set_uid o flag value = set_process_flag (record o { uid = value }) flag true

unfoldable pub set_gid : Options → ℕ → ℕ → Options
unfolding set_process_flag
set_gid o flag value = set_process_flag (record o { gid = value }) flag true

-- `resize` of the entries, which never shrinks them here, and the assignment to one.
abbrev pub grow : List Stdio → ℕ → List Stdio
grow entries zero = entries
grow [] (suc n) = ignore ∷ grow [] n
grow (x ∷ xs) (suc n) = x ∷ grow xs n

abbrev pub assign : List Stdio → ℕ → Stdio → List Stdio
assign [] fd entry = []
assign (x ∷ xs) zero entry = entry ∷ xs
assign (x ∷ xs) (suc fd) entry = x ∷ assign xs fd entry

unfoldable pub set_stdio : Options → ℕ → Stdio → Options
set_stdio o fd entry =
    let entries =
      if leb (length o.stdio_entries) fd then grow o.stdio_entries (fd + 1) else o.stdio_entries in
    record o { stdio_entries = assign entries fd entry }

unfoldable pub inherit_stdio : Options → Options
unfolding set_stdio
inherit_stdio o =
    set_stdio (set_stdio (set_stdio o 0 (inherit_fd 0)) 1 (inherit_fd 1)) 2 (inherit_fd 2)

-- What a C string of the bytes holds: those before the first zero.
abbrev pub c_str : Text → Text
c_str [] = []
c_str (zero ∷ bs) = []
c_str (suc b ∷ bs) = suc b ∷ c_str bs

abbrev pub pointers : List Text → List (Option Text)
pointers [] = none ∷ []
pointers (t ∷ ts) = some (c_str t) ∷ pointers ts

-- uv_process_options_t, as far as the options go; `none` is a null pointer.
pub record NativeOptions : Type 0 where
  pub file : Text
  pub args : List (Option Text)
  pub env : Option (List (Option Text))
  pub cwd : Option Text
  pub flags : ℕ
  pub stdio_count : ℕ
  pub stdio : Option (List Stdio)
  pub uid : ℕ
  pub gid : ℕ

abbrev pub is_empty {ℓ} : {A : Type ℓ} → List A → Bool
is_empty [] = true
is_empty (x ∷ xs) = false

-- submit_spawn: the native options.
unfoldable pub passed : Options → NativeOptions
passed o =
    let env : List (Option Text) =
      if not o.inherit_parent_environment then pointers o.environment else [] in
    record {
      file = c_str o.file;
      args = pointers (o.file ∷ o.arguments);
      env = if is_empty env then none else some env;
      cwd = if is_empty o.working_directory then none else some (c_str o.working_directory);
      flags = o.flags;
      stdio_count = length o.stdio_entries;
      stdio = if is_empty o.stdio_entries then none else some o.stdio_entries;
      uid = o.uid;
      gid = o.gid;
    }

-- There are too many entries for an int.
abbrev pub too_many : Options → Bool
too_many o = ltb (2 ^ 31 - 1) (length o.stdio_entries)
