-- ===== src/FileSystem/Example/Little.antt =====
-- A kernel with a directory of two files, for the test of `fs_remove_path`.
use kira_zig.Common.{
  ℕ, pos, negsuc, Bool, true, false, Option, none, some, List, [], ◌∷◌, ◌++◌, if◌then◌else◌, length,
  get_or, set, Bytes, codes, str_eq,
}
use kira_zig.FileSystem.{FileType, regular, directory, Stat, refused, System}
use kira_zig.FileSystem.Remove.Tree.{Kinds, Dirs}
use kira_zig.FileSystem.Example.{free_address}

-- Whether the directory `d` is there, and its files `a` and `b`; and the open streams.
pub record Folder : Type 0 where
  pub top : Bool
  pub a : Bool
  pub b : Bool
  pub streams : List (Option (List Bytes))

abbrev pub there : Bool → FileType → Option FileType
there true m = some m
there false m = none

unfoldable pub kind_in : Folder → Kinds
unfolding str_eq
kind_in s x =
    if str_eq x (codes "d")
    then there s.top directory
    else if str_eq x (codes "d/a")
    then there s.a regular
    else if str_eq x (codes "d/b")
    then there s.b regular
    else none

unfoldable pub streams_in : List (Option (List Bytes)) → ℕ → Option (List Bytes)
streams_in open_streams n = get_or open_streams n none

abbrev pub all_names : List Bytes
all_names = codes "." ∷ codes ".." ∷ codes "a" ∷ codes "b" ∷ []

-- A file that is not at the path stays.
abbrev pub keep : Bytes → Bytes → Bool → Bool
keep path own b = if str_eq own path then false else b

abbrev pub remove_kind : Bytes → Folder → Folder
remove_kind path s = record s {
  top = keep path (codes "d") s.top;
  a = keep path (codes "d/a") s.a;
  b = keep path (codes "d/b") s.b;
}

abbrev pub info_of : Option FileType → Option Stat
info_of none = none
info_of (some m) = some (record { mode = m; size = pos 0 })

abbrev pub next_of : ℕ → Option (List Bytes) → Folder → Option Bytes × Folder
next_of dir none s = (none, s)
next_of dir (some []) s = (none, s)
next_of dir (some (name ∷ rest)) s =
    (some name, record s { streams = set s.streams dir (some rest) })

unfoldable pub little : System
unfolding kind_in streams_in
little = record {
  State = Folder;
  malloc = λ h size. free_address h;
  realloc = λ h old size. none;
  open_read = λ path s. (negsuc 0, s);
  open_write = λ path s. (negsuc 0, s);
  read = λ fd count s. (none, s);
  pread = λ fd count from s. (none, s);
  write = λ fd bs s. (none, s);
  close = λ fd s. s;
  fstat = λ fd s. none;
  stat = λ path s. none;
  lstat = λ path s. info_of (kind_in s path);
  mkdir = λ path s. (refused, s);
  rename = λ old new s. (false, s);
  unlink = λ path s. (true, remove_kind path s);
  rmdir = λ path s. (true, remove_kind path s);
  opendir =
      λ path s. (some (length s.streams), record s { streams = s.streams ++ some all_names ∷ [] });
  readdir = λ dir s. next_of dir (streams_in s.streams dir) s;
  closedir = λ dir s. record s { streams = set s.streams dir none };
}

unfoldable pub dirs_of : little.State → Dirs
unfolding little kind_in streams_in
dirs_of s = record { kind = kind_in s; streams = streams_in s.streams }
