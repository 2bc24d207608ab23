-- ===== src/FileSystem/Query.antt =====
-- The questions about a path, and the operations on a single path, of fs.c.
pub mod Folder
use kira_zig.Common.{ℕ, ℤ, pos, negsuc, Bool, true, false, Option, none, some, Bytes}
use kira_zig.FileSystem.{
  FileType, regular, directory, other, Stat, size_of, size_or_0, MakeResult, made, already_exists,
  refused, System, M, pure, ◌>>=◌, ◌>>◌, call, ask,
}

-- `S_ISREG` and `S_ISDIR` of a status that was had.
abbrev pub is_regular : Option Stat → Bool
is_regular none = false
is_regular (some info) = elim info.mode [ regular ↦ true | _ ↦ false ]

abbrev pub is_dir : Option Stat → Bool
is_dir none = false
is_dir (some info) = elim info.mode [ directory ↦ true | _ ↦ false ]

abbrev pub exists : Option Stat → Bool
exists none = false
exists (some _) = true

module _ (K : System) where
  unfoldable pub file_exists : Option Bytes → M K.State Bool
  file_exists none = pure false
  file_exists (some path) = do pure (is_regular (← ask (K.stat path)))

  unfoldable pub path_exists : Option Bytes → M K.State Bool
  path_exists none = pure false
  path_exists (some path) = do pure (exists (← ask (K.stat path)))

  unfoldable pub is_directory : Option Bytes → M K.State Bool
  is_directory none = pure false
  is_directory (some path) = do pure (is_dir (← ask (K.stat path)))

  unfoldable pub make_answer : Bytes → MakeResult → M K.State Bool
  unfolding is_directory
  make_answer path made = pure true
  make_answer path already_exists = is_directory (some path)
  make_answer path refused = pure false

  unfoldable pub make_directory : Option Bytes → M K.State Bool
  unfolding make_answer
  make_directory none = pure false
  make_directory (some path) = do make_answer path (← call (K.mkdir path))

  unfoldable pub file_size : Option Bytes → M K.State ℕ
  file_size none = pure 0
  file_size (some path) = do pure (size_or_0 (size_of (← ask (K.stat path))))

  unfoldable pub rename_path : (old_path new_path : Option Bytes) → M K.State Bool
  rename_path none new_path = pure false
  rename_path (some old_path) none = pure false
  rename_path (some old_path) (some new_path) = call (K.rename old_path new_path)
