-- ===== src/FileSystem/Remove.antt =====
-- `fs_remove_path` of fs.c.
pub mod Tree
pub mod Child
pub mod Round
pub mod Known
pub mod Gone
use kira_zig.Common.{
  ℕ, zero, suc, ◌+◌, Bool, true, false, Option, none, some, ◌++◌, if◌then◌else◌, length, Bytes,
  codes,
}
use kira_zig.FileSystem.{buffer, Stat, System, M, pure, ◌>>=◌, ◌>>◌, no_fuel, call, ask, u64}
use kira_zig.FileSystem.Store.{malloc, free, c_string}
use kira_zig.FileSystem.Query.{is_dir, exists}
use kira_zig.FileSystem.Listing.{is_dots}

-- The path that `snprintf` prints.
abbrev pub child_path : (path name : Bytes) → Bytes
child_path path name = path ++ (codes "/" ++ name)

module _ (K : System) where
  -- The child goes, if there was memory for its path.
  abbrev pub remove_child : (remove : M K.State Bool) → Option ℕ → M K.State (Unit {0})
  remove_child remove none = pure tt
  remove_child remove (some a) = do remove; free (some a)

  abbrev pub remove_entry : (remove : M K.State Bool) → (path name : Bytes) → M K.State (Unit {0})
  remove_entry remove path name =
      malloc K (u64 (length path + 1 + length name + 1)) (buffer (c_string (child_path path name)))
      >>= remove_child remove

  -- One round of the loop over the stream `dir`: `again` is the rest of the loop, `remove` the
  -- recursive call.
  unfoldable pub remove_next :
      (again : M K.State (Unit {0}))
      → (remove : Bytes → M K.State Bool) → (path : Bytes) → Option Bytes
      → M K.State (Unit {0})
  unfolding malloc free is_dots
  remove_next again remove path none = pure tt
  remove_next again remove path (some name) =
      if is_dots name
      then again
      else (do remove_entry (remove (child_path path name)) path name; again)

  abbrev pub empty_opened : (loop : ℕ → M K.State (Unit {0})) → Option ℕ → M K.State (Unit {0})
  empty_opened loop none = pure tt
  empty_opened loop (some dir) = do loop dir; call (λ s. (tt, K.closedir dir s))

  -- What is done with a path whose status was had.
  abbrev pub remove_known :
      (loop : ℕ → M K.State (Unit {0})) → (path : Bytes) → (is_directory : Bool) → M K.State Bool
  remove_known loop path true = do empty_opened loop (← call (K.opendir path)); call (K.rmdir path)
  remove_known loop path false = call (K.unlink path)

  abbrev pub remove_if_exists : (known : Bool → M K.State Bool) → Option Stat → M K.State Bool
  remove_if_exists known none = pure false
  remove_if_exists known (some info) = known (is_dir (some info))

  unfoldable mutual
    unfolding remove_next

    pub remove_below : (fuel : ℕ) → Bytes → M K.State Bool
    remove_below zero path = no_fuel
    remove_below (suc fuel) path =
        ask (K.lstat path) >>= remove_if_exists (remove_known (remove_loop fuel path) path)

    pub remove_loop : (fuel : ℕ) → (path : Bytes) → (dir : ℕ) → M K.State (Unit {0})
    remove_loop zero path dir = no_fuel
    remove_loop (suc fuel) path dir =
        call (K.readdir dir) >>= remove_next (remove_loop fuel path dir) (remove_below fuel) path

  unfoldable pub remove_path : (fuel : ℕ) → Option Bytes → M K.State Bool
  unfolding remove_below
  remove_path fuel none = pure false
  remove_path fuel (some path) = remove_below fuel path
