-- ===== src/FileSystem/Read.antt =====
-- The reading operations of fs.c.
pub mod Loop
pub mod Whole
pub mod File
use kira_zig.Common.{
  ℕ, suc, zero, ◌+◌, ◌-◌, ℤ, pos, negsuc, Bool, true, false, ◌||◌, Option, none, some, List, [],
  ◌∷◌, ◌==◌, ltb, if◌then◌else◌, length, replicate, Bytes,
}
use kira_zig.FileSystem.{
  handle, buffer, Text, Stat, size_of, size_or_0, System, M, pure, ◌>>=◌, ◌>>◌, no_fuel, call, ask,
  u64, off_t, ReadResult, empty_result, buffer_result,
}
use kira_zig.FileSystem.Store.{malloc, free, load_handle, store_handle, store_bytes}

-- `sizeof(fs_file_handle)`.
abbrev pub handle_size : ℕ
handle_size = 4

abbrev pub is_open : Option ℕ → Bool
is_open none = false
is_open (some _) = true

module _ (K : System) where
  -- The test of the descriptor that `open` gave.
  unfoldable pub keep_fd : (a : ℕ) → ℤ → M K.State (Option ℕ)
  unfolding free
  keep_fd a (negsuc n) = do store_handle a (negsuc n); free (some a); pure none
  keep_fd a (pos n) = do store_handle a (pos n); pure (some a)

  abbrev pub open_with : Bytes → Option ℕ → M K.State (Option ℕ)
  open_with path none = pure none
  open_with path (some a) = do keep_fd a (← call (K.open_read path))

  unfoldable pub open_read : Option Bytes → M K.State (Option ℕ)
  unfolding keep_fd malloc
  open_read none = pure none
  open_read (some path) = do open_with path (← malloc K handle_size (handle (pos 0)))

  -- What follows one `read`: the rest of the loop, after `total` bytes.
  unfoldable pub read_next :
      (again : ℕ → M K.State (Option ℕ)) → (a total : ℕ) → Option Bytes → M K.State (Option ℕ)
  unfolding free store_bytes
  read_next again a total none = do free (some a); pure none
  read_next again a total (some []) = pure (some total)
  read_next again a total (some (b ∷ bs)) = do
    store_bytes a total (b ∷ bs)
    again (u64 (total + length (b ∷ bs)))

  -- The loop of `fs_read_all_from_handle`: `total` bytes of `size` are in the buffer at `a`. The
  -- result is `none` if a read failed; the buffer is then freed.
  unfoldable pub read_loop : (fuel : ℕ) → ℤ → (a size total : ℕ) → M K.State (Option ℕ)
  unfolding read_next
  read_loop zero fd a size total = no_fuel
  read_loop (suc fuel) fd a size total =
      let again = λ (n : ℕ). read_loop fuel fd a size n in
      if ltb total size
      then (do read_next again a total (← call (K.read fd (size - total))))
      else pure (some total)

  abbrev pub terminate : (a : ℕ) → Option ℕ → M K.State ReadResult
  terminate a none = pure empty_result
  terminate a (some total) = do store_bytes a total (0 ∷ []); pure (buffer_result (some a) total)

  abbrev pub read_into : ℤ → (size : ℕ) → Option ℕ → M K.State ReadResult
  read_into fd size none = pure empty_result
  read_into fd size (some a) = do terminate a (← read_loop (suc size) fd a size 0)

  abbrev pub read_sized : ℤ → Option ℕ → M K.State ReadResult
  read_sized fd none = pure empty_result
  read_sized fd (some size) = do
    read_into fd size (← malloc K (u64 (size + 1)) (buffer (replicate (size + 1) 0)))

  unfoldable pub read_all_from_handle : Option ℕ → M K.State ReadResult
  unfolding read_loop malloc load_handle store_bytes
  read_all_from_handle none = pure empty_result
  read_all_from_handle (some file) = do
    let fd = (← load_handle file)
    read_sized fd (size_of (← ask (K.fstat fd)))

  unfoldable pub read_all_text_from_handle : Option ℕ → M K.State Text
  unfolding read_all_from_handle
  read_all_text_from_handle file = do let result = (← read_all_from_handle file); pure result.text

  unfoldable pub file_handle_size : Option ℕ → M K.State ℕ
  unfolding load_handle
  file_handle_size none = pure 0
  file_handle_size (some file) = do
    let fd = (← load_handle file)
    pure (size_or_0 (size_of (← ask (K.fstat fd))))

  -- `close(fd)` of a descriptor that is not negative.
  abbrev pub close_fd : ℤ → M K.State (Unit {0})
  close_fd (negsuc _) = pure tt
  close_fd (pos n) = call (λ s. (tt, K.close (pos n) s))

  unfoldable pub close : Option ℕ → M K.State (Unit {0})
  unfolding free load_handle
  close none = pure tt
  close (some file) = do close_fd (← load_handle file); free (some file)

  abbrev pub read_opened : Option ℕ → M K.State ReadResult
  read_opened none = pure empty_result
  read_opened (some file) = do
    let result = (← read_all_from_handle (some file))
    close (some file)
    pure result

  unfoldable pub read_file : Option Bytes → M K.State ReadResult
  unfolding open_read read_all_from_handle close
  read_file path = do read_opened (← open_read path)
