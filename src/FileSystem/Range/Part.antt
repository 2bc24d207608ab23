-- ===== src/FileSystem/Range/Part.antt =====
-- About `fs_read_range`.
use kira_zig.Common.{
  ℕ, ◌+◌, ◌^◌, ◌≤◌, ◌<◌, ◌≡◌, ◌⊎◌, Option, none, some, ◌++◌, length, take, drop, Bytes,
}
use kira_zig.FileSystem.{buffer, Heap, put, System, Process}
use kira_zig.FileSystem.Disk.{Disk, ReadFailure, IsPosix, with_fd}
use kira_zig.FileSystem.Rules.{Holds}

module _ (K : System) (view : K.State → Disk) (posix : IsPosix K view) (path : Bytes)
    (offset size a : ℕ) (old : Bytes) (d : Disk) (h : Heap) (found : h a ≡ some (buffer old))
    (room : size ≤ length old) (small : offset + size < 2 ^ 63) where
  abbrev rest : Bytes
  rest = drop offset (d.file path)

  -- The buffer with the first `k` bytes of the range.
  abbrev filled : ℕ → Heap
  filled k = put a (some (buffer (take k rest ++ drop k old))) h

  -- The bytes of the range that the file has, and their number; or 0, after a call that failed.
  abbrev pub RangeRead : ℕ → Process K.State → Type 0
  RangeRead r p =
      ((r ≡ length (take size rest))
        × Holds K view d (put a (some (buffer (take size rest ++ drop r old))) h) p)
      ⊎ ((r ≡ 0)
          × ReadFailure K view path d
          × (k : ℕ) × (k ≤ size)
          × Holds K view d (put a (some (buffer (take k rest ++ drop k old))) h) p)

  module _ (n : ℕ) (unused : d.table n ≡ none) where
    abbrev FilledTo : ℕ → Process K.State → Type 0
    FilledTo total p = (total ≤ length rest) × Holds K view (with_fd n path 0 d) (filled total) p

    abbrev Filled : Option ℕ → Process K.State → Type 0
    Filled none p =
        ReadFailure K view path d
        × (k : ℕ) × (k ≤ size)
        × Holds K view (with_fd n path 0 d) (filled k) p
    Filled (some total) p =
        (total ≡ length (take size rest))
        × Holds K view (with_fd n path 0 d)
            (put a (some (buffer (take size rest ++ drop total old))) h) p
