-- ===== src/FileSystem/Write/Back.antt =====
-- About `fs_write_file`, and reading the file back by `fs_read_file`.
use kira_zig.Common.{ℕ, ◌^◌, ◌<◌, Bool, true, false, some, length, Bytes, if◌then◌else◌}
use kira_zig.FileSystem.{Heap, System, Process, ReadResult, empty_result, M, pure, ◌>>=◌}
use kira_zig.FileSystem.Disk.{Disk, WriteFailure, IsPosix, IsAllocator, Progresses, with_file}
use kira_zig.FileSystem.Read.{read_file}
use kira_zig.FileSystem.Read.File.{FileRead}
use kira_zig.FileSystem.Write.{write_file}

-- The file is written, and read if that succeeded.
unfoldable pub write_then_read :
    (K : System) → (fuel : ℕ) → (path text : Bytes) → M K.State (Bool × ReadResult)
unfolding write_file read_file
write_then_read K fuel path text = do
  let written = (← write_file K fuel (some path) (some text))
  if written then (do pure (true, (← read_file K (some path)))) else pure (false, empty_result)

module _ (K : System) (view : K.State → Disk) (posix : IsPosix K view) (allocator : IsAllocator K)
    (progresses : Progresses K) (path text : Bytes) (small : length text < 2 ^ 64) (d : Disk)
    (h : Heap) where
  abbrev saved_text : Disk
  saved_text = with_file path text d

  -- The text came back, or a call failed.
  abbrev pub ReadBack : Bool × ReadResult → Process K.State → Type 0
  ReadBack (true, r) p = FileRead K view posix allocator path text saved_text h r p
  ReadBack (false, r) p = WriteFailure K view path d
