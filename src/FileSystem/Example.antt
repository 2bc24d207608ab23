-- ===== src/FileSystem/Example.antt =====
-- A small kernel and allocator for the tests of the file system library: it delivers and takes two
-- bytes at a time.
pub mod Calls
pub mod Laws
pub mod Little
pub mod Streams
pub mod Tree
use kira_zig.Common.{
  ℕ, suc, ◌+◌, ◌-◌, ◌^◌, ◌≤◌, ◌<◌, ◌≡◌, ◌≢◌, refl, sym, ap, ◌∙◌, min, ℤ, pos, negsuc, Bool, true,
  false, Option, none, some, List, [], ◌∷◌, ◌++◌, ltb, ltb→lt, if◌then◌else◌, arith, length,
  length-take, length-drop, take, drop, take-take, Bytes, codes, Bool-cases,
}
use kira_zig.FileSystem.{
  Object, Heap, put, regular, directory, Stat, size_of, MakeResult, made, already_exists, System,
}
use kira_zig.FileSystem.Disk.{
  Descriptor, Disk, Opened, ReadAt, Written, IsPosix, IsAllocator, IsStream, Progresses, with_file,
  with_fd, without_fd,
}
use kira_zig.FileSystem.Cells.{put_self, put-put}
use kira_zig.FileSystem.Query.Folder.{IsMkdir}

-- A disk, whether the directory is there, and what its stream has left.
pub record Machine : Type 0 where
  pub disk : Disk
  pub folder : Bool
  pub stream : List Bytes

abbrev pub free_of : List ℕ → Heap → Option ℕ
free_of [] h = none
free_of (a ∷ as') h = elim (h a) [ none ↦ some a | some _ ↦ free_of as' h ]

abbrev pub free_address : Heap → Option ℕ
free_address = free_of (16 ∷ 32 ∷ 48 ∷ 64 ∷ 80 ∷ [])

abbrev pub listed_names : List Bytes
listed_names = codes "." ∷ codes "a.txt" ∷ codes ".." ∷ codes "b" ∷ []

abbrev pub on_disk : Machine → Disk → Machine
on_disk m d = record m { disk = d }

-- One descriptor is given out at a time.
unfoldable pub open_on : Bytes → Disk → Machine → ℤ × Machine
unfolding with_fd
open_on path d m = elim (m.disk.table 3) [
  | none ↦ (pos 3, on_disk m (with_fd 3 path 0 d))
  | some _ ↦ (negsuc 0, m)
]

abbrev pub chunk_at : Bytes → (from count : ℕ) → Bytes
chunk_at bytes from count = take (min 2 count) (drop from bytes)

abbrev pub read_entry : ℕ → (count : ℕ) → Option Descriptor → Machine → Option Bytes × Machine
read_entry n count none m = (none, m)
read_entry n count (some e) m =
    let bs = chunk_at (m.disk.file e.path) e.offset count in
    (some bs, on_disk m (with_fd n e.path (e.offset + length bs) m.disk))

abbrev pub pread_entry : (count from : ℕ) → Option Descriptor → Machine → Option Bytes × Machine
pread_entry count from none m = (none, m)
pread_entry count from (some e) m = (some (chunk_at (m.disk.file e.path) from count), m)

abbrev pub write_entry : ℕ → Bytes → Option Descriptor → Machine → Option ℕ × Machine
write_entry n bs none m = (none, m)
write_entry n bs (some e) m =
    let k = min 2 (length bs) in
    (
      some k,
      on_disk m (
          with_fd n e.path (e.offset + k)
            (with_file e.path (m.disk.file e.path ++ take k bs) m.disk)),
    )

abbrev pub status : Option Descriptor → Disk → Option Stat
status none d = none
status (some e) d =
    if ltb (length (d.file e.path)) (2 ^ 63)
    then some (record { mode = regular; size = pos (length (d.file e.path)) })
    else none

abbrev pub next_name : List Bytes → Machine → Option Bytes × Machine
next_name [] m = (none, m)
next_name (name ∷ rest) m = (some name, record m { stream = rest })

abbrev pub folder_status : Bool → Option Stat
folder_status true = some (record { mode = directory; size = pos 0 })
folder_status false = none

abbrev pub make_folder : Bool → Machine → MakeResult × Machine
make_folder true m = (already_exists, m)
make_folder false m = (made, record m { folder = true })

unfoldable pub small : System
unfolding open_on with_fd without_fd with_file put
small = record {
  State = Machine;
  malloc = λ h size. free_address h;
  realloc = λ h old size. elim old [ none ↦ free_address h | some a ↦ free_address (put a none h) ];
  open_read = λ path m. open_on path m.disk m;
  open_write = λ path m. open_on path (with_file path [] m.disk) m;
  read = λ fd count m. elim fd [
    | pos n ↦ read_entry n count (m.disk.table n) m
    | negsuc _ ↦ (none, m)
  ];
  pread = λ fd count from m. elim fd [
    | pos n ↦ elim from [ pos k ↦ pread_entry count k (m.disk.table n) m | negsuc _ ↦ (none, m) ]
    | negsuc _ ↦ (none, m)
  ];
  write = λ fd bs m. elim fd [ pos n ↦ write_entry n bs (m.disk.table n) m | negsuc _ ↦ (none, m) ];
  close = λ fd m. elim fd [ pos n ↦ on_disk m (without_fd n m.disk) | negsuc _ ↦ m ];
  fstat = λ fd m. elim fd [ pos n ↦ status (m.disk.table n) m.disk | negsuc _ ↦ none ];
  stat = λ path m. folder_status m.folder;
  lstat = λ path m. folder_status m.folder;
  mkdir = λ path m. make_folder m.folder m;
  rename = λ old new m. (false, m);
  unlink = λ path m. (false, m);
  rmdir = λ path m. (false, m);
  opendir = λ path m. (some 1, record m { stream = listed_names });
  readdir = λ dir m. next_name m.stream m;
  closedir = λ dir m. m;
}

unfoldable pub disk_of : small.State → Disk
unfolding small
disk_of m = m.disk
