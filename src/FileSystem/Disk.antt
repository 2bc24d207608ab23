-- ===== src/FileSystem/Disk.antt =====
-- What fs.c relies on: an abstract disk that the kernel implements, and the allocator.
use kira_zig.Common.{
  ℕ, ◌+◌, ◌^◌, ◌≤◌, ◌<◌, ◌≡◌, ◌≢◌, ℤ, pos, negsuc, Option, none, some, List, [], ◌∷◌, ◌++◌,
  if◌then◌else◌, length, take, drop, Bytes, str_eq,
}
use kira_zig.FileSystem.{Heap, put, regular, Stat, size_of, System}

-- An open file: the path that it was opened with, and the position.
pub record Descriptor : Type 0 where
  pub path : Bytes
  pub offset : ℕ

-- The contents of the file at each path, and the open files.
pub record Disk : Type 0 where
  pub file : Bytes → Bytes
  pub table : ℕ → Option Descriptor

unfoldable pub with_file : (path bytes : Bytes) → Disk → Disk
with_file path bytes d = record d { file = λ x. if str_eq x path then bytes else d.file x }

unfoldable pub with_fd : ℕ → (path : Bytes) → (offset : ℕ) → Disk → Disk
with_fd n path offset d = record d {
  table = put n (some (record { path = path; offset = offset })) d.table;
}

unfoldable pub without_fd : ℕ → Disk → Disk
without_fd n d = record d { table = put n none d.table }

-- From a disk, the outcomes of an `open` that gives a new descriptor of the disk `d'`.
abbrev pub Opened : (path : Bytes) → (d d' : Disk) → ℤ → Disk → Type 0
Opened path d d' (negsuc _) e = e ≡ d
Opened path d d' (pos n) e = (d.table n ≡ none) × (e ≡ with_fd n path 0 d')

-- A read of `count` bytes from `from` on; `d'` is the disk after so many bytes were read. Where it
-- fails the position is left open.
abbrev pub ReadAt :
    (bytes : Bytes) → (from count : ℕ) → (d' : ℕ → Disk) → Option Bytes → Disk → Type 0
ReadAt bytes from count d' none e = (k : ℕ) × (e ≡ d' k)
ReadAt bytes from count d' (some bs) e =
    (length bs ≤ count)
    × (bs ≡ take (length bs) (drop from bytes))
    × (bs ≡ [] → 0 < count → length bytes ≤ from)
    × (e ≡ d' (length bs))

-- A write of `bs` at the end of the file.
abbrev pub Written : Bytes → (d' : (k k' : ℕ) → Disk) → Option ℕ → Disk → Type 0
Written bs d' none e = (k : ℕ) × (e ≡ d' 0 k)
Written bs d' (some k) e = (k ≤ length bs) × (e ≡ d' k k)

-- From some address on nothing is allocated.
abbrev pub IsFinite : Heap → Type 0
IsFinite h = (n : ℕ) × ((x : ℕ) → n ≤ x → h x ≡ none)

-- A `malloc` that failed though it had room: only finitely many addresses were taken.
pub data OutOfMemory (K : System) : Type 0 where
  out_of_memory : (h : Heap) (size : ℕ) → IsFinite h → K.malloc h size ≡ none → OutOfMemory K

-- A `malloc` or `realloc` that failed though it had room.
pub data AllocFailure (K : System) : Type 0 where
  no_block : OutOfMemory K → AllocFailure K
  no_array :
      (h : Heap) (old : Option ℕ) (size : ℕ)
      → IsFinite h
      → K.realloc h old size ≡ none
      → AllocFailure K

-- A call that failed while the directory at `path` of the disk `d` was listed.
pub data ListFailure (K : System) (view : K.State → Disk) (path : Bytes) (d : Disk) : Type 0 where
  no_space : AllocFailure K → ListFailure K view path d
  cannot_list : (s : K.State) → view s ≡ d → (K.opendir path s).0 ≡ none → ListFailure K view path d

-- A call that failed while the file at `path` of the disk `d` was written: the kernel showed this disk,
-- or the disk with some contents of this file.
pub data WriteFailure (K : System) (view : K.State → Disk) (path : Bytes) (d : Disk) : Type 0 where
  cannot_create :
      (s : K.State) (n : ℕ)
      → view s ≡ d
      → (K.open_write path s).0 ≡ negsuc n
      → WriteFailure K view path d
  cannot_write :
      (n offset : ℕ) (old bs : Bytes) (s : K.State)
      → view s ≡ with_fd n path offset (with_file path old d)
      → (K.write (pos n) bs s).0 ≡ none
      → WriteFailure K view path d

-- A call that failed while the file at `path` of the disk `d` was read: the kernel showed this disk,
-- with the file open or not.
pub data ReadFailure (K : System) (view : K.State → Disk) (path : Bytes) (d : Disk) : Type 0 where
  no_room : OutOfMemory K → ReadFailure K view path d
  cannot_open :
      (s : K.State) (n : ℕ)
      → view s ≡ d
      → (K.open_read path s).0 ≡ negsuc n
      → ReadFailure K view path d
  cannot_size :
      (n : ℕ) (s : K.State)
      → view s ≡ with_fd n path 0 d
      → size_of (K.fstat (pos n) s) ≡ none
      → ReadFailure K view path d
  cannot_read :
      (n offset count : ℕ) (s : K.State)
      → view s ≡ with_fd n path offset d
      → (K.read (pos n) count s).0 ≡ none
      → ReadFailure K view path d
  cannot_read_at :
      (n count from : ℕ) (s : K.State)
      → view s ≡ with_fd n path 0 d
      → (K.pread (pos n) count (pos from) s).0 ≡ none
      → ReadFailure K view path d

-- The kernel implements the disk that `view` shows, while no other process writes to it.
pub record IsPosix (K : System) (view : K.State → Disk) : Type 0 where
  pub open_read :
      (path : Bytes) (s : K.State)
      → Opened path (view s) (view s) (K.open_read path s).0 (view (K.open_read path s).1)
  pub open_write :
      (path : Bytes) (s : K.State)
      → Opened path
          (view s)
          (with_file path [] (view s))
          (K.open_write path s).0
          (view (K.open_write path s).1)
  pub read :
      (n count : ℕ) (path : Bytes) (offset : ℕ) (d : Disk) (s : K.State)
      → view s ≡ with_fd n path offset d
      → ReadAt
          (d.file path)
          offset
          count
          (λ k. with_fd n path (offset + k) d)
          (K.read (pos n) count s).0
          (view (K.read (pos n) count s).1)
  pub pread :
      (n count from : ℕ) (path : Bytes) (offset : ℕ) (d : Disk) (s : K.State)
      → view s ≡ with_fd n path offset d
      → ReadAt
          (d.file path)
          from
          count
          (λ k. with_fd n path offset d)
          (K.pread (pos n) count (pos from) s).0
          (view (K.pread (pos n) count (pos from) s).1)
  pub write :
      (n : ℕ) (bs path : Bytes) (d : Disk) (s : K.State)
      → view s ≡ with_fd n path (length (d.file path)) d
      → Written bs
          (λ k k'.
            with_fd n path
              (length (d.file path) + k')
              (with_file path (d.file path ++ take k bs) d))
          (K.write (pos n) bs s).0
          (view (K.write (pos n) bs s).1)
  pub close : (n : ℕ) (s : K.State) → view (K.close (pos n) s) ≡ without_fd n (view s)
  pub fstat :
      (n : ℕ) (path : Bytes) (offset : ℕ) (d : Disk) (s : K.State) (info : Stat)
      → view s ≡ with_fd n path offset d
      → K.fstat (pos n) s ≡ some info
      → info.mode ≡ regular
      → info.size ≡ pos (length (d.file path))
  pub off_t_size :
      (n size : ℕ) (s : K.State) (info : Stat)
      → K.fstat (pos n) s ≡ some info
      → info.size ≡ pos size
      → size < 2 ^ 63

-- A call that is asked to write something writes something, or fails.
abbrev pub Progresses : System → Type 0
Progresses K = (n : ℕ) (bs : Bytes) (s : K.State) → bs ≢ [] → (K.write (pos n) bs s).0 ≢ some 0

-- The allocator gives addresses where nothing is.
pub record IsAllocator (K : System) : Type 0 where
  pub malloc : (h : Heap) (size a : ℕ) → K.malloc h size ≡ some a → h a ≡ none
  pub realloc_new : (h : Heap) (size a : ℕ) → K.realloc h none size ≡ some a → h a ≡ none
  pub realloc_old :
      (h : Heap) (old size a : ℕ) → K.realloc h (some old) size ≡ some a → put old none h a ≡ none

-- Directory streams: `names` are the entries of a directory, `stream` those that a stream has left.
-- They are read without errors, and the files do not change.
pub record IsStream (K : System) (view : K.State → Disk) (names : Bytes → K.State → List Bytes)
    (stream : ℕ → K.State → List Bytes) : Type 0 where
  pub opendir :
      (path : Bytes) (s : K.State) (dir : ℕ)
      → (K.opendir path s).0 ≡ some dir
      → stream dir (K.opendir path s).1 ≡ names path s
  pub readdir_end : (dir : ℕ) (s : K.State) → stream dir s ≡ [] → (K.readdir dir s).0 ≡ none
  pub readdir_next :
      (dir : ℕ) (s : K.State) (name : Bytes) (rest : List Bytes)
      → stream dir s ≡ name ∷ rest
      → ((K.readdir dir s).0 ≡ some name) × (stream dir (K.readdir dir s).1 ≡ rest)
  pub opendir-view : (path : Bytes) (s : K.State) → view (K.opendir path s).1 ≡ view s
  pub readdir-view : (dir : ℕ) (s : K.State) → view (K.readdir dir s).1 ≡ view s
  pub closedir-view : (dir : ℕ) (s : K.State) → view (K.closedir dir s) ≡ view s
