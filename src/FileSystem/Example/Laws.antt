-- ===== src/FileSystem/Example/Laws.antt =====
-- The small kernel of the tests is one as the file system library expects it.
use mathlib.Core.Option.{some-injective}
use mathlib.Core.Path.{subst}
use kira_zig.Common.{
  ℕ, ◌+◌, ◌≡◌, ◌≢◌, refl, ap, min, pos, Bool, true, false, Option, none, some, List, [], ◌∷◌, ◌++◌,
  arith, length, take, drop, Bytes,
}
use kira_zig.FileSystem.{Object, Heap, put, regular, Stat, made, already_exists}
use kira_zig.FileSystem.Disk.{
  Descriptor, Disk, ReadAt, Written, IsPosix, IsAllocator, IsStream, Progresses, with_file, with_fd,
}
use kira_zig.FileSystem.Query.{is_dir}
use kira_zig.FileSystem.Query.Folder.{IsMkdir}
use kira_zig.FileSystem.Example.{
  Machine, free_of, listed_names, chunk_at, read_entry, pread_entry, write_entry, status, next_name,
  folder_status, make_folder, small, disk_of,
}
use kira_zig.FileSystem.Example.Calls.{
  chunk_end, chunk_fits, open_on-Opened, seen, status-file, status-size, take-length, with_fd-file,
  with_fd-with_fd,
}

pub free_of-fresh : (as' : List ℕ) (h : Heap) (a : ℕ) → free_of as' h ≡ some a → h a ≡ none
free_of-fresh [] h a e = cc
free_of-fresh (b ∷ as') h a e = split (h b) refl e (free_of-fresh as' h a)
  where
    split :
        (o : Option Object)
        → h b ≡ o
        → (elim o [ none ↦ some b | some _ ↦ free_of as' h ]) ≡ some a
        → (free_of as' h ≡ some a → h a ≡ none)
        → h a ≡ none
    split none at_b e rest = subst (λ x. h x ≡ none) (some-injective _ _ e) at_b
    split (some c) at_b e rest = rest e

pub small-IsAllocator : IsAllocator small
unfolding small
small-IsAllocator = record {
  malloc = λ h size a e. free_of-fresh (16 ∷ 32 ∷ 48 ∷ 64 ∷ 80 ∷ []) h a e;
  realloc_new = λ h size a e. free_of-fresh (16 ∷ 32 ∷ 48 ∷ 64 ∷ 80 ∷ []) h a e;
  realloc_old = λ h old size a e. free_of-fresh (16 ∷ 32 ∷ 48 ∷ 64 ∷ 80 ∷ []) (put old none h) a e;
}

pub small-IsPosix : IsPosix small disk_of
unfolding small disk_of with_fd
small-IsPosix = record {
  open_read = λ path m. open_on-Opened path m.disk m;
  open_write = λ path m. open_on-Opened path (with_file path [] m.disk) m;
  read = λ n count path offset d m e.
      seen
        (λ o m.
          ReadAt (d.file path) offset count (λ k. with_fd n path (offset + k) d)
            (read_entry n count o m).0 (Machine.disk (read_entry n count o m).1))
        n path offset d m e
        (
          chunk_fits (d.file path) offset count,
          take-length (min 2 count) (drop offset (d.file path)),
          chunk_end (d.file path) offset count,
          with_fd-with_fd n path (offset + length (chunk_at (d.file path) offset count)) offset d,
        );
  pread = λ n count from path offset d m e.
      seen
        (λ o m.
          ReadAt (d.file path) from count (λ k. with_fd n path offset d)
            (pread_entry count from o m).0 (Machine.disk (pread_entry count from o m).1))
        n path offset d m e
        (
          chunk_fits (d.file path) from count,
          take-length (min 2 count) (drop from (d.file path)),
          chunk_end (d.file path) from count,
          refl,
        );
  write = λ n bs path d m e.
      seen
        (λ o m.
          Written bs
            (λ k k'.
              with_fd n path (length (d.file path) + k')
                (with_file path (d.file path ++ take k bs) d))
            (write_entry n bs o m).0 (Machine.disk (write_entry n bs o m).1))
        n path (length (d.file path)) d m e
        (
          omega arith,
          with_fd-file n path (d.file path ++ take (min 2 (length bs)) bs)
              (length (d.file path) + min 2 (length bs)) (length (d.file path)) d,
        );
  close = λ n m. refl;
  fstat = λ n path offset d m info e had is.
      (status-file (record { path = path; offset = offset }) d info
        (seen
          (λ o m.
            (status o m.disk ≡ some info)
            → status (some (record { path = path; offset = offset })) d ≡ some info)
          n path offset d m e (λ had. had) had)).0;
  off_t_size = λ n size m info had is. status-size (m.disk.table n) m.disk info size had is;
}

pub small-Progresses : Progresses small
unfolding small
small-Progresses n bs m nonempty = split (m.disk.table n)
  where
    split : (o : Option Descriptor) → (write_entry n bs o m).0 ≢ some 0
    split none e = cc
    split (some x) e =
        let nothing : min 2 (length bs) ≡ 0 = some-injective _ _ e in by_length bs nonempty nothing
      where
        by_length : (bs : Bytes) → bs ≢ [] → ¬ (min 2 (length bs) ≡ 0)
        by_length [] ne none_left = ne refl
        by_length (b ∷ bs) ne none_left = omega arith

abbrev pub names_on : Bytes → small.State → List Bytes
names_on path m = listed_names

unfoldable pub stream_of : ℕ → small.State → List Bytes
unfolding small
stream_of dir m = m.stream

pub small-IsStream : IsStream small disk_of names_on stream_of
unfolding small disk_of stream_of
small-IsStream = record {
  opendir = λ path m dir e. refl;
  readdir_end = λ dir m e. ap (λ ns. (next_name ns m).0) e;
  readdir_next = λ dir m name rest e.
      (ap (λ ns. (next_name ns m).0) e, ap (λ ns. Machine.stream (next_name ns m).1) e);
  opendir-view = λ path m. refl;
  readdir-view = λ dir m. same_disk m.stream m;
  closedir-view = λ dir m. refl;
}
  where
    same_disk : (ns : List Bytes) (m : Machine) → Machine.disk (next_name ns m).1 ≡ m.disk
    same_disk [] m = refl
    same_disk (name ∷ rest) m = refl

pub small-IsMkdir : IsMkdir small
unfolding small
small-IsMkdir = record {
  new = λ path m e. new m.folder m e;
  old = λ path m e. old m.folder m refl e;
  again = λ path m e. again m.folder m e;
}
  where
    new :
        (b : Bool) (m : Machine)
        → (make_folder b m).0 ≡ made
        → is_dir (folder_status (Machine.folder (make_folder b m).1)) ≡ true
    new true m e = cc
    new false m e = refl

    old :
        (b : Bool) (m : Machine)
        → m.folder ≡ b
        → (make_folder b m).0 ≡ already_exists
        → folder_status (Machine.folder (make_folder b m).1) ≡ folder_status m.folder
    old true m e e' = refl
    old false m e e' = cc

    again :
        (b : Bool) (m : Machine)
        → is_dir (folder_status b) ≡ true
        → (make_folder b m).0 ≡ already_exists
    again true m e = refl
    again false m e = cc

-- All files of the small kernel are regular.
pub small_regular :
    (n : ℕ) (path : Bytes) (k : ℕ) (d : Disk) (s : small.State) (info : Stat)
    → disk_of s ≡ with_fd n path k d
    → small.fstat (pos n) s ≡ some info
    → info.mode ≡ regular
unfolding small disk_of
small_regular n path k d m info at_d had =
    (status-file (record { path = path; offset = k }) d info
      (seen
        (λ o m.
          (status o m.disk ≡ some info)
          → status (some (record { path = path; offset = k })) d ≡ some info)
        n path k d m at_d (λ had. had) had)).1
