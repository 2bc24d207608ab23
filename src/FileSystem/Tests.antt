-- ===== src/FileSystem/Tests.antt =====
-- Runs of fs.c on a small kernel, and its theorems at some of them.
use kira_zig.Common.{
  ℕ, ◌≤◌, ◌≡◌, refl, pos, true, false, none, some, List, [], ◌∷◌, ◌==◌, if◌then◌else◌, arith, Bytes,
  codes, str_eq,
}
use kira_zig.FileSystem.{buffer, Heap, put, Process, ReadResult, ◌>>=◌}
use kira_zig.FileSystem.Store.{free_buffer}
use kira_zig.FileSystem.Disk.{Disk, IsFinite}
use kira_zig.FileSystem.Rules.{Returns, Holds}
use kira_zig.FileSystem.Read.{read_file}
use kira_zig.FileSystem.Read.File.{FileRead, read_file-Reads}
use kira_zig.FileSystem.Write.{write_bytes}
use kira_zig.FileSystem.Write.Loop.{Wrote, write_bytes-Wrote}
use kira_zig.FileSystem.Query.{make_directory}
use kira_zig.FileSystem.Query.Folder.{Makes, make_directory-Makes}
use kira_zig.FileSystem.Listing.{is_dots, list_directory, free_directory_listing}
use kira_zig.FileSystem.Listing.Shape.{Copy, with_listing, IsListing}
use kira_zig.FileSystem.Listing.Fill.{visible}
use kira_zig.FileSystem.Listing.Free.{free-list_directory}
use kira_zig.FileSystem.Listing.Entries.{Describes, directory_entry-Describes}
use kira_zig.FileSystem.Remove.{remove_path}
use kira_zig.FileSystem.Remove.Tree.{Dirs}
use kira_zig.FileSystem.Remove.Child.{Removed}
use kira_zig.FileSystem.Remove.Gone.{remove_path-Removed}
use kira_zig.FileSystem.Example.Little.{little, dirs_of}
use kira_zig.FileSystem.Example.Tree.{little-IsAllocator, little-IsTree, low}
use kira_zig.FileSystem.Example.{listed_names, small, disk_of}
use kira_zig.FileSystem.Example.Laws.{
  small-IsAllocator, small-IsPosix, small-Progresses, names_on, stream_of, small-IsStream,
  small-IsMkdir, small_regular,
}

abbrev path : Bytes
path = codes "a.txt"

abbrev disk : Disk
disk = record { file = λ x. codes "hello"; table = λ n. none }

abbrev no_objects : Heap
no_objects a = none

-- A caller's buffer of four bytes.
abbrev objects : Heap
objects a = if a == 7 then some (buffer (9 ∷ 9 ∷ 9 ∷ 9 ∷ [])) else none

no_objects-IsFinite : IsFinite no_objects
no_objects-IsFinite = (0, λ x le. refl)

objects-IsFinite : IsFinite objects
objects-IsFinite = (8, above)
  where
    above : (x : ℕ) → 8 ≤ x → objects x ≡ none
    above x le = ground arith

machine : Disk → small.State
unfolding small
machine d = record { disk = d; folder = false; stream = [] }

process : Disk → Heap → Process small.State
process d h = record { kernel = machine d; heap = h }

at_machine : (d : Disk) → disk_of (machine d) ≡ d
unfolding disk_of machine
at_machine d = refl

starts : (d : Disk) (h : Heap) → Holds small disk_of d h (process d h)
unfolding process
starts d h = (at_machine d, refl)

read_file-Reads_example :
    Returns
      (FileRead small disk_of small-IsPosix small-IsAllocator path (codes "hello") disk objects)
      (read_file small (some path) (process disk objects))
    × Returns
        (λ _. Holds small disk_of disk objects)
        ((read_file small (some path) >>= λ r. free_buffer (ReadResult.text r))
          (process disk objects))
read_file-Reads_example =
    read_file-Reads small disk_of small-IsPosix small-IsAllocator path disk
      (λ n s info. small_regular n path 0 disk s info) objects objects-IsFinite
      (process disk objects) (starts disk objects)

write_bytes-Wrote_example :
    Returns
      (Wrote small disk_of small-IsPosix small-Progresses path
        (codes "bye")
        3
        (omega arith)
        (omega arith)
        disk
        no_objects)
      (write_bytes small 5 (some path) (some (codes "bye")) 3 (process disk no_objects))
write_bytes-Wrote_example =
    write_bytes-Wrote small disk_of small-IsPosix small-Progresses path (codes "bye") 3
      (omega arith) (omega arith) disk no_objects 5 (process disk no_objects) (omega arith)
      (starts disk no_objects)

make_directory-Makes_example :
    Returns
      (Makes small small-IsMkdir path (process disk no_objects))
      (make_directory small (some path) (process disk no_objects))
make_directory-Makes_example =
    make_directory-Makes small small-IsMkdir path (process disk no_objects)

visible_names : visible listed_names ≡ codes "a.txt" ∷ codes "b" ∷ []
unfolding visible is_dots str_eq
visible_names = refl

free-list_directory_example :
    Returns
      (λ _. Holds small disk_of disk no_objects)
      ((list_directory small 5 (some path) >>= free_directory_listing)
        (record { kernel = machine disk; heap = no_objects }))
free-list_directory_example =
    free-list_directory small disk_of small-IsAllocator names_on stream_of small-IsStream path
      no_objects 5 disk (machine disk) no_objects-IsFinite (omega arith) (omega arith)
      (at_machine disk)

-- A directory with two files.
full : little.State
unfolding little
full = record { top = true; a = true; b = true; streams = [] }

remove_path-Removed_example :
    Returns
      (Removed little dirs_of little-IsAllocator 4 little-IsTree
        (codes "d")
        (Dirs.kind (dirs_of full))
        (Dirs.streams (dirs_of full))
        no_objects)
      (remove_path little 7 (some (codes "d")) (record { kernel = full; heap = no_objects }))
remove_path-Removed_example =
    remove_path-Removed little dirs_of little-IsAllocator 4 little-IsTree 7 1 (codes "d")
      (Dirs.kind (dirs_of full)) (Dirs.streams (dirs_of full)) no_objects
      (record { kernel = full; heap = no_objects }) no_objects-IsFinite (omega arith) (low full)
      (refl, refl)

-- A listing of one name.
abbrev one_name : List Copy
one_name = (16, codes "b") ∷ []

abbrev with_one : Heap
with_one = with_listing 32 (some 48) 0 one_name no_objects

one_listed : IsListing 32 (some 48) 0 one_name no_objects
unfolding put
one_listed = ((refl, tt), refl, ((λ e. omega (arith, e)), refl, omega arith))

directory_entry-Describes_example :
    Describes small disk_of 32 (codes "b" ∷ []) (pos 0) (process disk with_one)
directory_entry-Describes_example =
    directory_entry-Describes small disk_of 32 (some 48) 0 one_name disk no_objects (pos 0)
      (process disk with_one) (omega arith) one_listed (starts disk with_one)
