-- ===== src/FileSystem.antt =====
-- foundation/NativeLibs/FS/fs.c and fs.h, in their POSIX branches: the types, and what the operations
-- share. The kernel and the allocator are parameters.
mod Tests
pub mod Disk
pub mod Example
pub mod Cells
pub mod Rules
pub mod Store
pub mod Read
pub mod Range
pub mod Write
pub mod Query
pub mod Listing
pub mod Remove
use kira_zig.Common.{
  ℕ, ◌+◌, ◌%◌, ◌^◌, ◌-◌, ℤ, pos, negsuc, Bool, true, false, Option, none, some, List, [], ◌∷◌, ◌++◌,
  ◌==◌, ltb, leb, if◌then◌else◌, length, take, drop, replicate, Bytes,
}

-- What the library allocates: a `fs_file_handle`, an array of bytes, a `fs_directory_listing`, and
-- an array of `char *`. A pointer to such is its address, and `none` for NULL.
pub data Object : Type 0 where
  handle : (fd : ℤ) → Object
  buffer : Bytes → Object
  listing : (entries : Option ℕ) → (count : ℕ) → Object
  pointers : List (Option ℕ) → Object

abbrev pub Heap : Type 0
Heap = ℕ → Option Object

-- A `const char *` that the library hands out: NULL, the static `fs_empty_string`, or a buffer.
pub data Text : Type 0 where
  null empty_string : Text
  at : ℕ → Text

-- A map with another value at one key.
unfoldable pub put : {A : Type 0} → ℕ → A → (ℕ → A) → ℕ → A
put k a f x = if x == k then a else f x

-- `st_mode` and `st_size` of `struct stat`.
pub data FileType : Type 0 where
  regular directory other : FileType

pub record Stat : Type 0 where
  pub mode : FileType
  pub size : ℤ

-- `st_size`, where the status is had and it is not negative.
abbrev pub size_of : Option Stat → Option ℕ
size_of none = none
size_of (some info) = elim info.size [ pos n ↦ some n | negsuc _ ↦ none ]

abbrev pub size_or_0 : Option ℕ → ℕ
size_or_0 none = 0
size_or_0 (some n) = n

-- The result of `mkdir`, with the one value of `errno` that is read.
pub data MakeResult : Type 0 where
  made already_exists refused : MakeResult

-- The calls of the kernel and of the allocator. A descriptor is negative where `open` fails. A read
-- gives the bytes read and a write their number, and both give `none` for -1.
pub record System : Type 1 where
  pub State : Type 0
  pub malloc : Heap → ℕ → Option ℕ
  pub realloc : Heap → Option ℕ → ℕ → Option ℕ
  pub open_read : Bytes → State → ℤ × State
  pub open_write : Bytes → State → ℤ × State
  pub read : (fd : ℤ) → ℕ → State → Option Bytes × State
  pub pread : (fd : ℤ) → ℕ → ℤ → State → Option Bytes × State
  pub write : (fd : ℤ) → Bytes → State → Option ℕ × State
  pub close : (fd : ℤ) → State → State
  pub fstat : (fd : ℤ) → State → Option Stat
  pub stat : Bytes → State → Option Stat
  pub lstat : Bytes → State → Option Stat
  pub mkdir : Bytes → State → MakeResult × State
  pub rename : Bytes → Bytes → State → Bool × State
  pub unlink : Bytes → State → Bool × State
  pub rmdir : Bytes → State → Bool × State
  pub opendir : Bytes → State → Option ℕ × State
  pub readdir : ℕ → State → Option Bytes × State
  pub closedir : ℕ → State → State

pub record Process (S : Type 0) : Type 0 where
  pub kernel : S
  pub heap : Heap

-- `fault` is what C leaves undefined: an access or a `free` at an address where no such object is, and
-- an access beyond the end of a buffer.
pub data Outcome (S A : Type 0) : Type 0 where
  done : A → Process S → Outcome S A
  fault : Outcome S A
  out_of_fuel : Outcome S A

abbrev pub M : Type 0 → Type 0 → Type 0
M S A = Process S → Outcome S A

abbrev pub pure : {S A : Type 0} → A → M S A
pure a p = done a p

abbrev pub and_then : {S A B : Type 0} → Outcome S A → (A → M S B) → Outcome S B
and_then (done a p) k = k a p
and_then fault k = fault
and_then out_of_fuel k = out_of_fuel

infixl 5 ◌>>=◌ ◌>>◌
abbrev pub ◌>>=◌ : {S A B : Type 0} → M S A → (A → M S B) → M S B
◌>>=◌ m k p = and_then (m p) k

abbrev pub ◌>>◌ : {S A B : Type 0} → M S A → M S B → M S B
m >> k = m >>= λ _. k

abbrev pub invalid : {S A : Type 0} → M S A
invalid p = fault

abbrev pub no_fuel : {S A : Type 0} → M S A
no_fuel p = out_of_fuel

-- A call that may change the kernel, and one that only reads it.
abbrev pub call : {S A : Type 0} → (S → A × S) → M S A
call f p = done (f p.kernel).0 (record p { kernel = (f p.kernel).1 })

abbrev pub ask : {S A : Type 0} → (S → A) → M S A
ask f p = done (f p.kernel) p

abbrev pub u64 : ℕ → ℕ
u64 n = n % 2 ^ 64

-- The conversion to `off_t`.
abbrev pub off_t : ℕ → ℤ
off_t n = if ltb n (2 ^ 63) then pos n else negsuc (2 ^ 64 - 1 - n)

pub record ReadResult : Type 0 where
  pub ok : Bool
  pub text : Text
  pub size : ℕ

abbrev pub empty_result : ReadResult
empty_result = record { ok = false; text = empty_string; size = 0 }

abbrev pub buffer_result : Option ℕ → ℕ → ReadResult
buffer_result none size = record { ok = false; text = empty_string; size = 0 }
buffer_result (some a) size = record { ok = true; text = at a; size = size }
