-- ===== src/FileSystem/Listing.antt =====
-- The directory listings of fs.c.
pub mod Access
pub mod Shape
pub mod Moves
pub mod Count
pub mod Add
pub mod Fill
pub mod Copies
pub mod Free
pub mod Entries
use kira_zig.Common.{
  ℕ, zero, suc, ◌+◌, ◌^◌, ℤ, pos, negsuc, Bool, true, false, ◌||◌, Option, none, some, [], ◌∷◌, leb,
  ltb, if◌then◌else◌, Bytes, codes, str_eq,
}
use kira_zig.FileSystem.{
  listing, Text, null, empty_string, at, System, M, pure, ◌>>=◌, ◌>>◌, invalid, no_fuel, call,
}
use kira_zig.FileSystem.Store.{
  malloc, free, load_listing, store_listing, load_pointers, pointer_at, store_pointer,
  realloc_pointers, strdup_local,
}

-- `sizeof(fs_directory_listing)`.
abbrev pub listing_size : ℕ
listing_size = 16

unfoldable pub is_dots : Bytes → Bool
unfolding str_eq
is_dots name = str_eq name (codes ".") || str_eq name (codes "..")

abbrev pub text_of : Option ℕ → Text
text_of none = null
text_of (some a) = at a

-- `entries[i]`.
unfoldable pub load_pointer : {S : Type 0} → Option ℕ → (i : ℕ) → M S (Option ℕ)
unfolding load_pointers
load_pointer entries i = load_pointers entries >>= pointer_at i

-- `count + 1` of an `int`, which may not overflow.
unfoldable pub next_count : {S : Type 0} → ℕ → M S ℕ
next_count count = if ltb (count + 1) (2 ^ 31) then pure (count + 1) else invalid

module _ (K : System) where
  -- The entry is stored, and counted if it could be copied.
  unfoldable pub count_entry : (l b count : ℕ) → Option ℕ → M K.State Bool
  unfolding store_pointer store_listing next_count
  count_entry l b count none = do store_pointer b count none; pure false
  count_entry l b count (some a) = do
    store_pointer b count (some a)
    store_listing l (some b, (← next_count count))
    pure true

  unfoldable pub add_name : (l count : ℕ) → Bytes → Option ℕ → M K.State Bool
  unfolding count_entry store_listing strdup_local
  add_name l count name none = pure false
  add_name l count name (some b) = do
    store_listing l (some b, count)
    count_entry l b count (← strdup_local K (some name))

  unfoldable pub listing_add : (l : ℕ) → Bytes → M K.State Bool
  unfolding add_name load_listing realloc_pointers next_count
  listing_add l name = do
    let old = (← load_listing l)
    add_name l old.1 name (← realloc_pointers K old.0 (← next_count old.1))

  unfoldable pub add_entry : (l : ℕ) → Bytes → M K.State (Unit {0})
  unfolding listing_add is_dots
  add_entry l name = if is_dots name then pure tt else (do listing_add l name; pure tt)

  -- The loop over the stream `dir`.
  abbrev pub list_next :
      (again : M K.State (Unit {0})) → (l : ℕ) → Option Bytes → M K.State (Unit {0})
  list_next again l none = pure tt
  list_next again l (some name) = do add_entry l name; again

  unfoldable pub list_loop : (fuel : ℕ) → (dir l : ℕ) → M K.State (Unit {0})
  unfolding add_entry
  list_loop zero dir l = no_fuel
  list_loop (suc fuel) dir l = call (K.readdir dir) >>= list_next (list_loop fuel dir l) l

  abbrev pub list_opened : (fuel l : ℕ) → Option ℕ → M K.State (Option ℕ)
  list_opened fuel l none = do free (some l); pure none
  list_opened fuel l (some dir) = do
    list_loop fuel dir l
    call (λ s. (tt, K.closedir dir s))
    pure (some l)

  abbrev pub list_into : (fuel : ℕ) → Bytes → Option ℕ → M K.State (Option ℕ)
  list_into fuel path none = pure none
  list_into fuel path (some l) = do list_opened fuel l (← call (K.opendir path))

  unfoldable pub list_directory : (fuel : ℕ) → Option Bytes → M K.State (Option ℕ)
  unfolding list_loop malloc free
  list_directory fuel none = pure none
  list_directory fuel (some path) = do
    list_into fuel path (← malloc K listing_size (listing none 0))

unfoldable pub directory_count : {S : Type 0} → Option ℕ → M S ℕ
unfolding load_listing
directory_count none = pure 0
directory_count (some l) = do let old = (← load_listing l); pure old.1

abbrev pub entry_at : {S : Type 0} → ℤ → Option ℕ × ℕ → M S Text
entry_at (negsuc _) l = pure empty_string
entry_at (pos i) (entries, count) =
    if leb count i then pure empty_string else (do pure (text_of (← load_pointer entries i)))

unfoldable pub directory_entry : {S : Type 0} → Option ℕ → (index : ℤ) → M S Text
unfolding load_listing load_pointer
directory_entry none index = pure empty_string
directory_entry (some l) index = do entry_at index (← load_listing l)

-- The loop of `fs_free_directory_listing`, over `n` entries from `i` on.
unfoldable pub free_entries : {S : Type 0} → (n i : ℕ) → Option ℕ → M S (Unit {0})
unfolding load_pointer free
free_entries zero i entries = pure tt
free_entries (suc n) i entries = do free (← load_pointer entries i); free_entries n (suc i) entries

unfoldable pub free_directory_listing : {S : Type 0} → Option ℕ → M S (Unit {0})
unfolding load_listing free_entries free
free_directory_listing none = pure tt
free_directory_listing (some l) = do
  let old = (← load_listing l)
  free_entries old.1 0 old.0
  free old.0
  free (some l)
