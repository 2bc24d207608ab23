-- ===== src/FileSystem/Store.antt =====
-- The heap of fs.c: allocation, release and access, `fs_strdup_local` and `fs_free_buffer`.
use kira_zig.Common.{
  ℕ, ◌+◌, ◌-◌, ◌*◌, ℤ, Option, none, some, List, [], ◌∷◌, ◌++◌, leb, ltb, if◌then◌else◌, length,
  get_elem?, set, take, drop, replicate, Bytes,
}
use kira_zig.FileSystem.{
  Object, handle, buffer, listing, pointers, Heap, Text, null, empty_string, at, put, System,
  Process, done, fault, M, pure, and_then, ◌>>=◌, invalid, u64,
}

abbrev pub update_heap : {S : Type 0} → (Heap → Heap) → Process S → Process S
update_heap f p = record p { heap = f p.heap }

abbrev pub place : {S : Type 0} → Object → Option ℕ → M S (Option ℕ)
place o none p = done none p
place o (some a) p = done (some a) (update_heap (put a (some o)) p)

-- `malloc`, with the object that the code makes of the bytes.
unfoldable pub malloc : (K : System) → (size : ℕ) → Object → M K.State (Option ℕ)
unfolding put
malloc K size o p = place o (K.malloc p.heap size) p

abbrev pub release_object : {S : Type 0} → ℕ → Option Object → M S (Unit {0})
release_object a none = invalid
release_object a (some o) = λ p. done tt (update_heap (put a none) p)

unfoldable pub free : {S : Type 0} → Option ℕ → M S (Unit {0})
unfolding put
free none p = done tt p
free (some a) p = release_object a (p.heap a) p

abbrev pub handle_of : {S : Type 0} → Option Object → M S ℤ
handle_of none = invalid
handle_of (some o) = elim o [
  | handle fd ↦ pure fd
  | buffer _ ↦ invalid
  | listing _ _ ↦ invalid
  | pointers _ ↦ invalid
]

-- `file->fd`.
unfoldable pub load_handle : {S : Type 0} → ℕ → M S ℤ
load_handle a p = handle_of (p.heap a) p

-- `*listing`, and the assignment of its fields.
abbrev pub listing_of : {S : Type 0} → Option Object → M S (Option ℕ × ℕ)
listing_of none = invalid
listing_of (some o) = elim o [
  | handle _ ↦ invalid
  | buffer _ ↦ invalid
  | listing entries count ↦ pure (entries, count)
  | pointers _ ↦ invalid
]

unfoldable pub load_listing : {S : Type 0} → ℕ → M S (Option ℕ × ℕ)
load_listing a p = listing_of (p.heap a) p

abbrev pub write_listing : {S : Type 0} → ℕ → Option ℕ × ℕ → Option Object → M S (Unit {0})
write_listing a l none = invalid
write_listing a l (some o) = elim o [
  | handle _ ↦ invalid
  | buffer _ ↦ invalid
  | listing _ _ ↦ λ p. done tt (update_heap (put a (some (listing l.0 l.1))) p)
  | pointers _ ↦ invalid
]

unfoldable pub store_listing : {S : Type 0} → ℕ → Option ℕ × ℕ → M S (Unit {0})
unfolding put
store_listing a l p = write_listing a l (p.heap a) p

abbrev pub pointers_of : {S : Type 0} → Option Object → M S (List (Option ℕ))
pointers_of none = invalid
pointers_of (some o) = elim o [
  | handle _ ↦ invalid
  | buffer _ ↦ invalid
  | listing _ _ ↦ invalid
  | pointers ps ↦ pure ps
]

-- The array of pointers at an address; at NULL there is none.
unfoldable pub load_pointers : {S : Type 0} → Option ℕ → M S (List (Option ℕ))
load_pointers none p = fault
load_pointers (some a) p = pointers_of (p.heap a) p

abbrev pub in_array : {S : Type 0} → Option (Option ℕ) → M S (Option ℕ)
in_array none = invalid
in_array (some q) = pure q

-- `entries[i]`.
abbrev pub pointer_at : {S : Type 0} → ℕ → List (Option ℕ) → M S (Option ℕ)
pointer_at i ps = in_array (get_elem? ps i)

abbrev pub write_pointer : {S : Type 0} → ℕ → (i : ℕ) → Option ℕ → List (Option ℕ) → M S (Unit {0})
write_pointer a i q ps p =
    if ltb i (length ps)
    then done tt (update_heap (put a (some (pointers (set ps i q)))) p)
    else fault

-- `entries[i] = q`.
unfoldable pub store_pointer : {S : Type 0} → ℕ → (i : ℕ) → Option ℕ → M S (Unit {0})
unfolding load_pointers put
store_pointer a i q = load_pointers (some a) >>= write_pointer a i q

-- An array of `n` pointers that starts like `ps`.
abbrev pub resized : ℕ → List (Option ℕ) → List (Option ℕ)
resized n ps = take n ps ++ replicate (n - length ps) none

abbrev pub move : {S : Type 0} → (old : Option ℕ) → List (Option ℕ) → Option ℕ → M S (Option ℕ)
move old ps none p = done none p
move none ps (some b) p = done (some b) (update_heap (put b (some (pointers ps))) p)
move (some a) ps (some b) p =
    done (some b) (update_heap (λ h. put b (some (pointers ps)) (put a none h)) p)

-- `realloc` of an array of pointers, to `n` of them.
unfoldable pub realloc_pointers : (K : System) → (old : Option ℕ) → (n : ℕ) → M K.State (Option ℕ)
unfolding load_pointers put
realloc_pointers K none n p = move none (resized n []) (K.realloc p.heap none (u64 (8 * n))) p
realloc_pointers K (some a) n p =
    and_then (load_pointers (some a) p)
      λ ps p. move (some a) (resized n ps) (K.realloc p.heap (some a) (u64 (8 * n))) p

-- `new` over the bytes from `from` on.
abbrev pub splice : Bytes → ℕ → Bytes → Bytes
splice old from new = take from old ++ (new ++ drop (from + length new) old)

abbrev pub overwrite : {S : Type 0} → ℕ → (from : ℕ) → Bytes → Bytes → M S (Unit {0})
overwrite a from new old p =
    if leb (from + length new) (length old)
    then done tt (update_heap (put a (some (buffer (splice old from new)))) p)
    else fault

abbrev pub write_object : {S : Type 0} → ℕ → (from : ℕ) → Bytes → Option Object → M S (Unit {0})
write_object a from new none = invalid
write_object a from new (some o) = elim o [
  | handle _ ↦ invalid
  | buffer old ↦ overwrite a from new old
  | listing _ _ ↦ invalid
  | pointers _ ↦ invalid
]

-- `file->fd = fd`.
abbrev pub write_handle : {S : Type 0} → ℕ → ℤ → Option Object → M S (Unit {0})
write_handle a fd none = invalid
write_handle a fd (some o) = elim o [
  | handle _ ↦ λ p. done tt (update_heap (put a (some (handle fd))) p)
  | buffer _ ↦ invalid
  | listing _ _ ↦ invalid
  | pointers _ ↦ invalid
]

unfoldable pub store_handle : {S : Type 0} → ℕ → ℤ → M S (Unit {0})
unfolding put
store_handle a fd p = write_handle a fd (p.heap a) p

-- The bytes that a call stores at `a + from`.
unfoldable pub store_bytes : {S : Type 0} → ℕ → (from : ℕ) → Bytes → M S (Unit {0})
unfolding put
store_bytes a from new p = write_object a from new (p.heap a) p

unfoldable pub free_buffer : {S : Type 0} → Text → M S (Unit {0})
unfolding free
free_buffer null = pure tt
free_buffer empty_string = pure tt
free_buffer (at a) = free (some a)

-- A C string: its bytes and the terminator.
abbrev pub c_string : Bytes → Bytes
c_string text = text ++ 0 ∷ []

-- `fs_strdup_local`.
unfoldable pub strdup_local : (K : System) → Option Bytes → M K.State (Option ℕ)
unfolding malloc
strdup_local K none = pure none
strdup_local K (some text) = malloc K (u64 (length text + 1)) (buffer (c_string text))
