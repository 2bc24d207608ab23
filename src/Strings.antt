-- ===== src/Strings.antt =====
-- The string primitives of packages/kira_native_bridge/src/runtime_helpers.c. A string is the address
-- of its bytes and a length; the lengths come from the compiler and are not negative, the indices
-- come from the program.
pub mod Find
pub mod Decimal
pub mod Slice
pub mod Float
mod Tests
use kira_zig.Common.{
  ℕ, zero, suc, ◌+◌, ◌-◌, ◌/◌, ◌%◌, ℤ, pos, negsuc, Bool, true, false, not, ◌&&◌, ◌||◌, Option,
  none, some, List, [], ◌∷◌, ◌++◌, ◌==◌, ltb, leb, if◌then◌else◌, length, get_elem?, take, drop,
  Bytes, codes,
}
use kira_zig.Memory.{
  header, cells, bytes, Chunk, Hooks, M, pure, abort, invalid, ◌>>=◌, ◌>>◌, malloc_bytes,
}

-- `KiraBridgeString`.
pub record BridgeString : Type 0 where
  pub ptr : ℕ
  pub len : ℕ

-- The bytes from `ptr + from` on, `count` of them; none are read where `count` is 0.
abbrev pub range_of : Option Chunk → (from count : ℕ) → M Bytes
range_of none from count = invalid
range_of (some c) from count = elim c.body [
  | header _ ↦ invalid
  | cells _ ↦ invalid
  | bytes bs ↦ if leb (from + count) (length bs) then pure (take count (drop from bs)) else invalid
]

unfoldable pub string_bytes : (ptr from count : ℕ) → M Bytes
string_bytes ptr from zero h = pure [] h
string_bytes ptr from (suc n) h = range_of (h ptr) from (suc n) h

abbrev pub or_past_end : Option ℕ → M ℕ
or_past_end none = invalid
or_past_end (some b) = pure b

abbrev pub byte_of : Option Chunk → ℕ → M ℕ
byte_of none i = invalid
byte_of (some c) i = elim c.body [
  | header _ ↦ invalid
  | cells _ ↦ invalid
  | bytes bs ↦ or_past_end (get_elem? bs i)
]

unfoldable pub read_byte : (ptr i : ℕ) → M ℕ
read_byte ptr i h = byte_of (h ptr) i h

abbrev pub checked_byte : (ptr len : ℕ) → ℤ → M ℕ
checked_byte ptr len (negsuc _) = abort
checked_byte ptr len (pos i) = if ltb i len then read_byte ptr i else abort

unfoldable pub char_at : (ptr len : ℕ) (index : ℤ) → M ℕ
unfolding read_byte
char_at ptr len index = if ptr == 0 then abort else checked_byte ptr len index

-- `memcmp(a, b, n) == 0`.
unfoldable pub same_bytes : Bytes → Bytes → Bool
same_bytes [] [] = true
same_bytes [] (b ∷ bs) = false
same_bytes (a ∷ as') [] = false
same_bytes (a ∷ as') (b ∷ bs) = (a == b) && same_bytes as' bs

-- The loop of `kira_string_index_of` from `i` on, over the `n` positions that are left.
unfoldable pub find_from : (hptr nptr nlen i n : ℕ) → M ℤ
unfolding string_bytes same_bytes
find_from hptr nptr nlen i zero = pure (negsuc 0)
find_from hptr nptr nlen i (suc n) = do
  window ← string_bytes hptr i nlen
  needle ← string_bytes nptr 0 nlen
  let rest = find_from hptr nptr nlen (i + 1) n
  if same_bytes window needle then pure (pos i) else rest

unfoldable pub index_of : (hptr hlen nptr nlen : ℕ) → M ℤ
unfolding find_from
index_of hptr hlen nptr nlen =
    if nlen == 0
    then pure (pos 0)
    else if ltb hlen nlen
    then pure (negsuc 0)
    else find_from hptr nptr nlen 0 (hlen - nlen + 1)

-- The digits of "%lld", on fuel: the last `fuel` of them.
unfoldable pub digits : (fuel n : ℕ) → Bytes
digits zero n = []
digits (suc f) n =
    let rest = digits f (n / 10) in if ltb n 10 then (48 + n) ∷ [] else rest ++ (48 + n % 10) ∷ []

-- 20 digits are enough for 64 bits.
abbrev pub max_digits : ℕ
max_digits = 20

unfoldable pub decimal : ℤ → Bytes
unfolding digits
decimal (pos n) = digits max_digits n
decimal (negsuc n) = b'-' ∷ digits max_digits (suc n)

-- `sizeof tmp`.
abbrev pub tmp_size : ℕ
tmp_size = 32

module _ (hooks : Hooks) where
  unfoldable pub string_out : Bytes → M BridgeString
  string_out bs = do
    buf ← malloc_bytes hooks bs
    if buf == 0 then abort else pure (record { ptr = buf; len = length bs })

  -- `snprintf` writes at most `sizeof tmp - 1` bytes and returns how many there are; the copy reads
  -- as many from `tmp`.
  unfoldable pub string_from_i64 : ℤ → M BridgeString
  unfolding string_out decimal
  string_from_i64 value =
      if ltb (length (decimal value)) tmp_size then string_out (decimal value) else invalid

  unfoldable pub string_from_bool : ℤ → M BridgeString
  unfolding string_out
  string_from_bool (pos zero) = string_out (codes "false")
  string_from_bool _ = string_out (codes "true")

  abbrev pub checked_range : (ptr len : ℕ) (start end' : ℤ) → M BridgeString
  checked_range ptr len (pos s) (pos e) =
      if ltb len e || ltb e s then abort else (string_bytes ptr s (e - s) >>= λ bs. string_out bs)
  checked_range ptr len _ _ = abort

  -- With a negative end the start is negative or greater.
  unfoldable pub substring : (ptr len : ℕ) (start end' : ℤ) → M BridgeString
  unfolding string_bytes string_out
  substring ptr len start end' = checked_range ptr len start end'
