-- ===== src/ArgumentParser.antt =====
-- foundation/NativeLibs/ArgumentParser/argument_parser.c and argument_parser.h. A token is the
-- bytes of a C string, `none` is NULL. `malloc` answers by size: `grant n` says whether a request
-- of `n` bytes succeeds.
pub mod Kinds
pub mod Options
mod Tests
use kira_zig.Common.{
  ℕ, suc, ◌+◌, ◌≡◌, Bool, true, false, not, ◌&&◌, ◌||◌, Option, none, some, List, [], ◌∷◌, ◌==◌,
  if◌then◌else◌, Bytes, codes, str_eq, length, get_or, take, drop,
}

pub data TokenKind : Type 0 where
  positional long_option short_option command_terminator empty : TokenKind

abbrev pub dash : ℕ
dash = b'-'

abbrev pub equals : ℕ
equals = b'='

-- `token[i]`, where the terminator reads as 0.
abbrev pub char_at : Bytes → ℕ → ℕ
char_at t i = get_or t i 0

-- `strchr(s, c) - s`, or `none` where `strchr` returns NULL.
unfoldable pub find_char : Bytes → ℕ → Option ℕ
find_char [] c = none
find_char (b ∷ bs) c = elim (b == c) [
  | true ↦ some 0
  | false ↦ elim (find_char bs c) [ none ↦ none | some i ↦ some (suc i) ]
]

unfoldable pub classify_token : Option Bytes → TokenKind
unfolding str_eq
classify_token none = empty
classify_token (some t) =
    if char_at t 0 == 0
    then empty
    else if str_eq t (codes "--")
    then command_terminator
    else if (char_at t 0 == dash) && (char_at t 1 == dash) && not (char_at t 2 == 0)
    then long_option
    else if (char_at t 0 == dash) && not (char_at t 1 == 0)
    then short_option
    else positional

unfoldable pub is_help_token : Option Bytes → Bool
unfolding str_eq
is_help_token none = false
is_help_token (some t) =
    str_eq t (codes "--help") || str_eq t (codes "-h") || str_eq t (codes "help")

unfoldable pub has_inline_value : Option Bytes → Bool
has_inline_value none = false
has_inline_value (some t) = elim (find_char t equals) [ none ↦ false | some _ ↦ true ]

-- The `start` of `kap_option_name`, as the number of bytes that it skips.
unfoldable pub skip_dashes : Bytes → ℕ
skip_dashes t =
    if (char_at t 0 == dash) && (char_at t 1 == dash)
    then 2
    else if char_at t 0 == dash
    then 1
    else 0

module _ (grant : ℕ → Bool) where
  unfoldable pub copy_range : Bytes → ℕ → Option Bytes
  copy_range start len = if grant (len + 1) then some (take len start) else none

  unfoldable pub option_name : Option Bytes → Option Bytes
  unfolding copy_range skip_dashes
  option_name none = copy_range [] 0
  option_name (some t) =
      let start = drop (skip_dashes t) t in
      copy_range start (elim (find_char start equals) [ none ↦ length start | some i ↦ i ])

  unfoldable pub inline_value : Option Bytes → Option Bytes
  unfolding copy_range
  inline_value none = copy_range [] 0
  inline_value (some t) = elim (find_char t equals) [
    | none ↦ copy_range [] 0
    | some i ↦ copy_range (drop (i + 1) t) (length (drop (i + 1) t))
  ]
