-- ===== src/ArgumentParser/Tests.antt =====
-- Tokens of argument_parser.c, and the theorems at some of them.
use kira_zig.Common.{ℕ, ◌≡◌, refl, Bool, true, false, none, some, ◌↔◌, arith, Bytes, codes}
use kira_zig.ArgumentParser.{
  positional, long_option, short_option, command_terminator, empty, classify_token, is_help_token,
  has_inline_value, option_name, inline_value, find_char,
}
use kira_zig.ArgumentParser.Kinds.{Shape, classify_token-Shape}
use kira_zig.ArgumentParser.Options.{Parts, option_name-inline_value}

abbrev all_granted : ℕ → Bool
all_granted _ = true

abbrev token : Bytes
token = codes "--out=a=b"

kinds :
    (classify_token (some (codes "--")) ≡ command_terminator)
    × (classify_token (some (codes "--x")) ≡ long_option)
    × (classify_token (some (codes "-x")) ≡ short_option)
    × (classify_token (some (codes "-")) ≡ positional)
    × (classify_token none ≡ empty)
unfolding classify_token
kinds = (refl, refl, refl, refl, refl)

help :
    (is_help_token (some (codes "-h")) ≡ true) × (is_help_token (some (codes "--helper")) ≡ false)
unfolding is_help_token
help = (refl, refl)

parts :
    (option_name all_granted (some token) ≡ some (codes "out"))
    × (inline_value all_granted (some token) ≡ some (codes "a=b"))
    × (has_inline_value (some token) ≡ true)
unfolding option_name inline_value has_inline_value find_char
parts = (refl, refl, refl)

-- A failed `malloc` gives NULL.
no_memory : option_name (λ _. false) (some token) ≡ none
unfolding option_name find_char
no_memory = refl

classify_token-Shape_example :
    (classify_token (some (codes "-v")) ≡ short_option) ↔ Shape (some (codes "-v")) short_option
classify_token-Shape_example = classify_token-Shape (some (codes "-v")) short_option (omega arith)

option_name-inline_value_example : Parts all_granted token
option_name-inline_value_example = option_name-inline_value all_granted (λ _. refl) token
