-- ===== src/Strings/Tests.antt =====
-- Strings of runtime_helpers.c in a small heap, and the theorems at some of them.
use kira_zig.Common.{
  ◌==◌, false, length, ◌≡◌, ◌⊎◌, refl, ℤ, pos, negsuc, none, some, arith, take, drop, Bytes, codes,
}
use kira_zig.Memory.{Hooks, bytes, Heap, ok, trap, put}
use kira_zig.Memory.Laws.{chunk}
use kira_zig.Strings.{
  BridgeString, char_at, index_of, find_from, string_bytes, same_bytes, read_byte, digits, decimal,
  substring,
}
use kira_zig.Strings.Find.{Finds, index_of-Finds}
use kira_zig.Strings.Decimal.{Refused}
use kira_zig.Strings.Float.{Floats, expand, decimal_point, strtol, natural}
use kira_zig.Strings.Float.Scientific.{Scientific}
use kira_zig.Strings.Slice.{Slices, substring-char_at}

abbrev text : Bytes
text = codes "abcbc"

-- The text at 4096, and a word of it at 4112.
abbrev heap : Heap
heap = put 4096 (chunk 5 (bytes text)) (put 4112 (chunk 2 (bytes (codes "bc"))) (λ _. none))

abbrev hooks : Hooks
hooks = record { malloc = λ h n. some 8192; array_alloc = none }

searched :
    (index_of 4096 5 4112 2 heap ≡ ok (pos 1) heap)
    × (index_of 4112 2 4096 5 heap ≡ ok (negsuc 0) heap)
    × (char_at 4096 5 (pos 5) heap ≡ trap)
    × (char_at 4096 5 (pos 4) heap ≡ ok 99 heap)
    × (substring hooks 4096 5 (pos 2) (pos 6) heap ≡ trap)
unfolding index_of find_from string_bytes same_bytes char_at read_byte substring put
searched = (refl, refl, refl, refl, refl)

printed :
    (decimal (negsuc 119) ≡ codes "-120")
    × (decimal (pos 0) ≡ codes "0")
    × (decimal (pos 18446744073709551615) ≡ codes "18446744073709551615")
unfolding decimal digits
printed = (refl, refl, refl)

text_at : heap 4096 ≡ chunk 5 (bytes text)
unfolding put
text_at = refl

word_at : heap 4112 ≡ chunk 2 (bytes (codes "bc"))
unfolding put
word_at = refl

index_of-Finds_example :
    (r : ℤ) × (index_of 4096 5 4112 2 heap ≡ ok r heap) × Finds text (codes "bc") 2 0 4 r
index_of-Finds_example =
    index_of-Finds text (codes "bc") 2 heap 4096 4112 text_at word_at (omega arith) 5 (omega arith)

substring-char_at_example :
    ((substring hooks 4096 5 (pos 1) (pos 3) heap ≡ trap)
      × Refused hooks heap (take 2 (drop 1 text)))
    ⊎ ((r : BridgeString) × (h' : Heap) × (substring hooks 4096 5 (pos 1) (pos 3) heap ≡ ok r h')
        × (r.len ≡ 2)
        × Slices 4096 5 1 2 heap r h')
substring-char_at_example =
    substring-char_at hooks heap 4096 5 5 text (omega arith) text_at (omega arith) 1 3 (omega arith)
      (omega arith)

-- 1.5e-7 in plain notation.
expanded : expand (codes "15") (decimal_point 1 (strtol (codes "-07"))) ≡ codes "0.00000015"
unfolding expand strtol natural
expanded = refl

abbrev floats : Floats
floats = record {
  is_nan = λ v. false;
  is_inf = λ v. false;
  is_negative = λ v. false;
  equal = λ a b. a == b;
  format = λ p v. codes "1.5e-07";
  strtod = λ t. length t;
}
