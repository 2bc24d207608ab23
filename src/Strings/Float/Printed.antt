-- ===== src/Strings/Float/Printed.antt =====
-- About kira_string_from_f64: the text that it makes of a finite number.
use kira_zig.Common.{ℕ, ◌≡◌, ◌≤◌, ◌<◌, ◌⊎◌, Bool, true, false, ◌++◌, length, Bytes, All}
use kira_zig.Strings.Float.{Floats, max_prec}
use kira_zig.Strings.Float.Scientific.{NoMark, sign, Scientific, SameNumber}
use kira_zig.Strings.Float.PlainBytes.{IsPlainByte}

-- The text with `p` digits reads back as the number.
abbrev pub reads_back : Floats → (value p : ℕ) → Bool
reads_back F value p = F.equal (F.strtod (F.format p value)) value

-- "%.*g" gives at most 32 bytes, without an exponent or in scientific notation with an exponent of at
-- most 400, and 17 digits tell the number from all others.
pub record IsFormat (F : Floats) (value : ℕ) : Type 0 where
  pub short : (p : ℕ) → p ≤ max_prec → length (F.format p value) ≤ 32
  pub shape : (p : ℕ) → p ≤ max_prec → NoMark (F.format p value) ⊎ Scientific (F.format p value)
  pub exact : reads_back F value max_prec ≡ true

-- `p` is the least precision from `low` on whose text reads back.
abbrev pub IsLeast : Floats → (value low p : ℕ) → Type 0
IsLeast F value low p =
    (low ≤ p)
    × (p ≤ max_prec)
    × (reads_back F value p ≡ true)
    × ((q : ℕ) → low ≤ q → q < p → reads_back F value q ≡ false)

-- A text without an exponent stays as it is; for another one the same number is written with its sign,
-- digits and a decimal point only.
abbrev pub IsPlain : (g text : Bytes) → Type 0
IsPlain g text =
    (NoMark g × (text ≡ g))
    ⊎ ((s : Scientific g) × (shown : Bytes) × (text ≡ sign s.neg ++ shown)
        × All IsPlainByte shown
        × SameNumber s shown)
