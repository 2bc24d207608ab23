-- ===== src/Strings/Float/Size.antt =====
-- About kira_string_from_f64: the sizes of what its buffers hold.
use mathlib.Core.Path.{subst}
use kira_zig.Common.{
  length-replicate, ℕ, zero, suc, ◌+◌, ◌-◌, ◌≡◌, ◌≤◌, refl, sym, ap, ◌∙◌, inl, inr, ℤ, pos, negsuc,
  false, ◌||◌, Option, none, some, [], ◌∷◌, ◌++◌, ◌==◌, leb, if◌then◌else◌, length, take, drop,
  replicate, Bytes, pos_part, neg_part, sub_ℕ, arith, Bool-cases, length-append, length-drop,
  length-take,
}
use kira_zig.Strings.Float.{in_front, split_exponent, mantissa, expand, point_of}
use kira_zig.Strings.Float.Plain.{has_point, has_point-append}

pub length-split_exponent :
    (g before after : Bytes) → split_exponent g ≡ some (before, after) → length before ≤ length g
unfolding split_exponent
length-split_exponent [] before after e = cc
length-split_exponent (c ∷ cs) before after e = elim (Bool-cases (c == b'e' || c == b'E')) [
  | inl mark ↦
      let q : some ([], cs) ≡ some (before, after) =
        sym (ap (λ b. if b then some ([], cs) else in_front c (split_exponent cs)) mark) ∙ e in
      let none_before : 0 ≡ length before = ap (λ r. length (first_of r)) q in omega arith
  | inr other ↦
      kept c cs before after (split_exponent cs) (length-split_exponent cs)
        (sym (ap (λ b. if b then some ([], cs) else in_front c (split_exponent cs)) other) ∙ e)
]
  where
    first_of : Option (Bytes × Bytes) → Bytes
    first_of none = []
    first_of (some r) = r.0

    kept :
        (c : ℕ) (cs before after : Bytes) (r : Option (Bytes × Bytes))
        → ((b a : Bytes) → r ≡ some (b, a) → length b ≤ length cs)
        → in_front c r ≡ some (before, after)
        → length before ≤ length (c ∷ cs)
    kept c cs before after none shorter e = cc
    kept c cs before after (some (b, a)) shorter e =
        let le = shorter b a refl in
        let q : c ∷ b ≡ before = ap (λ r. first_of r) e in omega (arith, ap length q)

-- The digits have no point and are at most `n`, and the point is among them.
abbrev pub IsMantissa : ℕ → Bytes × Option ℕ → Type 0
IsMantissa n (ds, point) =
    (has_point ds ≡ false) × (length ds ≤ n) × (point_of point ds ≤ length ds)

point_of-append :
    (point : Option ℕ) (ds : Bytes) (c : ℕ)
    → point_of point ds ≤ length ds
    → point_of point (ds ++ c ∷ []) ≤ length (ds ++ c ∷ [])
point_of-append none ds c inside = omega arith
point_of-append (some p) ds c inside = omega (arith, length-append ds (c ∷ []))

pub mantissa-IsMantissa :
    (cs ds : Bytes) (point : Option ℕ)
    → IsMantissa (length ds) (ds, point)
    → IsMantissa (length ds + length cs) (mantissa cs ds point)
unfolding mantissa has_point
mantissa-IsMantissa [] ds point (plain, long, inside) = (plain, omega arith, inside)
mantissa-IsMantissa (c ∷ cs) ds point (plain, long, inside) = elim (Bool-cases (c == b'.')) [
  | inl dot ↦
      let (plain', long', inside') =
        mantissa-IsMantissa cs ds (some (length ds)) (plain, omega arith, omega arith) in
      subst
        (λ b.
          IsMantissa (length ds + length (c ∷ cs))
            (mantissa cs (if b then ds else ds ++ c ∷ []) (if b then some (length ds) else point)))
        (sym dot) (plain', omega arith, inside')
  | inr other ↦
      let longer = length-append ds (c ∷ []) in
      let (plain', long', inside') = mantissa-IsMantissa cs (ds ++ c ∷ []) point (
        has_point-append ds (c ∷ []) plain (ground arith),
        omega arith,
        point_of-append point ds c inside,
      ) in
      subst
        (λ b.
          IsMantissa (length ds + length (c ∷ cs))
            (mantissa cs (if b then ds else ds ++ c ∷ []) (if b then some (length ds) else point)))
        (sym other) (plain', omega (arith, longer), inside')
]

pub length-expand :
    (ds : Bytes) (dp : ℤ) → length (expand ds dp) ≤ 2 + length ds + pos_part dp + neg_part dp
unfolding expand
length-expand ds (negsuc n) =
    omega (arith, length-append (replicate (suc n) b'0') ds, length-replicate {A = ℕ} (suc n) b'0')
length-expand ds (pos zero) = omega arith
length-expand ds (pos (suc n)) =
    let k = suc n - length ds in
    let a = length-append ds (replicate k b'0') in
    let r = length-replicate {A = ℕ} k b'0' in
    let t = length-append (take (suc n) ds) (b'.' ∷ drop (suc n) ds) in
    let d = length-drop (suc n) ds in
    let l = length-take (suc n) ds in
    elim (Bool-cases (leb (length ds) (suc n))) [
      | inl whole ↦
          subst
            (λ b.
              length
                (if b then ds ++ replicate k b'0' else take (suc n) ds ++ b'.' ∷ drop (suc n) ds)
              ≤ 2 + length ds + suc n + 0)
            (sym whole) (omega arith)
      | inr within ↦
          subst
            (λ b.
              length
                (if b then ds ++ replicate k b'0' else take (suc n) ds ++ b'.' ∷ drop (suc n) ds)
              ≤ 2 + length ds + suc n + 0)
            (sym within) (ground arith)
    ]

pub parts_of : (a b : ℕ) → (pos_part (sub_ℕ a b) ≤ a) × (neg_part (sub_ℕ a b) ≤ b)
parts_of a b = elim (Bool-cases (leb b a)) [
  | inl le ↦
      subst
        (λ c.
          (pos_part (if c then pos (a - b) else negsuc (b - a - 1)) ≤ a)
          × (neg_part (if c then pos (a - b) else negsuc (b - a - 1)) ≤ b))
        (sym le) (omega arith, omega arith)
  | inr gt ↦
      subst
        (λ c.
          (pos_part (if c then pos (a - b) else negsuc (b - a - 1)) ≤ a)
          × (neg_part (if c then pos (a - b) else negsuc (b - a - 1)) ≤ b))
        (sym gt) (omega arith, ground arith)
]
