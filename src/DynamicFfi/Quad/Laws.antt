-- ===== src/DynamicFfi/Quad/Laws.antt =====
-- About kira_ui_write_quad: the numbers stand in the buffer in the order of the corners.
use kira_zig.Common.{
  ℕ, zero, suc, ◌+◌, ◌*◌, ◌^◌, ◌≤◌, ◌≡◌, ◌≢◌, inl, inr, refl, sym, ap, ◌∙◌, Bool, true, false, ◌&&◌,
  Option, none, some, List, [], ◌∷◌, ◌++◌, ltb, arith, length,
}
use kira_zig.DynamicFfi.Access.{Memory, load, store, address}
use kira_zig.DynamicFfi.Access.Laws.{IsAllocated, Outside, Keeps, store-Stored, load_agree}
use kira_zig.DynamicFfi.Access.Typed.{nonnull}
use kira_zig.DynamicFfi.Quad.{
  FloatOps, Quad, and_then, write_floats, vertex, corner, write_corners, ui_write_quad,
}

abbrev pub push_float : Option ℕ → Option (List ℕ) → Option (List ℕ)
push_float none fs = none
push_float (some f) none = none
push_float (some f) (some fs) = some (f ∷ fs)

-- The `n` numbers of 4 bytes from `a` on.
unfoldable pub load_floats : (n a : ℕ) → Memory → Option (List ℕ)
unfolding load
load_floats zero a m = some []
load_floats (suc n) a m = push_float (load 4 a m) (load_floats n (a + 4) m)

-- The numbers are bit patterns of 32 bits.
abbrev pub are_floats : List ℕ → Bool
are_floats [] = true
are_floats (f ∷ fs) = ltb f 4294967296 && are_floats fs

float_first : (b c : Bool) → (b && c) ≡ true → b ≡ true
float_first true c e = refl
float_first false c e = e

float_rest : (b c : Bool) → (b && c) ≡ true → c ≡ true
float_rest true c e = e
float_rest false c e = absurd (ground arith)

write_floats-load_floats :
    (a : ℕ) (fs : List ℕ) (m : Memory)
    → IsAllocated a (4 * length fs) m
    → are_floats fs ≡ true
    → (m' : Memory) × (write_floats a fs m ≡ some m')
      × (load_floats (length fs) a m' ≡ some fs)
      × Outside a (4 * length fs) m m'
      × Keeps m m'
unfolding write_floats load_floats load store
write_floats-load_floats a [] m al ok = (m, refl, refl, (λ x out. refl), (λ x there. there))
write_floats-load_floats a (f ∷ fs) m al ok =
    let here = float_first (ltb f 4294967296) (are_floats fs) ok in
    let (m₁, stored, (back, out, keeps)) =
      store-Stored 4 a f m (λ x le lt. al x le (omega arith)) (ground arith) in
    let (m', written, read, out', keeps') =
      write_floats-load_floats (a + 4) fs m₁ (λ x le lt. keeps x (al x (omega arith) (omega arith)))
        (float_rest (ltb f 4294967296) (are_floats fs) ok) in
    let same : load 4 a m' ≡ load 4 a m₁ =
      load_agree 4 a m₁ m' (λ x le lt. out' x (inl (omega arith))) in
    (
      m',
      ap (λ o. and_then o (write_floats (a + 4) fs)) stored ∙ written,
      ap (λ o. push_float o (load_floats (length fs) (a + 4) m')) (same ∙ back)
          ∙ ap (push_float (some f)) read,
      (λ x far.
          out' x (elim far [ inl lt ↦ inl (omega arith) | inr le ↦ inr (omega arith) ])
          ∙ out x (elim far [ inl lt ↦ inl (omega arith) | inr le ↦ inr (omega arith) ])),
      (λ x there. keeps' x (keeps x there)),
    )

and_then_assoc :
    (o : Option Memory) (f g : Memory → Option Memory)
    → and_then (and_then o f) g ≡ and_then o (λ m. and_then (f m) g)
and_then_assoc none f g = refl
and_then_assoc (some m) f g = refl

and_then_ext :
    (o : Option Memory) (f g : Memory → Option Memory)
    → ((m : Memory) → f m ≡ g m)
    → and_then o f ≡ and_then o g
and_then_ext none f g same = refl
and_then_ext (some m) f g same = same m

write_floats-append :
    (a : ℕ) (xs ys : List ℕ) (m : Memory)
    → write_floats a (xs ++ ys) m
      ≡ and_then (write_floats a xs m) (write_floats (a + 4 * length xs) ys)
unfolding write_floats
write_floats-append a [] ys m =
    let e : a ≡ a + 4 * 0 = omega arith in ap (λ b. write_floats b ys m) e
write_floats-append a (x ∷ xs) ys m =
    let e : a + 4 + 4 * length xs ≡ a + 4 * length (x ∷ xs) = omega arith in
    and_then_ext (store 4 a x m) (write_floats (a + 4) (xs ++ ys))
      (λ m₁. and_then (write_floats (a + 4) xs m₁) (write_floats (a + 4 + 4 * length xs) ys))
      (write_floats-append (a + 4) xs ys)
    ∙ sym (
        and_then_assoc (store 4 a x m) (write_floats (a + 4) xs)
          (write_floats (a + 4 + 4 * length xs) ys))
    ∙ ap (λ b. and_then (and_then (store 4 a x m) (write_floats (a + 4) xs)) (write_floats b ys)) e

module _ (F : FloatOps) (q : Quad) where
  -- The numbers of the vertices from `c` on.
  abbrev pub vertices : (n c : ℕ) → List ℕ
  vertices zero c = []
  vertices (suc n) c = corner F q c ++ vertices n (c + 1)

  write_corners-write_floats :
      (buf n c : ℕ) (m : Memory)
      → buf + 92 * (c + n) ≤ 2 ^ 64
      → write_corners F q buf n c m ≡ write_floats (buf + 92 * c) (vertices n c) m
  unfolding write_corners write_floats
  write_corners-write_floats buf zero c m fits = refl
  write_corners-write_floats buf (suc n) c m fits =
      let at : address buf (4 * (c * 23)) ≡ buf + 92 * c = omega arith in
      let next : buf + 92 * (c + 1) ≡ buf + 92 * c + 4 * 23 = omega arith in
      ap (λ a. and_then (write_floats a (corner F q c) m) (write_corners F q buf n (c + 1))) at
      ∙ and_then_ext (write_floats (buf + 92 * c) (corner F q c) m)
          (write_corners F q buf n (c + 1)) (write_floats (buf + 92 * (c + 1)) (vertices n (c + 1)))
          (λ m₁. write_corners-write_floats buf n (c + 1) m₁ (omega arith))
      ∙ ap
          (λ a.
            and_then (write_floats (buf + 92 * c) (corner F q c) m)
              (write_floats a (vertices n (c + 1))))
          next
      ∙ sym (write_floats-append (buf + 92 * c) (corner F q c) (vertices n (c + 1)) m)

  -- The top left, top right, bottom right and bottom left vertices.
  abbrev pub quad_floats : List ℕ
  quad_floats =
      vertex F q q.px0 q.py0 q.lx0 q.ly0
      ++ vertex F q q.px1 q.py0 q.lx1 q.ly0
      ++ vertex F q q.px1 q.py1 q.lx1 q.ly1
      ++ vertex F q q.px0 q.py1 q.lx0 q.ly1

-- With a pointer that is not NULL, 368 allocated bytes at the float `base_floats` that do not wrap around, and
-- numbers that are patterns of 32 bits, the quad is written: the 92 floats there are those of the top left, top
-- right, bottom right and bottom left vertices in this order, and no other byte changes.
pub ui_write_quad-quad_floats :
    (F : FloatOps) (ptr base_floats : ℕ) (q : Quad) (m : Memory)
    → ptr ≢ 0
    → address ptr (4 * base_floats) + 368 ≤ 2 ^ 64
    → IsAllocated (address ptr (4 * base_floats)) 368 m
    → are_floats (quad_floats F q) ≡ true
    → (m' : Memory) × (ui_write_quad F ptr base_floats q m ≡ some m')
      × (load_floats 92 (address ptr (4 * base_floats)) m' ≡ some (quad_floats F q))
      × Outside (address ptr (4 * base_floats)) 368 m m'
unfolding ui_write_quad
ui_write_quad-quad_floats F ptr base_floats q m ne fits al ok =
    let buf = address ptr (4 * base_floats) in
    let (m', written, read, out, _) = write_floats-load_floats buf (quad_floats F q) m al ok in
    let start : buf + 92 * 0 ≡ buf = omega arith in
    (
      m',
      nonnull ptr (some m) (write_corners F q buf 4 0 m) ne
          ∙ write_corners-write_floats F q buf 4 0 m fits
          ∙ ap (λ a. write_floats a (quad_floats F q) m) start
          ∙ written,
      read,
      out,
    )
