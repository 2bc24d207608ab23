-- ===== src/DynamicFfi/Quad.antt =====
-- kira_ui_write_quad of dynamic_ffi_helpers.c: the four vertices of a quad are written into a vertex buffer.
pub mod Laws
use kira_zig.Common.{ℕ, zero, suc, ◌+◌, ◌*◌, ◌==◌, if◌then◌else◌, Option, none, some, List, [], ◌∷◌}
use kira_zig.DynamicFfi.Access.{Memory, store, address, unless_null}

-- The arithmetic of the target on the bit patterns of `float`.
pub record FloatOps : Type 0 where
  pub div : ℕ → ℕ → ℕ
  pub mul : ℕ → ℕ → ℕ
  pub sub : ℕ → ℕ → ℕ

-- The arguments: the corners of the quad and of its local coordinates, the viewport, and what the vertices share.
pub record Quad : Type 0 where
  pub px0 : ℕ
  pub py0 : ℕ
  pub px1 : ℕ
  pub py1 : ℕ
  pub lx0 : ℕ
  pub ly0 : ℕ
  pub lx1 : ℕ
  pub ly1 : ℕ
  pub vw : ℕ
  pub vh : ℕ
  pub half_w : ℕ
  pub half_h : ℕ
  pub radius : ℕ
  pub border_width : ℕ
  pub mode : ℕ
  pub fr : ℕ
  pub fg : ℕ
  pub fb : ℕ
  pub fa : ℕ
  pub br : ℕ
  pub bg : ℕ
  pub bb : ℕ
  pub ba : ℕ
  pub clip_min_x : ℕ
  pub clip_min_y : ℕ
  pub clip_max_x : ℕ
  pub clip_max_y : ℕ

-- 1.0f and 2.0f
abbrev pub one_f : ℕ
one_f = 1065353216

abbrev pub two_f : ℕ
two_f = 1073741824

-- Element `c` of an array of four.
abbrev pub pick : (x₀ x₁ x₂ x₃ c : ℕ) → ℕ
pick x₀ x₁ x₂ x₃ c = if c == 0 then x₀ else if c == 1 then x₁ else if c == 2 then x₂ else x₃

abbrev pub and_then : Option Memory → (Memory → Option Memory) → Option Memory
and_then none f = none
and_then (some m) f = f m

-- `v[0] = …; v[1] = …; …`
unfoldable pub write_floats : (a : ℕ) → List ℕ → Memory → Option Memory
write_floats a [] m = some m
write_floats a (f ∷ fs) m = and_then (store 4 a f m) (write_floats (a + 4) fs)

-- The body of the loop assigns these numbers, where `px` and the others are the elements of the arrays.
abbrev pub vertex : FloatOps → Quad → (px py lx ly : ℕ) → List ℕ
vertex F q px py lx ly =
    F.sub (F.mul (F.div px q.vw) two_f) one_f
    ∷ F.sub one_f (F.mul (F.div py q.vh) two_f)
    ∷ px
    ∷ py
    ∷ lx
    ∷ ly
    ∷ q.half_w
    ∷ q.half_h
    ∷ q.radius
    ∷ q.border_width
    ∷ q.mode
    ∷ q.fr
    ∷ q.fg
    ∷ q.fb
    ∷ q.fa
    ∷ q.br
    ∷ q.bg
    ∷ q.bb
    ∷ q.ba
    ∷ q.clip_min_x
    ∷ q.clip_min_y
    ∷ q.clip_max_x
    ∷ q.clip_max_y
    ∷ []

abbrev pub corner : FloatOps → Quad → (c : ℕ) → List ℕ
corner F q c =
    vertex F q (pick q.px0 q.px1 q.px1 q.px0 c) (pick q.py0 q.py0 q.py1 q.py1 c)
      (pick q.lx0 q.lx1 q.lx1 q.lx0 c) (pick q.ly0 q.ly0 q.ly1 q.ly1 c)

-- `n` rounds of the loop, from `c` on.
unfoldable pub write_corners : FloatOps → Quad → (buf n c : ℕ) → Memory → Option Memory
write_corners F q buf zero c m = some m
write_corners F q buf (suc n) c m =
    and_then (write_floats (address buf (4 * (c * 23))) (corner F q c) m)
      (write_corners F q buf n (c + 1))

unfoldable pub ui_write_quad : FloatOps → (ptr base_floats : ℕ) → Quad → Memory → Option Memory
ui_write_quad F ptr base_floats q m =
    unless_null ptr (some m) (write_corners F q (address ptr (4 * base_floats)) 4 0 m)
