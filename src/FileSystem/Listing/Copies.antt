-- ===== src/FileSystem/Listing/Copies.antt =====
-- About the copies of the names in a listing of fs.c, as allocations of the heap.
use mathlib.Core.Path.{subst}
use kira_zig.Common.{
  ℕ, zero, suc, ◌≡◌, ◌≢◌, refl, sym, ap, ◌∙◌, Option, none, some, List, [], ◌∷◌, ◌++◌, arith,
  length, get_elem?,
}
use kira_zig.FileSystem.{Object, buffer, Heap, put}
use kira_zig.FileSystem.Store.{c_string}
use kira_zig.FileSystem.Cells.{put_self, put_ne, put_back, fresh-ne}
use kira_zig.FileSystem.Listing.Shape.{Copy, copies, AreFresh}

-- Two writes at different addresses.
pub put_swap :
    (a b : ℕ) (c o : Option Object) (h : Heap) → a ≢ b → put a c (put b o h) ≡ put b o (put a c h)
unfolding put
put_swap a b c o h ne = λ i x. pointwise x i
  where
    pointwise : (x : ℕ) → put a c (put b o h) x ≡ put b o (put a c h) x
    pointwise x = ground arith

-- The addresses of the copies are not `x`.
pub copies_ne :
    (cs : List Copy) (x : ℕ) {o : Object} (h : Heap)
    → AreFresh cs h
    → h x ≡ some o
    → copies cs h x ≡ some o
copies_ne [] x h fresh found = found
copies_ne ((a, t) ∷ cs) x h (first, fresh) found =
    copies_ne cs x (put a (some (buffer (c_string t))) h) fresh
      (put_ne a (some (buffer (c_string t))) h (λ e. fresh-ne h first found (sym e)) ∙ found)

-- The other copies do not depend on what stands at `a`.
pub copies_clear :
    (cs : List Copy) (a : ℕ) (o : Object) (h : Heap)
    → h a ≡ none
    → AreFresh cs (put a (some o) h)
    → (put a none (copies cs (put a (some o) h)) ≡ copies cs h) × AreFresh cs h
copies_clear [] a o h clear fresh = (put_back a none (some o) h clear, tt)
copies_clear ((b, t) ∷ cs) a o h clear (first, fresh) =
    let c = some (buffer (c_string t)) in
    let ne : b ≢ a = fresh-ne (put a (some o) h) first (put_self a (some o) h) in
    let swapped : put b c (put a (some o) h) ≡ put a (some o) (put b c h) =
      put_swap b a c (some o) h ne in
    let (rest, fresh') =
      copies_clear cs a o (put b c h) (put_ne b c h (λ e. ne (sym e)) ∙ clear)
        (subst (AreFresh cs) swapped fresh) in
    (
      ap (λ g. put a none (copies cs g)) swapped ∙ rest,
      (sym (put_ne a (some o) h ne) ∙ first, fresh'),
    )

pub get_elem?-past {ℓ} :
    {A : Type ℓ} (xs : List A) (y : A) (ys : List A) (i : ℕ)
    → length xs ≡ i
    → get_elem? (xs ++ y ∷ ys) i ≡ some y
get_elem?-past [] y ys zero e = refl
get_elem?-past [] y ys (suc i) e = absurd (omega (arith, e))
get_elem?-past (x ∷ xs) y ys zero e = absurd (omega (arith, e))
get_elem?-past (x ∷ xs) y ys (suc i) e = get_elem?-past xs y ys i (omega (arith, e))
