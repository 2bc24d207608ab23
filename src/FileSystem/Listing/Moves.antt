-- ===== src/FileSystem/Listing/Moves.antt =====
-- The heap of a directory listing of fs.c: equations for writes at several addresses.
use kira_zig.Common.{ℕ, ◌≡◌, ◌≢◌, Option, none, some, arith}
use kira_zig.FileSystem.{Object, Heap, put}

-- The array under a listing is written.
pub put_under :
    (l b : ℕ) (c o o' : Option Object) (h : Heap)
    → b ≢ l
    → put b o' (put l c (put b o h)) ≡ put l c (put b o' h)
unfolding put
put_under l b c o o' h ne = λ i x. pointwise x i
  where
    pointwise : (x : ℕ) → put b o' (put l c (put b o h)) x ≡ put l c (put b o' h) x
    pointwise x = ground arith

-- Something new stands below.
pub put_below :
    (l b a : ℕ) (c o o' : Option Object) (h : Heap)
    → a ≢ l
    → a ≢ b
    → put a o' (put l c (put b o h)) ≡ put l c (put b o (put a o' h))
unfolding put
put_below l b a c o o' h ne ne' = λ i x. pointwise x i
  where
    pointwise : (x : ℕ) → put a o' (put l c (put b o h)) x ≡ put l c (put b o (put a o' h)) x
    pointwise x = ground arith

pub put_again :
    (l : ℕ) (c c' o : Option Object) (b : ℕ) (h : Heap)
    → put l c' (put b o (put l c h)) ≡ put l c' (put b o h)
unfolding put
put_again l c c' o b h = λ i x. pointwise x i
  where
    pointwise : (x : ℕ) → put l c' (put b o (put l c h)) x ≡ put l c' (put b o h) x
    pointwise x = ground arith

-- The array has moved from `b` to `b'`.
pub put_moved :
    (l b b' : ℕ) (c c' o o' : Option Object) (h : Heap)
    → h b ≡ none
    → put l c' (put b' o' (put b none (put l c (put b o h)))) ≡ put l c' (put b' o' h)
unfolding put
put_moved l b b' c c' o o' h new = λ i x. pointwise x i
  where
    pointwise :
        (x : ℕ)
        → put l c' (put b' o' (put b none (put l c (put b o h)))) x ≡ put l c' (put b' o' h) x
    pointwise x = ground (arith, new)

pub moved_new :
    (l b b' : ℕ) (c : Object) (o : Option Object) (h : Heap)
    → h b ≡ none
    → b ≢ l
    → put b none (put l (some c) (put b o h)) b' ≡ none
    → (b' ≢ l) × (h b' ≡ none)
unfolding put
moved_new l b b' c o h new ne found = ground arith
