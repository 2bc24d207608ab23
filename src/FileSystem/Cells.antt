-- ===== src/FileSystem/Cells.antt =====
-- About the heap and the disk of fs.c as functions: what a write at one key does.
use kira_zig.Common.{
  ℕ, ◌+◌, ◌≤◌, ◌≡◌, ◌≢◌, refl, ap, ◌∙◌, Option, none, some, if◌then◌else◌, arith, Bytes, str_eq,
  str_eq_refl,
}
use kira_zig.FileSystem.{Object, Heap, put}
use kira_zig.FileSystem.Store.{free}
use kira_zig.FileSystem.Disk.{Disk, IsFinite, with_file, with_fd, without_fd}

module _ {A : Type 0} where
  pub put_self : (k : ℕ) (a : A) (f : ℕ → A) → put k a f k ≡ a
  unfolding put
  put_self k a f = ground arith

  pub put_ne : (k : ℕ) (a : A) (f : ℕ → A) {x : ℕ} → x ≢ k → put k a f x ≡ f x
  unfolding put
  put_ne k a f ne = ground arith

  pub put-put : (k : ℕ) (a b : A) (f : ℕ → A) → put k a (put k b f) ≡ put k a f
  unfolding put
  put-put k a b f = λ i x. pointwise x i
    where
      pointwise : (x : ℕ) → put k a (put k b f) x ≡ put k a f x
      pointwise x = ground arith

  -- What was there comes back.
  pub put_back : (k : ℕ) (a b : A) (f : ℕ → A) → f k ≡ a → put k a (put k b f) ≡ f
  unfolding put
  put_back k a b f e = λ i x. pointwise x i
    where
      pointwise : (x : ℕ) → put k a (put k b f) x ≡ f x
      pointwise x = ground (arith, e)

put_far :
    {A : Type 0} (k n : ℕ) (a c : A) (f : ℕ → A)
    → ((x : ℕ) → n ≤ x → f x ≡ c)
    → (x : ℕ) → n + k + 1 ≤ x
    → put k a f x ≡ c
put_far k n a c f far x le = put_ne k a f (λ e. omega (arith, e)) ∙ far x (omega arith)

pub put-IsFinite : (a : ℕ) (o : Option Object) (h : Heap) → IsFinite h → IsFinite (put a o h)
put-IsFinite a o h (n, far) = (n + a + 1, put_far a n o none h far)

-- The address of an allocation is not one where something was.
pub fresh-ne : (h : Heap) {a f : ℕ} {o : Object} → h a ≡ none → h f ≡ some o → a ≢ f
fresh-ne h fresh found e = cc

pub put_over :
    (h : Heap) (a f : ℕ) (o o' : Option Object)
    → a ≢ f
    → h f ≡ none
    → put f none (put a o (put f o' h)) ≡ put a o h
unfolding put
put_over h a f o o' ne fresh = λ i x. pointwise x i
  where
    pointwise : (x : ℕ) → put f none (put a o (put f o' h)) x ≡ put a o h x
    pointwise x = ground (arith, fresh)

pub without_fd-with_fd :
    (n : ℕ) (path : Bytes) (k : ℕ) (d : Disk)
    → d.table n ≡ none
    → without_fd n (with_fd n path k d) ≡ d
unfolding without_fd with_fd
without_fd-with_fd n path k d free =
    ap (λ t. record d { table = t }) (put_back n none _ d.table free)

pub file-with_file : (path bs : Bytes) (d : Disk) → (with_file path bs d).file path ≡ bs
unfolding with_file
file-with_file path bs d = rw (str_eq_refl path) refl

pub with_file-with_file :
    (path bs old : Bytes) (d : Disk)
    → with_file path bs (with_file path old d) ≡ with_file path bs d
unfolding with_file
with_file-with_file path bs old d = λ i. record d { file = λ x. pointwise x i }
  where
    pointwise :
        (x : Bytes)
        → (if str_eq x path then bs else (if str_eq x path then old else d.file x))
          ≡ (if str_eq x path then bs else d.file x)
    pointwise x = ground arith

pub table-with_file : (path bs : Bytes) (d : Disk) → (with_file path bs d).table ≡ d.table
unfolding with_file
table-with_file path bs d = refl

pub put_same : {A : Type 0} (k : ℕ) (a : A) (f : ℕ → A) → f k ≡ a → put k a f ≡ f
unfolding put
put_same k a f e = λ i x. pointwise x i
  where
    pointwise : (x : ℕ) → put k a f x ≡ f x
    pointwise x = ground (arith, e)
