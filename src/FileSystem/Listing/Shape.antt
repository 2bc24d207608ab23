-- ===== src/FileSystem/Listing/Shape.antt =====
-- What a directory listing of fs.c looks like on the heap.
use kira_zig.Common.{
  ℕ, zero, suc, ◌+◌, ◌-◌, ◌≤◌, ◌≡◌, ◌≢◌, refl, ap, ◌∙◌, Option, none, some, List, [], ◌∷◌, ◌++◌,
  arith, length, set, take, replicate, Bytes,
}
use kira_zig.FileSystem.{Object, buffer, listing, pointers, Heap, put}
use kira_zig.FileSystem.Store.{c_string, resized}
use kira_zig.FileSystem.Disk.{IsFinite}
use kira_zig.FileSystem.Cells.{put-IsFinite}

-- The copy of a name: its address, and the name.
abbrev pub Copy : Type 0
Copy = ℕ × Bytes

abbrev pub copies : List Copy → Heap → Heap
copies [] h = h
copies ((a, name) ∷ cs) h = copies cs (put a (some (buffer (c_string name))) h)

abbrev pub addresses : List Copy → List (Option ℕ)
addresses [] = []
addresses ((a, name) ∷ cs) = some a ∷ addresses cs

abbrev pub names_of : List Copy → List Bytes
names_of [] = []
names_of ((a, name) ∷ cs) = name ∷ names_of cs

-- Each copy stands where nothing was before.
abbrev pub AreFresh : List Copy → Heap → Type 0
AreFresh [] h = Unit
AreFresh ((a, name) ∷ cs) h = (h a ≡ none) × AreFresh cs (put a (some (buffer (c_string name))) h)

-- The array, with `spare` entries behind the counted ones.
abbrev pub array : List Copy → (spare : ℕ) → Object
array cs spare = pointers (addresses cs ++ replicate spare none)

-- The heap `h` with a listing at `l`, whose array is at `entries`.
abbrev pub with_listing : ℕ → (entries : Option ℕ) → (spare : ℕ) → List Copy → Heap → Heap
with_listing l none spare cs h = put l (some (listing none (length cs))) (copies cs h)
with_listing l (some b) spare cs h =
    put l (some (listing (some b) (length cs))) (put b (some (array cs spare)) (copies cs h))

-- Without an array there are no names; an array has one spare entry at most.
abbrev pub HasArray : ℕ → Option ℕ → (spare : ℕ) → List Copy → Heap → Type 0
HasArray l none spare cs h = cs ≡ []
HasArray l (some b) spare cs h = (b ≢ l) × (copies cs h b ≡ none) × (spare ≤ 1)

abbrev pub IsListing : ℕ → Option ℕ → (spare : ℕ) → List Copy → Heap → Type 0
IsListing l entries spare cs h =
    AreFresh cs h × (copies cs h l ≡ none) × HasArray l entries spare cs h

pub copies-IsFinite : (cs : List Copy) (h : Heap) → IsFinite h → IsFinite (copies cs h)
copies-IsFinite [] h finite = finite
copies-IsFinite ((a, name) ∷ cs) h finite =
    copies-IsFinite cs (put a (some (buffer (c_string name))) h) (put-IsFinite a _ h finite)

pub with_listing-IsFinite :
    (l : ℕ) (entries : Option ℕ) (spare : ℕ) (cs : List Copy) (h : Heap)
    → IsFinite h
    → IsFinite (with_listing l entries spare cs h)
with_listing-IsFinite l none spare cs h finite =
    put-IsFinite l _ (copies cs h) (copies-IsFinite cs h finite)
with_listing-IsFinite l (some b) spare cs h finite =
    put-IsFinite l _ (put b (some (array cs spare)) (copies cs h))
      (put-IsFinite b _ (copies cs h) (copies-IsFinite cs h finite))

pub copies-append :
    (cs : List Copy) (a : ℕ) (name : Bytes) (h : Heap)
    → copies (cs ++ (a, name) ∷ []) h ≡ put a (some (buffer (c_string name))) (copies cs h)
copies-append [] a name h = refl
copies-append ((b, t) ∷ cs) a name h =
    copies-append cs a name (put b (some (buffer (c_string t))) h)

pub addresses-append :
    (cs : List Copy) (a : ℕ) (name : Bytes)
    → addresses (cs ++ (a, name) ∷ []) ≡ addresses cs ++ some a ∷ []
addresses-append [] a name = refl
addresses-append ((b, t) ∷ cs) a name = ap (λ r. some b ∷ r) (addresses-append cs a name)

pub names_of-append :
    (cs : List Copy) (a : ℕ) (name : Bytes)
    → names_of (cs ++ (a, name) ∷ []) ≡ names_of cs ++ name ∷ []
names_of-append [] a name = refl
names_of-append ((b, t) ∷ cs) a name = ap (λ r. t ∷ r) (names_of-append cs a name)

pub length-addresses : (cs : List Copy) → length (addresses cs) ≡ length cs
length-addresses [] = refl
length-addresses ((a, t) ∷ cs) = ap suc (length-addresses cs)

pub length-names_of : (cs : List Copy) → length (names_of cs) ≡ length cs
length-names_of [] = refl
length-names_of ((a, t) ∷ cs) = ap suc (length-names_of cs)

pub AreFresh-append :
    (cs : List Copy) (a : ℕ) (name : Bytes) (h : Heap)
    → AreFresh cs h
    → copies cs h a ≡ none
    → AreFresh (cs ++ (a, name) ∷ []) h
AreFresh-append [] a name h fresh new = (new, tt)
AreFresh-append ((b, t) ∷ cs) a name h (first, fresh) new =
    (first, AreFresh-append cs a name (put b (some (buffer (c_string t))) h) fresh new)

-- A `realloc` to one more entry than are counted leaves one spare entry.
pub resized-array :
    (cs : List Copy) (spare : ℕ)
    → spare ≤ 1
    → resized (suc (length cs)) (addresses cs ++ replicate spare none)
      ≡ addresses cs ++ replicate 1 none
resized-array [] zero le = refl
resized-array [] (suc zero) le = refl
resized-array [] (suc (suc k)) le = absurd (omega arith)
resized-array ((a, t) ∷ cs) spare le =
    let ps = addresses cs ++ replicate spare none in
    let n = suc (length cs) in
    let e : suc n - suc (length ps) ≡ n - length ps = omega arith in
    ap (λ k. some a ∷ (take n ps ++ replicate k none)) e
    ∙ ap (λ r. some a ∷ r) (resized-array cs spare le)

pub set-array :
    (cs : List Copy) (q : Option ℕ)
    → set (addresses cs ++ replicate 1 none) (length cs) q ≡ addresses cs ++ q ∷ []
set-array [] q = refl
set-array ((a, t) ∷ cs) q = ap (λ r. some a ∷ r) (set-array cs q)

pub length-array :
    (cs : List Copy) (spare : ℕ) → length (addresses cs ++ replicate spare none) ≡ length cs + spare
length-array [] zero = refl
length-array [] (suc k) = omega (arith, length-array [] k)
length-array ((a, t) ∷ cs) spare = omega (arith, length-array cs spare)
