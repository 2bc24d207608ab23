-- ===== src/FileSystem/Listing/Entries.antt =====
-- About `fs_directory_count` and `fs_directory_entry`.
use mathlib.Core.Path.{subst}
use kira_zig.Common.{
  ℕ, zero, suc, ◌^◌, ◌<◌, ◌≤◌, ◌≡◌, inl, inr, refl, sym, ap, ◌∙◌, ℤ, pos, negsuc, true, false,
  Option, none, some, List, [], ◌∷◌, leb, if◌then◌else◌, arith, length, get_elem?, get_elem?-append,
  replicate, Bytes, Bool-cases, leb→le,
}
use kira_zig.FileSystem.{
  buffer, listing, Heap, Text, empty_string, at, put, System, Process, Outcome, done, pure,
  and_then, ◌>>=◌,
}
use kira_zig.FileSystem.Store.{c_string, load_listing}
use kira_zig.FileSystem.Rules.{Returns, Holds}
use kira_zig.FileSystem.Cells.{put_self, put_ne, fresh-ne}
use kira_zig.FileSystem.Listing.{text_of, load_pointer, directory_count, entry_at, directory_entry}
use kira_zig.FileSystem.Listing.Access.{load_listing-step, load_pointer-step}
use kira_zig.FileSystem.Listing.Shape.{
  Copy, copies, addresses, names_of, AreFresh, array, with_listing, IsListing, length-names_of,
}
use kira_zig.FileSystem.Listing.Copies.{copies_ne}

-- The element at a signed index.
abbrev pub at_index : List Bytes → ℤ → Option Bytes
at_index names (pos i) = get_elem? names i
at_index names (negsuc i) = none

-- The text of a name, in the heap; the static empty text for no name.
abbrev pub Shows : Option Bytes → Heap → Text → Type 0
Shows none h t = t ≡ empty_string
Shows (some name) h t = (a : ℕ) × (t ≡ at a) × (h a ≡ some (buffer (c_string name)))

get_elem?-none {ℓ} : {A : Type ℓ} (xs : List A) (i : ℕ) → length xs ≤ i → get_elem? xs i ≡ none
get_elem?-none [] i le = refl
get_elem?-none (x ∷ xs) zero le = absurd (omega arith)
get_elem?-none (x ∷ xs) (suc i) le = get_elem?-none xs i (omega arith)

-- The copy at a position.
copy_at :
    (cs : List Copy) (i : ℕ) (h : Heap)
    → i < length cs
    → AreFresh cs h
    → (a : ℕ) × (name : Bytes) × (get_elem? (addresses cs) i ≡ some (some a))
      × (get_elem? (names_of cs) i ≡ some name)
      × (copies cs h a ≡ some (buffer (c_string name)))
copy_at [] i h lt fresh = absurd (omega arith)
copy_at ((a, t) ∷ cs) zero h lt (first, fresh) =
    let o = some (buffer (c_string t)) in
    (a, t, refl, refl, copies_ne cs a (put a o h) fresh (put_self a o h))
copy_at ((a, t) ∷ cs) (suc i) h lt (first, fresh) =
    copy_at cs i (put a (some (buffer (c_string t))) h) (omega arith) fresh

module _ (K : System) {V : Type 0} (view : K.State → V) where
  -- The names that are listed, counted and by their index.
  abbrev pub Describes : (l : ℕ) → (seen : List Bytes) → (index : ℤ) → Process K.State → Type 0
  Describes l seen index p =
      (directory_count (some l) p ≡ done (length seen) p)
      × Returns (λ t q. (q ≡ p) × Shows (at_index seen index) p.heap t)
          (directory_entry (some l) index p)

  -- Once the listing is loaded.
  describes :
      (l : ℕ) (entries : Option ℕ) (seen : List Bytes) (index : ℤ) (p : Process K.State)
      → load_listing l p ≡ done (entries, length seen) p
      → Returns
          (λ t q. (q ≡ p) × Shows (at_index seen index) p.heap t)
          (entry_at index (entries, length seen) p)
      → Describes l seen index p
  unfolding directory_count directory_entry
  describes l entries seen index p loaded entry = (
    ap (λ r. and_then r (λ old p. done old.1 p)) loaded,
    subst
        (λ r.
          Returns (λ t q. (q ≡ p) × Shows (at_index seen index) p.heap t)
            (and_then r (entry_at index)))
        (sym loaded) entry,
  )

  beyond :
      (entries : Option ℕ) (seen : List Bytes) (i : ℕ) (p : Process K.State)
      → leb (length seen) i ≡ true
      → Returns
          (λ t q. (q ≡ p) × Shows (get_elem? seen i) p.heap t)
          (entry_at (pos i) (entries, length seen) p)
  beyond entries seen i p past =
      let e : get_elem? seen i ≡ none = get_elem?-none seen i (leb→le (length seen) i past) in
      subst
        (λ o.
          Returns (λ t q. (q ≡ p) × Shows o p.heap t) (entry_at (pos i) (entries, length seen) p))
        (sym e)
        (subst
          (λ b.
            Returns (λ t q. (q ≡ p) × (t ≡ empty_string))
              ((if b then pure empty_string else (load_pointer entries i >>= λ q. pure (text_of q)))
                p))
          (sym past) (refl, refl))

  -- An entry of the array.
  within :
      (l b spare : ℕ) (cs : List Copy) (d : V) (h : Heap) (i : ℕ) (p : Process K.State)
      → IsListing l (some b) spare cs h
      → Holds K view d (with_listing l (some b) spare cs h) p
      → leb (length (names_of cs)) i ≡ false
      → Returns
          (λ t q. (q ≡ p) × Shows (get_elem? (names_of cs) i) p.heap t)
          (entry_at (pos i) (some b, length (names_of cs)) p)
  within l b spare cs d h i p (fresh, new, (ne, clear, le)) holds short =
      let lt : i < length cs = ground (arith, length-names_of cs) in
      let (a, name, at_a, at_name, there) = copy_at cs i h lt fresh in
      let c = some (listing (some b) (length cs)) in
      let o = some (array cs spare) in
      let g = copies cs h in
      let all = put l c (put b o g) in
      let found : p.heap a ≡ some (buffer (c_string name)) =
        ap (λ h. h a) holds.1
        ∙ put_ne l c (put b o g) (λ e. fresh-ne g new there (sym e))
        ∙ put_ne b o g (λ e. fresh-ne g clear there (sym e))
        ∙ there in
      let given : load_pointer (some b) i p ≡ done (some a) p =
        load_pointer-step K view d all b i p (put_ne l c (put b o g) ne ∙ put_self b o g)
          (get_elem?-append (addresses cs) i (replicate spare none) at_a) holds in
      let Q = λ (o : Option Bytes) (r : Outcome K.State Text).
        Returns (λ t q. (q ≡ p) × Shows o p.heap t) r in
      subst (λ o. Q o (entry_at (pos i) (some b, length (names_of cs)) p)) (sym at_name)
        (subst
          (λ t. Q (some name) (
            (if t then pure empty_string else (load_pointer (some b) i >>= λ q. pure (text_of q)))
              p))
          (sym short)
          (subst (λ r. Q (some name) (and_then r (λ q. pure (text_of q)))) (sym given)
            (refl, (a, refl, found))))

  -- The count of a listing with fewer than 2 ^ 31 names, which an `int` holds, is the number of its
  -- names, and the entry at an index is the name there, in a buffer; at any other index, a negative one
  -- too, it is the static empty text.
  pub directory_entry-Describes :
      (l : ℕ) (entries : Option ℕ) (spare : ℕ) (cs : List Copy) (d : V) (h : Heap) (index : ℤ)
      (p : Process K.State)
      → length cs < 2 ^ 31
      → IsListing l entries spare cs h
      → Holds K view d (with_listing l entries spare cs h) p
      → Describes l (names_of cs) index p
  directory_entry-Describes l none spare (c ∷ cs) d h index p small (fresh, new, e) holds = cc
  directory_entry-Describes l none spare [] d h index p small shape holds =
      let o = some (listing none 0) in
      let loaded = load_listing-step K view d (put l o h) l p (put_self l o h) holds in
      describes l none [] index p loaded
        (elim index
          as (λ index.
            Returns (λ t q. (q ≡ p) × Shows (at_index [] index) p.heap t)
              (entry_at index (none, 0) p)) [
                | pos i ↦ beyond none [] i p (ground arith)
                | negsuc i ↦ (refl, refl)
              ])
  directory_entry-Describes l (some b) spare cs d h index p small shape holds =
      let o = some (listing (some b) (length cs)) in
      let g = put b (some (array cs spare)) (copies cs h) in
      let loaded = load_listing-step K view d (put l o g) l p (put_self l o g) holds in
      let count : length cs ≡ length (names_of cs) = sym (length-names_of cs) in
      describes l (some b) (names_of cs) index p (loaded ∙ ap (λ n. done (some b, n) p) count)
        (elim index
          as (λ index.
            Returns (λ t q. (q ≡ p) × Shows (at_index (names_of cs) index) p.heap t)
              (entry_at index (some b, length (names_of cs)) p)) [
                | negsuc i ↦ (refl, refl)
                | pos i ↦ elim (Bool-cases (leb (length (names_of cs)) i)) [
                  | inl past ↦ beyond (some b) (names_of cs) i p past
                  | inr short ↦ within l b spare cs d h i p shape holds short
                ]
              ])
