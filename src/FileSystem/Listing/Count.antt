-- ===== src/FileSystem/Listing/Count.antt =====
-- About the second half of `fs_listing_add` of fs.c: the copy of the name, counted.
use kira_zig.Common.{
  ℕ, ◌+◌, ◌^◌, ◌<◌, ◌≡◌, ◌≢◌, sym, ap, ◌∙◌, Bool, true, false, Option, none, some, List, [], ◌∷◌,
  ◌++◌, arith, length, length-append, append-nil, set, replicate, Bytes,
}
use kira_zig.FileSystem.{Object, buffer, listing, pointers, Heap, put, System, Process}
use kira_zig.FileSystem.Store.{c_string}
use kira_zig.FileSystem.Disk.{AllocFailure, no_block}
use kira_zig.FileSystem.Rules.{Returns, Returns-bind, Holds, Placed}
use kira_zig.FileSystem.Cells.{put_self, put_ne, put-put, fresh-ne}
use kira_zig.FileSystem.Listing.{count_entry}
use kira_zig.FileSystem.Listing.Access.{next_count-step, store_listing-at, store_pointer-at}
use kira_zig.FileSystem.Listing.Moves.{put_under, put_below}
use kira_zig.FileSystem.Listing.Shape.{
  Copy, copies, addresses, AreFresh, array, with_listing, IsListing, copies-append,
  addresses-append, AreFresh-append, set-array, length-array,
}

module _ (K : System) {V : Type 0} (view : K.State → V) (l : ℕ) (name : Bytes) (d : V)
    (h : Heap) where
  -- The name is the last one; or the names are as before, after a call that failed.
  abbrev pub Added : List Copy → Bool → Process K.State → Type 0
  Added cs true p =
      (a b : ℕ) × IsListing l (some b) 0 (cs ++ (a, name) ∷ []) h
      × Holds K view d (with_listing l (some b) 0 (cs ++ (a, name) ∷ []) h) p
  Added cs false p =
      AllocFailure K
      × (entries : Option ℕ) × (spare : ℕ) × IsListing l entries spare cs h
      × Holds K view d (with_listing l entries spare cs h) p

  module _ (cs : List Copy) (b : ℕ) (fresh : AreFresh cs h) (new : copies cs h l ≡ none)
      (apart : b ≢ l) (new' : copies cs h b ≡ none) (small : length cs + 1 < 2 ^ 31) where
    abbrev text : Object
    text = buffer (c_string name)

    abbrev here : Object
    here = listing (some b) (length cs)

    abbrev one_spare : Heap
    one_spare = with_listing l (some b) 1 cs h

    -- The array behind the listing of a heap.
    at_array : (o : Object) (g : Heap) → put l (some here) (put b (some o) g) b ≡ some o
    at_array o g = put_ne l (some here) (put b (some o) g) apart ∙ put_self b (some o) g

    in_array : length cs < length (addresses cs ++ replicate 1 none)
    in_array = omega (arith, length-array cs 1)

    -- The heap once the copy is counted.
    counted :
        (a : ℕ)
        → put l (some (listing (some b) (length cs + 1))) (
            put l (some here) (
              put b
                (some (pointers (addresses cs ++ some a ∷ [])))
                (put a (some text) (copies cs h))))
          ≡ with_listing l (some b) 0 (cs ++ (a, name) ∷ []) h
    counted a =
        let cs' : List Copy = cs ++ (a, name) ∷ [] in
        let full : addresses cs ++ some a ∷ [] ≡ addresses cs' ++ [] =
          sym (append-nil (addresses cs') ∙ addresses-append cs a name) in
        let long : length cs + 1 ≡ length cs' = omega (arith, length-append cs ((a, name) ∷ [])) in
        put-put l _ _ _
        ∙ ap
            (λ n. put l (some (listing (some b) n)) (
              put b (some (pointers (addresses cs ++ some a ∷ [])))
                (put a (some text) (copies cs h))))
            long
        ∙ ap
            (λ ps.
              put l (some (listing (some b) (length cs')))
                (put b (some (pointers ps)) (put a (some text) (copies cs h))))
            full
        ∙ ap
            (λ g.
              put l (some (listing (some b) (length cs')))
                (put b (some (pointers (addresses cs' ++ []))) g))
            (sym (copies-append cs a name h))

    pub count_entry-Added :
        (r : Option ℕ) (p : Process K.State)
        → Placed K view text d one_spare r p
        → Returns (Added cs) (count_entry K l b (length cs) r p)
    unfolding count_entry
    count_entry-Added none p (why, holds) =
        Returns-bind
          (λ _. Holds K view d (
            put b (some (pointers (set (addresses cs ++ replicate 1 none) (length cs) none)))
              one_spare))
          (Added cs) _ _
          (store_pointer-at K view d one_spare b (length cs) none (addresses cs ++ replicate 1 none)
            p (at_array (array cs 1) (copies cs h)) in_array holds)
          (λ _ q (at_d, at_h). (
            no_block why,
            some b,
            1,
            (fresh, new, (apart, new', omega arith)),
            (
              at_d,
              at_h
                  ∙ ap (λ ps. put b (some (pointers ps)) one_spare) (set-array cs none)
                  ∙ put_under l b (some here) _ _ (copies cs h) apart,
            ),
          ))
    count_entry-Added (some a) p (fresh_a, (at_d, at_h)) =
        let c = some here in
        let g = put a (some text) (copies cs h) in
        let under = put b (some (array cs 1)) (copies cs h) in
        let not_l : a ≢ l = fresh-ne one_spare fresh_a (put_self l c under) in
        let not_b : a ≢ b = fresh-ne one_spare fresh_a (at_array (array cs 1) (copies cs h)) in
        let clear : copies cs h a ≡ none =
          sym (put_ne l c under not_l ∙ put_ne b (some (array cs 1)) (copies cs h) not_b)
          ∙ fresh_a in
        let h₁ = put l c (put b (some (array cs 1)) g) in
        let ps = addresses cs ++ replicate 1 none in
        let h₂ = put l c (put b (some (pointers (addresses cs ++ some a ∷ []))) g) in
        Returns-bind
          (λ _. Holds K view d (put b (some (pointers (set ps (length cs) (some a)))) h₁))
          (Added cs) _ _
          (store_pointer-at K view d h₁ b (length cs) (some a) ps p (at_array (array cs 1) g)
            in_array (at_d, at_h ∙ put_below l b a c _ _ (copies cs h) not_l not_b))
          (λ _ q (at_d, at_h). rw (next_count-step K view d h (length cs) q small) (
            Returns-bind (λ _. Holds K view d (put l (some (listing (some b) (length cs + 1))) h₂))
              (Added cs) _ _
              (store_listing-at K view d h₂ l (some b, length cs + 1) q
                (put_self l c (put b (some (pointers (addresses cs ++ some a ∷ []))) g))
                (
                  at_d,
                  at_h
                      ∙ ap (λ ps. put b (some (pointers ps)) h₁) (set-array cs (some a))
                      ∙ put_under l b c _ _ g apart,
                ))
              (λ _ q (at_d, at_h). (
                a,
                b,
                (
                  AreFresh-append cs a name h fresh clear,
                  ap (λ g. g l) (copies-append cs a name h)
                      ∙ put_ne a _ (copies cs h) (λ e. not_l (sym e))
                      ∙ new,
                  (
                    apart,
                    ap (λ g. g b) (copies-append cs a name h)
                        ∙ put_ne a _ (copies cs h) (λ e. not_b (sym e))
                        ∙ new',
                    omega arith,
                  ),
                ),
                (at_d, at_h ∙ counted a),
              ))))
