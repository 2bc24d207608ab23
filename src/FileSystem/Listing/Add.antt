-- ===== src/FileSystem/Listing/Add.antt =====
-- About `fs_listing_add`.
use mathlib.Core.Path.{subst}
use kira_zig.Common.{
  ℕ, suc, ◌+◌, ◌^◌, ◌<◌, ◌≡◌, ◌≢◌, refl, sym, ap, ◌∙◌, Option, none, some, List, [], ◌∷◌, ◌++◌,
  arith, length, replicate, Bytes,
}
use kira_zig.FileSystem.{
  buffer, listing, pointers, Heap, put, System, Process, and_then, ◌>>=◌, u64,
}
use kira_zig.FileSystem.Store.{c_string, resized, strdup_local, realloc_pointers}
use kira_zig.FileSystem.Disk.{IsFinite, IsAllocator}
use kira_zig.FileSystem.Rules.{Returns, Returns-bind, Holds, Placed, malloc-Placed}
use kira_zig.FileSystem.Cells.{put-IsFinite, put_self, put_ne, fresh-ne}
use kira_zig.FileSystem.Listing.{next_count, add_name, listing_add}
use kira_zig.FileSystem.Listing.Access.{
  next_count-step, load_listing-step, store_listing-at, Moved, realloc_pointers-new,
  realloc_pointers-old,
}
use kira_zig.FileSystem.Listing.Moves.{put_again, put_moved, moved_new}
use kira_zig.FileSystem.Listing.Shape.{
  Copy, copies, addresses, AreFresh, array, with_listing, IsListing, with_listing-IsFinite,
  resized-array,
}
use kira_zig.FileSystem.Listing.Count.{Added, count_entry-Added}

module _ (K : System) {V : Type 0} (view : K.State → V) (l : ℕ) (name : Bytes) (d : V)
    (h : Heap) where
  -- From a heap `g` that has the listing, once the array was moved to `b`.
  add_name-Added :
      (cs : List Copy) (g : Heap) (entries : Option ℕ) (b : ℕ) (p : Process K.State)
      → IsAllocator K
      → AreFresh cs h
      → copies cs h l ≡ none
      → b ≢ l
      → copies cs h b ≡ none
      → g l ≡ some (listing entries (length cs))
      → put l (some (listing (some b) (length cs))) (put b (some (array cs 1)) g)
        ≡ with_listing l (some b) 1 cs h
      → length cs + 1 < 2 ^ 31
      → IsFinite h
      → Holds K view d (put b (some (array cs 1)) g) p
      → Returns (Added K view l name d h cs) (add_name K l (length cs) name (some b) p)
  unfolding add_name strdup_local
  add_name-Added cs g entries b p allocator fresh new apart new' found whole small finite holds =
      let moved = put b (some (array cs 1)) g in
      Returns-bind (λ _. Holds K view d (put l (some (listing (some b) (length cs))) moved))
        (Added K view l name d h cs) _ _
        (store_listing-at K view d moved l (some b, length cs) p
          (put_ne b (some (array cs 1)) g (λ e. apart (sym e)) ∙ found) holds)
        (λ _ q (at_d, at_h).
          Returns-bind (Placed K view (buffer (c_string name)) d (with_listing l (some b) 1 cs h))
            (Added K view l name d h cs) _ _
            (malloc-Placed K view allocator (u64 (length name + 1)) (buffer (c_string name)) q
              (with_listing-IsFinite l (some b) 1 cs h finite) (at_d, at_h ∙ whole))
            (count_entry-Added K view l name d h cs b fresh new apart new' small))

  -- The first name.
  add_first-Added :
      IsAllocator K
      → IsFinite h
      → (p : Process K.State) → h l ≡ none
      → Holds K view d (put l (some (listing none 0)) h) p
      → Returns (Added K view l name d h []) ((realloc_pointers K none 1 >>= add_name K l 0 name) p)
  unfolding add_name
  add_first-Added allocator finite p new holds =
      Returns-bind (Moved K view d (put l (some (listing none 0)) h) none [] 1)
        (Added K view l name d h []) _ _
        (realloc_pointers-new K view d (put l (some (listing none 0)) h) allocator
          (put-IsFinite l _ h finite) 1 p holds)
        next
    where
      next :
          (r : Option ℕ) (q : Process K.State)
          → Moved K view d (put l (some (listing none 0)) h) none [] 1 r q
          → Returns (Added K view l name d h []) (add_name K l 0 name r q)
      next none q (why, holds) = (why, none, 0, (tt, new, refl), holds)
      next (some b) q (found, holds) =
          let o = some (listing none 0) in
          let apart : b ≢ l = fresh-ne (put l o h) found (put_self l o h) in
          add_name-Added [] (put l o h) none b q allocator tt new apart
            (sym (put_ne l o h apart) ∙ found) (put_self l o h)
            (put_again l o (some (listing (some b) 0)) (some (array [] 1)) b h) (omega arith) finite
            holds

  -- A further name.
  add_further-Added :
      (cs : List Copy) (b spare : ℕ)
      → IsAllocator K
      → IsFinite h
      → length cs + 1 < 2 ^ 31
      → (p : Process K.State) → IsListing l (some b) spare cs h
      → Holds K view d (with_listing l (some b) spare cs h) p
      → Returns
          (Added K view l name d h cs)
          ((realloc_pointers K (some b) (length cs + 1) >>= add_name K l (length cs) name) p)
  unfolding add_name
  add_further-Added cs b spare allocator finite small p (fresh, new, (apart, new', le)) holds =
      let g = with_listing l (some b) spare cs h in
      let ps = addresses cs ++ replicate spare none in
      let c = some (listing (some b) (length cs)) in
      Returns-bind (Moved K view d g (some b) ps (length cs + 1)) (Added K view l name d h cs) _ _
        (realloc_pointers-old K view d g allocator
          (with_listing-IsFinite l (some b) spare cs h finite) b (length cs + 1) ps p
          (put_ne l c (put b (some (array cs spare)) (copies cs h)) apart
            ∙ put_self b (some (array cs spare)) (copies cs h))
          holds)
        next
    where
      next :
          (r : Option ℕ) (q : Process K.State)
          → Moved K view d
              (with_listing l (some b) spare cs h)
              (some b)
              (addresses cs ++ replicate spare none)
              (length cs + 1)
              r
              q
          → Returns (Added K view l name d h cs) (add_name K l (length cs) name r q)
      next none q (why, holds) = (why, some b, spare, (fresh, new, (apart, new', le)), holds)
      next (some b') q (found, (at_d, at_h)) =
          let c = listing (some b) (length cs) in
          let o = some (array cs spare) in
          let below = copies cs h in
          let g = put b none (put l (some c) (put b o below)) in
          let (apart', clear) = moved_new l b b' c o below new' apart found in
          let one_more : length cs + 1 ≡ suc (length cs) = omega arith in
          let shape : resized (length cs + 1) (addresses cs ++ replicate spare none)
              ≡ addresses cs ++ replicate 1 none =
            ap (λ k. resized k (addresses cs ++ replicate spare none)) one_more
            ∙ resized-array cs spare le in
          let at_l = λ (e : l ≡ b). apart (sym e) in
          add_name-Added cs g (some b) b' q allocator fresh new apart' clear
            (put_ne b none (put l (some c) (put b o below)) at_l
              ∙ put_self l (some c) (put b o below))
            (put_moved l b b' (some c) (some (listing (some b') (length cs))) o (some (array cs 1))
              below new')
            small finite (at_d, at_h ∙ ap (λ ps. put b' (some (pointers ps)) g) shape)

  pub listing_add-Added :
      (cs : List Copy) (entries : Option ℕ) (spare : ℕ)
      → IsAllocator K
      → IsFinite h
      → length cs + 1 < 2 ^ 31
      → (p : Process K.State) → IsListing l entries spare cs h
      → Holds K view d (with_listing l entries spare cs h) p
      → Returns (Added K view l name d h cs) (listing_add K l name p)
  unfolding listing_add
  listing_add-Added [] none spare allocator finite small p (fresh, new, none_yet) holds =
      subst
        (λ r. Returns (Added K view l name d h []) (
          and_then r (λ old.
            next_count old.1 >>= λ n. realloc_pointers K old.0 n >>= add_name K l old.1 name)))
        (sym (
          load_listing-step K view d (put l (some (listing none 0)) h) l p
            (put_self l (some (listing none 0)) h) holds))
        (add_first-Added allocator finite p new holds)
  listing_add-Added (c ∷ cs) none spare allocator finite small p (fresh, new, none_yet) holds = cc
  listing_add-Added cs (some b) spare allocator finite small p shape holds =
      let g = put b (some (array cs spare)) (copies cs h) in
      let o = some (listing (some b) (length cs)) in
      subst
        (λ r. Returns (Added K view l name d h cs) (
          and_then r (λ old.
            next_count old.1 >>= λ n. realloc_pointers K old.0 n >>= add_name K l old.1 name)))
        (sym (load_listing-step K view d (put l o g) l p (put_self l o g) holds))
        (rw (next_count-step K view d h (length cs) p small)
          (add_further-Added cs b spare allocator finite small p shape holds))
