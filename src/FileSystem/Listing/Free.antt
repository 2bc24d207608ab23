-- ===== src/FileSystem/Listing/Free.antt =====
-- About `fs_free_directory_listing`, `fs_directory_count` and `fs_directory_entry`.
use mathlib.Core.Path.{subst}
use kira_zig.Common.{
  ℕ, suc, ◌^◌, ◌<◌, ◌≡◌, ◌≢◌, inl, inr, refl, sym, ap, ◌∙◌, Option, none, some, List, [], ◌∷◌, ◌++◌,
  arith, length, get_elem?, replicate, append_assoc, length-append, Bytes, Option-cases,
}
use kira_zig.FileSystem.{
  Object, buffer, listing, pointers, Heap, put, System, Process, and_then, ◌>>=◌, ◌>>◌,
}
use kira_zig.FileSystem.Store.{free, c_string}
use kira_zig.FileSystem.Disk.{Disk, IsFinite, IsAllocator, IsStream}
use kira_zig.FileSystem.Rules.{Returns, Returns-bind, Holds, free-at, free-Holds}
use kira_zig.FileSystem.Cells.{put_self, put_ne, put_back, fresh-ne}
use kira_zig.FileSystem.Listing.{list_directory, free_entries, free_directory_listing}
use kira_zig.FileSystem.Listing.Access.{load_listing-step, load_pointer-step}
use kira_zig.FileSystem.Listing.Shape.{Copy, copies, addresses, AreFresh, with_listing, IsListing}
use kira_zig.FileSystem.Listing.Fill.{visible, Listed, list_directory-Listed}
use kira_zig.FileSystem.Listing.Copies.{get_elem?-past, copies_clear, copies_ne, put_swap}

module _ (K : System) {V : Type 0} (view : K.State → V) (d : V) (h : Heap) (l b : ℕ) where
  -- The listing over an array `ps`, above other copies.
  abbrev over : ℕ → List (Option ℕ) → Heap → Heap
  over count ps g = put l (some (listing (some b) count)) (put b (some (pointers ps)) g)

  over_array :
      (count : ℕ) (ps : List (Option ℕ)) (g : Heap) → b ≢ l → over count ps g b ≡ some (pointers ps)
  over_array count ps g ne =
      put_ne l (some (listing (some b) count)) (put b (some (pointers ps)) g) ne
      ∙ put_self b (some (pointers ps)) g

  -- The entries from `i` on are freed; those before were.
  free_entries-Holds :
      (count spare i : ℕ) (ps before : List (Option ℕ)) (cs : List Copy) (p : Process K.State)
      → b ≢ l
      → copies cs h b ≡ none
      → copies cs h l ≡ none
      → AreFresh cs h
      → length before ≡ i
      → ps ≡ before ++ (addresses cs ++ replicate spare none)
      → Holds K view d (over count ps (copies cs h)) p
      → Returns (λ _. Holds K view d (over count ps h)) (free_entries (length cs) i (some b) p)
  unfolding free_entries
  free_entries-Holds count spare i ps before [] p ne at_b at_l fresh long shape holds = holds
  free_entries-Holds count spare i ps before ((a, t) ∷ cs) p ne at_b at_l (first, fresh) long shape
        holds =
      let o = buffer (c_string t) in
      let g = copies cs (put a (some o) h) in
      let all = over count ps g in
      let there : g a ≡ some o = copies_ne cs a (put a (some o) h) fresh (put_self a (some o) h) in
      let a_b : b ≢ a = fresh-ne g at_b there in
      let a_l : l ≢ a = fresh-ne g at_l there in
      let found : all a ≡ some o =
        put_ne l (some (listing (some b) count)) (put b (some (pointers ps)) g) (λ e. a_l (sym e))
        ∙ put_ne b (some (pointers ps)) g (λ e. a_b (sym e))
        ∙ there in
      let (rest, fresh') = copies_clear cs a o h first fresh in
      let at_i : get_elem? ps i ≡ some (some a) =
        ap (λ ps. get_elem? ps i) shape
        ∙ get_elem?-past before (some a) (addresses cs ++ replicate spare none) i long in
      let cleared : put a none all ≡ over count ps (copies cs h) =
        put_swap a l none (some (listing (some b) count)) (put b (some (pointers ps)) g)
          (λ e. a_l (sym e))
        ∙ ap (put l (some (listing (some b) count)))
            (put_swap a b none (some (pointers ps)) g (λ e. a_b (sym e)))
        ∙ ap (λ g. over count ps g) rest in
      let i' : length (before ++ some a ∷ []) ≡ suc i =
        omega (arith, length-append before (some a ∷ [])) in
      let shape' : ps ≡ (before ++ some a ∷ []) ++ (addresses cs ++ replicate spare none) =
        shape ∙ sym (append_assoc before (some a ∷ []) (addresses cs ++ replicate spare none)) in
      subst
        (λ r.
          Returns (λ _. Holds K view d (over count ps h))
            (and_then r (λ q. free q >> free_entries (length cs) (suc i) (some b))))
        (sym (load_pointer-step K view d all b i p (over_array count ps g ne) at_i holds))
        (Returns-bind (λ _. Holds K view d (put a none all)) (λ _. Holds K view d (over count ps h))
          _ _ (free-at K view all a p found holds)
          (λ _ q (at_d, at_h).
            free_entries-Holds count spare (suc i) ps (before ++ some a ∷ []) cs q ne
              (ap (λ g. g b) (sym rest) ∙ put_ne a none g a_b ∙ at_b)
              (ap (λ g. g l) (sym rest) ∙ put_ne a none g a_l ∙ at_l) fresh' i' shape'
              (at_d, at_h ∙ cleared)))

-- What is free above the copies is free below.
copies-none :
    (cs : List Copy) (x : ℕ) (h : Heap) → AreFresh cs h → copies cs h x ≡ none → h x ≡ none
copies-none cs x h fresh clear = elim (Option-cases (h x)) [
  | inl e ↦ e
  | inr (o, e) ↦ absurd (some_none o (sym (copies_ne cs x h fresh e) ∙ clear))
]
  where
    some_none : (o : Object) → ¬ (some o ≡ none)
    some_none o e = cc

module _ (K : System) {V : Type 0} (view : K.State → V) where
  free_directory_listing-Holds :
      (l : ℕ) (entries : Option ℕ) (spare : ℕ) (cs : List Copy) (d : V) (h : Heap)
      (p : Process K.State)
      → IsListing l entries spare cs h
      → Holds K view d (with_listing l entries spare cs h) p
      → Returns (λ _. Holds K view d h) (free_directory_listing (some l) p)
  unfolding free_directory_listing free_entries
  free_directory_listing-Holds l none spare [] d h p (fresh, new, none_yet) holds =
      let o = listing none 0 in
      subst
        (λ r.
          Returns (λ _. Holds K view d h)
            (and_then r (λ old. free_entries old.1 0 old.0 >> (free old.0 >> free (some l)))))
        (sym (load_listing-step K view d (put l (some o) h) l p (put_self l (some o) h) holds))
        (free-Holds K view h l o p new holds)
  free_directory_listing-Holds l none spare (c ∷ cs) d h p (fresh, new, none_yet) holds = cc
  free_directory_listing-Holds l (some b) spare cs d h p (fresh, new, (ne, clear, le)) holds =
      let n = length cs in
      let ps = addresses cs ++ replicate spare none in
      let o = listing (some b) n in
      let o' = pointers ps in
      let clear_b = copies-none cs b h fresh clear in
      let clear_l = copies-none cs l h fresh new in
      let other : l ≢ b = λ e. ne (sym e) in
      let left : put b none (put l (some o) (put b (some o') h)) ≡ put l (some o) h =
        put_swap b l none (some o) (put b (some o') h) ne
        ∙ ap (put l (some o)) (put_back b none (some o') h clear_b) in
      subst
        (λ r.
          Returns (λ _. Holds K view d h)
            (and_then r (λ old. free_entries old.1 0 old.0 >> (free old.0 >> free (some l)))))
        (sym (
          load_listing-step K view d (put l (some o) (put b (some o') (copies cs h))) l p
            (put_self l (some o) (put b (some o') (copies cs h))) holds))
        (Returns-bind (λ _. Holds K view d (put l (some o) (put b (some o') h)))
          (λ _. Holds K view d h) _ _
          (free_entries-Holds K view d h l b n spare 0 ps [] cs p ne clear new fresh refl refl
            holds)
          (λ _ q holds.
            Returns-bind (λ _. Holds K view d (put b none (put l (some o) (put b (some o') h))))
              (λ _. Holds K view d h) _ _
              (free-at K view (put l (some o) (put b (some o') h)) b q
                (put_ne l (some o) (put b (some o') h) ne ∙ put_self b (some o') h) holds)
              (λ _ q (at_d, at_h). free-Holds K view h l o q clear_l (at_d, at_h ∙ left))))

module _ (K : System) (view : K.State → Disk) (allocator : IsAllocator K)
    (names : Bytes → K.State → List Bytes) (stream : ℕ → K.State → List Bytes)
    (is_stream : IsStream K view names stream) where
  -- Listing a directory and freeing the listing leaks nothing and frees nothing twice, also where an
  -- allocation failed on the way: the heap is as before, and so are the files. The heap has finitely many
  -- allocations at the start, and the directory fewer than 2 ^ 31 entries.
  pub free-list_directory :
      (path : Bytes) (h : Heap) (fuel : ℕ) (d : Disk) (s : K.State)
      → IsFinite h
      → length (names path s) < 2 ^ 31
      → length (names path s) < fuel
      → view s ≡ d
      → Returns
          (λ _. Holds K view d h)
          ((list_directory K fuel (some path) >>= free_directory_listing)
            (record { kernel = s; heap = h }))
  unfolding free_directory_listing
  free-list_directory path h fuel d s finite small enough at_d =
      Returns-bind
        (Listed K view allocator names stream is_stream path (visible (names path s)) d h)
        (λ _. Holds K view d h) _ _
        (list_directory-Listed K view allocator names stream is_stream path h fuel d s finite small
          enough at_d)
        freed
    where
      freed :
          (r : Option ℕ) (q : Process K.State)
          → Listed K view allocator names stream is_stream path (visible (names path s)) d h r q
          → Returns (λ _. Holds K view d h) (free_directory_listing r q)
      freed none q (why, holds) = holds
      freed (some l) q (entries, spare, cs, shown, fewer, shape, holds) =
          free_directory_listing-Holds K view l entries spare cs d h q shape holds
