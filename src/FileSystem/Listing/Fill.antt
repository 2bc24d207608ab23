-- ===== src/FileSystem/Listing/Fill.antt =====
-- About `fs_list_directory`.
use mathlib.Core.Path.{subst}
use kira_zig.Common.{
  ℕ, zero, suc, ◌+◌, ◌^◌, ◌≤◌, ◌<◌, ◌≡◌, ◌⊎◌, inl, inr, refl, sym, ap, ◌∙◌, Bool, true, false,
  Option, none, some, List, [], ◌∷◌, ◌++◌, if◌then◌else◌, arith, length, append_assoc, append-nil,
  length-append, Bytes,
}
use kira_zig.FileSystem.{listing, Heap, put, System, Process, pure, ◌>>=◌, ◌>>◌}
use kira_zig.FileSystem.Store.{malloc, place}
use kira_zig.FileSystem.Disk.{
  Disk, IsFinite, AllocFailure, no_block, out_of_memory, ListFailure, no_space, cannot_list,
  IsAllocator, IsStream,
}
use kira_zig.FileSystem.Rules.{Returns, Returns-bind, Holds, Placed, free-Holds}
use kira_zig.FileSystem.Listing.{
  listing_size, is_dots, listing_add, add_entry, list_next, list_loop, list_opened, list_into,
  list_directory,
}
use kira_zig.FileSystem.Listing.Shape.{Copy, names_of, names_of-append, with_listing, IsListing}
use kira_zig.FileSystem.Listing.Add.{listing_add-Added}
use kira_zig.FileSystem.Listing.Count.{Added}

-- The names of a directory but `.` and `..`.
unfoldable pub visible : List Bytes → List Bytes
visible [] = []
visible (name ∷ names) = let rest = visible names in if is_dots name then rest else name ∷ rest

module _ (K : System) where
  -- A listing at `l` of the names, unless a call can fail.
  abbrev pub Filled :
      {V : Type 0}
      → (view : K.State → V) → (l : ℕ) → (seen : List Bytes) → V
      → Heap
      → Process K.State
      → Type 0
  Filled view l seen d h p =
      (entries : Option ℕ) × (spare : ℕ) × (cs : List Copy) × ((names_of cs ≡ seen)
        ⊎ AllocFailure K)
      × (length cs ≤ length seen)
      × IsListing l entries spare cs h
      × Holds K view d (with_listing l entries spare cs h) p

  abbrev also : (seen : List Bytes) → (name : Bytes) → List Bytes
  also seen name = if is_dots name then seen else seen ++ name ∷ []

  module _ {V : Type 0} (view : K.State → V) (allocator : IsAllocator K) (l : ℕ) (h : Heap)
      (finite : IsFinite h) where
    add_entry-Filled :
        (seen : List Bytes) (name : Bytes) (d : V) (p : Process K.State)
        → length seen + 1 < 2 ^ 31
        → Filled view l seen d h p
        → Returns (λ _. Filled view l (also seen name) d h) (add_entry K l name p)
    unfolding add_entry
    add_entry-Filled seen name d p small (entries, spare, cs, shown, fewer, shape, holds) =
        (elim (is_dots name)
          as (λ b.
            Returns (λ _. Filled view l (if b then seen else seen ++ name ∷ []) d h)
              ((if b then pure tt else (listing_add K l name >> pure tt)) p)) [
                | true ↦ (entries, spare, cs, shown, fewer, shape, holds)
                | false ↦
                    Returns-bind (Added K view l name d h cs)
                      (λ _. Filled view l (seen ++ name ∷ []) d h) _ _
                      (listing_add-Added K view l name d h cs entries spare allocator finite
                        (omega arith) p shape holds)
                      next
              ])
      where
        next :
            (b : Bool) (q : Process K.State)
            → Added K view l name d h cs b q
            → Filled view l (seen ++ name ∷ []) d h q
        next true q (a, b, shape, holds) = (
          some b,
          0,
          cs ++ (a, name) ∷ [],
          elim shown [
            | inl e ↦ inl (names_of-append cs a name ∙ ap (λ t. t ++ name ∷ []) e)
            | inr why ↦ inr why
          ],
          omega (arith, fewer, length-append cs ((a, name) ∷ []), length-append seen (name ∷ [])),
          shape,
          holds,
        )
        next false q (why, entries, spare, shape, holds) = (
          entries,
          spare,
          cs,
          inr why,
          omega (arith, fewer, length-append seen (name ∷ [])),
          shape,
          holds,
        )

length-also :
    (seen : List Bytes) (name : Bytes)
    → length (if is_dots name then seen else seen ++ name ∷ []) ≤ length seen + 1
length-also seen name =
    (elim (is_dots name)
      as (λ b. length (if b then seen else seen ++ name ∷ []) ≤ length seen + 1) [
        | true ↦ omega arith
        | false ↦ omega (arith, length-append seen (name ∷ []))
      ])

visible_cons :
    (seen : List Bytes) (name : Bytes) (rest : List Bytes)
    → (if is_dots name then seen else seen ++ name ∷ []) ++ visible rest
      ≡ seen ++ visible (name ∷ rest)
unfolding visible
visible_cons seen name rest =
    (elim (is_dots name)
      as (λ b.
        (if b then seen else seen ++ name ∷ []) ++ visible rest
        ≡ seen ++ (if b then visible rest else name ∷ visible rest)) [
          | true ↦ refl
          | false ↦ append_assoc seen (name ∷ []) (visible rest)
        ])

module _ (K : System) (view : K.State → Disk) (allocator : IsAllocator K)
    (names : Bytes → K.State → List Bytes) (stream : ℕ → K.State → List Bytes)
    (is_stream : IsStream K view names stream) where
  -- A round for each entry and one for the end are enough.
  list_loop-Filled :
      (l : ℕ) (h : Heap) (dir fuel : ℕ) (seen rest : List Bytes) (d : Disk) (p : Process K.State)
      → IsFinite h
      → length seen + length rest < 2 ^ 31
      → length rest < fuel
      → stream dir p.kernel ≡ rest
      → Filled K view l seen d h p
      → Returns (λ _. Filled K view l (seen ++ visible rest) d h) (list_loop K fuel dir l p)
  unfolding list_loop visible
  list_loop-Filled l h dir zero seen rest d p finite small enough left filled = absurd (omega arith)
  list_loop-Filled l h dir (suc fuel) seen [] d p finite small enough left
        (entries, spare, cs, shown, fewer, shape, (at_d, at_h)) =
      subst
        (λ r.
          Returns (λ _. Filled K view l (seen ++ []) d h)
            (list_next K (list_loop K fuel dir l) l r
              (record p { kernel = (K.readdir dir p.kernel).1 })))
        (sym (is_stream.readdir_end dir p.kernel left))
        (
          entries,
          spare,
          cs,
          elim shown [ inl e ↦ inl (e ∙ sym (append-nil seen)) | inr why ↦ inr why ],
          omega (arith, fewer, length-append seen []),
          shape,
          (is_stream.readdir-view dir p.kernel ∙ at_d, at_h),
        )
  list_loop-Filled l h dir (suc fuel) seen (name ∷ rest) d p finite small enough left
        (entries, spare, cs, shown, fewer, shape, (at_d, at_h)) =
      let (given, after) = is_stream.readdir_next dir p.kernel name rest left in
      let both : K.State → Disk × List Bytes = λ s. (view s, stream dir s) in
      let p' : Process K.State = record p { kernel = (K.readdir dir p.kernel).1 } in
      let at_d' = is_stream.readdir-view dir p.kernel ∙ at_d in
      let at_both : (view p'.kernel, stream dir p'.kernel) ≡ (d, rest) = λ i. (at_d' i, after i) in
      subst
        (λ r.
          Returns (λ _. Filled K view l (seen ++ visible (name ∷ rest)) d h)
            (list_next K (list_loop K fuel dir l) l r p'))
        (sym given)
        (Returns-bind (λ _. Filled K both l (also K seen name) (d, rest) h)
          (λ _. Filled K view l (seen ++ visible (name ∷ rest)) d h) _ _
          (add_entry-Filled K both allocator l h finite seen name (d, rest) p' (omega arith)
            (entries, spare, cs, shown, fewer, shape, (at_both, at_h)))
          (λ _ q (entries, spare, cs, shown, fewer, shape, (at_both, at_h)).
            subst (λ ns. Returns (λ _. Filled K view l ns d h) (list_loop K fuel dir l q))
              (visible_cons seen name rest)
              (list_loop-Filled l h dir fuel (also K seen name) rest d q finite
                (omega (arith, length-also seen name)) (omega arith) (λ i. (at_both i).1)
                (entries, spare, cs, shown, fewer, shape, ((λ i. (at_both i).0), at_h)))))

  -- A listing of the names, unless a call can fail; or nothing, after a call that failed.
  abbrev pub Listed :
      (path : Bytes) → (seen : List Bytes) → Disk → Heap → Option ℕ → Process K.State → Type 0
  Listed path seen d h none p = ListFailure K view path d × Holds K view d h p
  Listed path seen d h (some l) p = Filled K view l seen d h p

  list_opened-Listed :
      (path : Bytes) (l : ℕ) (h : Heap) (fuel : ℕ) (seen : List Bytes) (d : Disk) (r : Option ℕ)
      (p : Process K.State)
      → IsFinite h
      → length seen < 2 ^ 31
      → length seen < fuel
      → h l ≡ none
      → ((dir : ℕ) → r ≡ some dir → stream dir p.kernel ≡ seen)
      → (r ≡ none → ListFailure K view path d)
      → Holds K view d (put l (some (listing none 0)) h) p
      → Returns (Listed path (visible seen) d h) (list_opened K fuel l r p)
  list_opened-Listed path l h fuel seen d none p finite small enough new left why holds =
      Returns-bind (λ _. Holds K view d h) (Listed path (visible seen) d h) _ _
        (free-Holds K view h l (listing none 0) p new holds) (λ _ q holds. (why refl, holds))
  list_opened-Listed path l h fuel seen d (some dir) p finite small enough new left why holds =
      Returns-bind (λ _. Filled K view l (visible seen) d h) (Listed path (visible seen) d h) _ _
        (list_loop-Filled l h dir fuel [] seen d p finite (omega arith) enough (left dir refl)
          (none, 0, [], inl refl, omega arith, (tt, new, refl), holds))
        (λ _ q (entries, spare, cs, shown, fewer, shape, (at_d, at_h)). (
          entries,
          spare,
          cs,
          shown,
          fewer,
          shape,
          (is_stream.closedir-view dir q.kernel ∙ at_d, at_h),
        ))

  list_into-Listed :
      (path : Bytes) (h : Heap) (fuel : ℕ) (d : Disk) (r : Option ℕ) (p : Process K.State)
      → IsFinite h
      → length (names path p.kernel) < 2 ^ 31
      → length (names path p.kernel) < fuel
      → Placed K view (listing none 0) d h r p
      → Returns (Listed path (visible (names path p.kernel)) d h) (list_into K fuel path r p)
  list_into-Listed path h fuel d none p finite small enough (why, holds) =
      (no_space (no_block why), holds)
  list_into-Listed path h fuel d (some l) p finite small enough (new, (at_d, at_h)) =
      list_opened-Listed path l h fuel (names path p.kernel) d (K.opendir path p.kernel).0 _ finite
        small enough new (λ dir e. is_stream.opendir path p.kernel dir e)
        (λ e. cannot_list p.kernel at_d e) (is_stream.opendir-view path p.kernel ∙ at_d, at_h)

  pub list_directory-Listed :
      (path : Bytes) (h : Heap) (fuel : ℕ) (d : Disk) (s : K.State)
      → IsFinite h
      → length (names path s) < 2 ^ 31
      → length (names path s) < fuel
      → view s ≡ d
      → Returns
          (Listed path (visible (names path s)) d h)
          (list_directory K fuel (some path) (record { kernel = s; heap = h }))
  unfolding list_directory malloc
  list_directory-Listed path h fuel d s finite small enough at_d =
      next (K.malloc h listing_size) refl
    where
      next :
          (r : Option ℕ)
          → K.malloc h listing_size ≡ r
          → Returns (Listed path (visible (names path s)) d h) (
              (place (listing none 0) r >>= list_into K fuel path)
                (record { kernel = s; heap = h }))
      next none e = (no_space (no_block (out_of_memory h listing_size finite e)), (at_d, refl))
      next (some l) e =
          list_into-Listed path h fuel d (some l)
            (record { kernel = s; heap = put l (some (listing none 0)) h }) finite small enough
            (allocator.malloc h listing_size l e, (at_d, refl))
