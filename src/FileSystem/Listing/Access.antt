-- ===== src/FileSystem/Listing/Access.antt =====
-- What the accesses to a directory listing of fs.c do.
use mathlib.Core.Path.{subst}
use kira_zig.Common.{
  ℕ, ◌*◌, ◌+◌, ◌^◌, ◌<◌, ◌≡◌, refl, sym, ap, ◌∙◌, true, Option, none, some, List, [], ltb,
  if◌then◌else◌, arith, length, get_elem?, set,
}
use kira_zig.FileSystem.{
  listing, pointers, Heap, put, System, Process, Outcome, done, fault, and_then, u64,
}
use kira_zig.FileSystem.Store.{
  listing_of, load_listing, write_listing, store_listing, pointers_of, load_pointers, in_array,
  pointer_at, write_pointer, store_pointer, resized, move, realloc_pointers, update_heap,
}
use kira_zig.FileSystem.Disk.{IsFinite, AllocFailure, no_array, IsAllocator}
use kira_zig.FileSystem.Rules.{Returns, Holds}
use kira_zig.FileSystem.Listing.{load_pointer, next_count}

-- The heap without what `realloc` replaces.
abbrev pub without : Option ℕ → Heap → Heap
without none h = h
without (some a) h = put a none h

module _ (K : System) {V : Type 0} (view : K.State → V) (d : V) (h : Heap) where
  pub load_listing-step :
      (l : ℕ) {entries : Option ℕ} {count : ℕ} (p : Process K.State)
      → h l ≡ some (listing entries count)
      → Holds K view d h p
      → load_listing l p ≡ done (entries, count) p
  unfolding load_listing
  load_listing-step l p found holds = ap (λ c. listing_of c p) (ap (λ h. h l) holds.1 ∙ found)

  pub store_listing-at :
      (l : ℕ) {entries : Option ℕ} {count : ℕ} (x : Option ℕ × ℕ) (p : Process K.State)
      → h l ≡ some (listing entries count)
      → Holds K view d h p
      → Returns (λ _. Holds K view d (put l (some (listing x.0 x.1)) h)) (store_listing l x p)
  unfolding store_listing
  store_listing-at l x p found holds =
      subst
        (λ c.
          Returns (λ _. Holds K view d (put l (some (listing x.0 x.1)) h)) (write_listing l x c p))
        (sym (ap (λ h. h l) holds.1 ∙ found)) (holds.0, ap (put l (some (listing x.0 x.1))) holds.1)

  pub load_pointers-step :
      (b : ℕ) {ps : List (Option ℕ)} (p : Process K.State)
      → h b ≡ some (pointers ps)
      → Holds K view d h p
      → load_pointers (some b) p ≡ done ps p
  unfolding load_pointers
  load_pointers-step b p found holds = ap (λ c. pointers_of c p) (ap (λ h. h b) holds.1 ∙ found)

  pub load_pointer-step :
      (b i : ℕ) {ps : List (Option ℕ)} {q : Option ℕ} (p : Process K.State)
      → h b ≡ some (pointers ps)
      → get_elem? ps i ≡ some q
      → Holds K view d h p
      → load_pointer (some b) i p ≡ done q p
  unfolding load_pointer
  load_pointer-step b i {q} p found at_i holds =
      ap (λ r. and_then r (pointer_at i)) (load_pointers-step b p found holds)
      ∙ ap (λ o. in_array o p) at_i

  pub store_pointer-at :
      (b i : ℕ) (q : Option ℕ) (ps : List (Option ℕ)) (p : Process K.State)
      → h b ≡ some (pointers ps)
      → i < length ps
      → Holds K view d h p
      → Returns
          (λ _. Holds K view d (put b (some (pointers (set ps i q))) h))
          (store_pointer b i q p)
  unfolding store_pointer
  store_pointer-at b i q ps p found lt holds =
      let Q = λ (o : Outcome K.State (Unit {0})).
        Returns (λ _. Holds K view d (put b (some (pointers (set ps i q))) h)) o in
      let inside : ltb i (length ps) ≡ true = ground arith in
      subst (λ r. Q (and_then r (write_pointer b i q))) (sym (load_pointers-step b p found holds))
        (subst
          (λ t.
            Q (if t then done tt (update_heap (put b (some (pointers (set ps i q)))) p) else fault))
          (sym inside) (holds.0, ap (put b (some (pointers (set ps i q)))) holds.1))

  pub next_count-step :
      (n : ℕ) (p : Process K.State) → n + 1 < 2 ^ 31 → next_count n p ≡ done (n + 1) p
  unfolding next_count
  next_count-step n p small = let fits : ltb (n + 1) (2 ^ 31) ≡ true = ground arith in rw fits refl

  -- The outcomes of a `realloc` to `n` pointers.
  abbrev pub Moved :
      (old : Option ℕ) → List (Option ℕ) → (n : ℕ) → Option ℕ → Process K.State → Type 0
  Moved old ps n none p = AllocFailure K × Holds K view d h p
  Moved old ps n (some b) p =
      (without old h b ≡ none)
      × Holds K view d (put b (some (pointers (resized n ps))) (without old h)) p

  module _ (allocator : IsAllocator K) (finite : IsFinite h) where
    pub realloc_pointers-new :
        (n : ℕ) (p : Process K.State)
        → Holds K view d h p
        → Returns (Moved none [] n) (realloc_pointers K none n p)
    unfolding realloc_pointers
    realloc_pointers-new n p (at_d, at_h) = step (K.realloc p.heap none (u64 (8 * n))) refl
      where
        step :
            (r : Option ℕ)
            → K.realloc p.heap none (u64 (8 * n)) ≡ r
            → Returns (Moved none [] n) (move none (resized n []) r p)
        step none e =
            (no_array p.heap none (u64 (8 * n)) (subst IsFinite (sym at_h) finite) e, (at_d, at_h))
        step (some b) e = (
          ap (λ h. h b) (sym at_h) ∙ allocator.realloc_new p.heap (u64 (8 * n)) b e,
          (at_d, ap (put b (some (pointers (resized n [])))) at_h),
        )

    pub realloc_pointers-old :
        (a n : ℕ) (ps : List (Option ℕ)) (p : Process K.State)
        → h a ≡ some (pointers ps)
        → Holds K view d h p
        → Returns (Moved (some a) ps n) (realloc_pointers K (some a) n p)
    unfolding realloc_pointers
    realloc_pointers-old a n ps p found (at_d, at_h) =
        subst
          (λ r. Returns (Moved (some a) ps n) (
            and_then r
              (λ ps p. move (some a) (resized n ps) (K.realloc p.heap (some a) (u64 (8 * n))) p)))
          (sym (load_pointers-step a p found (at_d, at_h)))
          (step (K.realloc p.heap (some a) (u64 (8 * n))) refl)
      where
        step :
            (r : Option ℕ)
            → K.realloc p.heap (some a) (u64 (8 * n)) ≡ r
            → Returns (Moved (some a) ps n) (move (some a) (resized n ps) r p)
        step none e = (
          no_array p.heap (some a) (u64 (8 * n)) (subst IsFinite (sym at_h) finite) e,
          (at_d, at_h),
        )
        step (some b) e = (
          ap (λ h. put a none h b) (sym at_h) ∙ allocator.realloc_old p.heap a (u64 (8 * n)) b e,
          (at_d, ap (λ h. put b (some (pointers (resized n ps))) (put a none h)) at_h),
        )
