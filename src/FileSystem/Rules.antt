-- ===== src/FileSystem/Rules.antt =====
-- Rules for the programs of fs.c: what a step does to the heap and to the disk.
use mathlib.Core.Path.{subst}
use kira_zig.Common.{
  ℕ, ◌+◌, ◌≤◌, ◌≡◌, refl, sym, ap, ◌∙◌, ℤ, true, Option, none, some, leb, if◌then◌else◌, arith,
  length, Bytes,
}
use kira_zig.FileSystem.{
  Object, handle, buffer, Heap, put, System, Process, Outcome, done, fault, out_of_fuel, M,
  and_then,
}
use kira_zig.FileSystem.Store.{
  place, malloc, release_object, free, handle_of, load_handle, splice, write_object, store_bytes,
  store_handle, write_handle, update_heap,
}
use kira_zig.FileSystem.Disk.{IsFinite, OutOfMemory, out_of_memory, IsAllocator}
use kira_zig.FileSystem.Cells.{put-put, put_back, put_self}

-- The program ends without a fault, and what holds of its result.
abbrev pub Returns : {S A : Type 0} → (A → Process S → Type 0) → Outcome S A → Type 0
Returns Q (done a p) = Q a p
Returns Q fault = ⊥
Returns Q out_of_fuel = ⊥

module _ {S A B : Type 0} (P : A → Process S → Type 0) (Q : B → Process S → Type 0) where
  pub Returns-bind :
      (o : Outcome S A) (k : A → M S B)
      → Returns P o
      → ((a : A) (p : Process S) → P a p → Returns Q (k a p))
      → Returns Q (and_then o k)
  Returns-bind (done a p) k r step = step a p r
  Returns-bind fault k r step = elim r [ ]
  Returns-bind out_of_fuel k r step = elim r [ ]

module _ {S A B C : Type 0} (Q : C → Process S → Type 0) where
  pub Returns-assoc :
      (o : Outcome S A) (f : A → M S B) (g : B → M S C)
      → Returns Q (and_then o (λ a p. and_then (f a p) g))
      → Returns Q (and_then (and_then o f) g)
  Returns-assoc (done a p) f g r = r
  Returns-assoc fault f g r = r
  Returns-assoc out_of_fuel f g r = r

pub Returns-map :
    {S A : Type 0} (P Q : A → Process S → Type 0) (o : Outcome S A)
    → Returns P o
    → ((a : A) (p : Process S) → P a p → Q a p)
    → Returns Q o
Returns-map P Q (done a p) r step = step a p r
Returns-map P Q fault r step = elim r [ ]
Returns-map P Q out_of_fuel r step = elim r [ ]

module _ (K : System) {V : Type 0} (view : K.State → V) where
  -- What `view` shows of the kernel, and the heap.
  abbrev pub Holds : V → Heap → Process K.State → Type 0
  Holds d h p = (view p.kernel ≡ d) × (p.heap ≡ h)

  -- The outcomes of an allocation.
  abbrev pub Placed : Object → V → Heap → Option ℕ → Process K.State → Type 0
  Placed o d h none p = OutOfMemory K × Holds d h p
  Placed o d h (some a) p = (h a ≡ none) × Holds d (put a (some o) h) p

  pub malloc-Placed :
      IsAllocator K
      → (size : ℕ) (o : Object) {d : V} {h : Heap} (p : Process K.State) → IsFinite h
      → Holds d h p
      → Returns (Placed o d h) (malloc K size o p)
  unfolding malloc
  malloc-Placed allocator size o {d} {h} p finite (at_d, at_h) = step (K.malloc p.heap size) refl
    where
      step : (r : Option ℕ) → K.malloc p.heap size ≡ r → Returns (Placed o d h) (place o r p)
      step none e = (out_of_memory p.heap size (subst IsFinite (sym at_h) finite) e, (at_d, at_h))
      step (some a) e = (
        ap (λ h. h a) (sym at_h) ∙ allocator.malloc p.heap size a e,
        (at_d, ap (put a (some o)) at_h),
      )

  pub at_put :
      {d : V} (h : Heap) {c : Option Object} (a : ℕ) (p : Process K.State)
      → Holds d (put a c h) p
      → p.heap a ≡ c
  at_put h {c} a p (at_d, at_h) = ap (λ h. h a) at_h ∙ put_self a c h

  pub free-at :
      {d : V} (h : Heap) (a : ℕ) {o : Object} (p : Process K.State)
      → h a ≡ some o
      → Holds d h p
      → Returns (λ _. Holds d (put a none h)) (free (some a) p)
  unfolding free
  free-at {d} h a p found holds =
      subst (λ c. Returns (λ _. Holds d (put a none h)) (release_object a c p))
        (sym (ap (λ h. h a) holds.1 ∙ found)) (holds.0, ap (put a none) holds.1)

  -- A `free` of what was allocated last.
  pub free-Holds :
      {d : V} (h : Heap) (a : ℕ) (o : Object) (p : Process K.State)
      → h a ≡ none
      → Holds d (put a (some o) h) p
      → Returns (λ _. Holds d h) (free (some a) p)
  free-Holds {d} h a o p fresh holds =
      Returns-map (λ _. Holds d (put a none (put a (some o) h))) (λ _. Holds d h) _
        (free-at (put a (some o) h) a p (put_self a (some o) h) holds)
        (λ _ q after. (after.0, after.1 ∙ put_back a none (some o) h fresh))

  pub load_handle-step :
      {d : V} (h : Heap) (a : ℕ) (fd : ℤ) (p : Process K.State)
      → h a ≡ some (handle fd)
      → Holds d h p
      → load_handle a p ≡ done fd p
  unfolding load_handle
  load_handle-step h a fd p found holds = ap (λ c. handle_of c p) (ap (λ h. h a) holds.1 ∙ found)

  pub store_handle-Holds :
      {d : V} (h : Heap) (a : ℕ) (old fd : ℤ) (p : Process K.State)
      → Holds d (put a (some (handle old)) h) p
      → Returns (λ _. Holds d (put a (some (handle fd)) h)) (store_handle a fd p)
  unfolding store_handle
  store_handle-Holds {d} h a old fd p holds =
      subst (λ c. Returns (λ _. Holds d (put a (some (handle fd)) h)) (write_handle a fd c p))
        (sym (at_put h a p holds))
        (holds.0, ap (put a (some (handle fd))) holds.1 ∙ put-put a _ _ h)

  pub store_bytes-Holds :
      {d : V} (h : Heap) (a from : ℕ) (new old : Bytes) (p : Process K.State)
      → from + length new ≤ length old
      → Holds d (put a (some (buffer old)) h) p
      → Returns
          (λ _. Holds d (put a (some (buffer (splice old from new))) h))
          (store_bytes a from new p)
  unfolding store_bytes
  store_bytes-Holds {d} h a from new old p fits holds =
      let Q = λ (o : Outcome K.State (Unit {0})).
        Returns (λ _. Holds d (put a (some (buffer (splice old from new))) h)) o in
      let inside : leb (from + length new) (length old) ≡ true = ground arith in
      subst (λ c. Q (write_object a from new c p)) (sym (at_put h a p holds))
        (subst
          (λ b. Q (
            if b
            then done tt (update_heap (put a (some (buffer (splice old from new)))) p)
            else fault))
          (sym inside)
          (holds.0, ap (put a (some (buffer (splice old from new)))) holds.1 ∙ put-put a _ _ h))
