-- ===== src/FileSystem/Remove/Child.antt =====
-- About the removal of one entry by `fs_remove_path`.
use kira_zig.Common.{
  ℕ, ◌+◌, ◌≡◌, ◌≢◌, ◌⊎◌, inl, inr, refl, ap, ◌∙◌, Bool, true, false, Option, none, some, List,
  length, Bytes,
}
use kira_zig.FileSystem.{Object, buffer, Heap, put, System, Process, M, u64}
use kira_zig.FileSystem.Store.{c_string}
use kira_zig.FileSystem.Disk.{IsFinite, OutOfMemory, IsAllocator}
use kira_zig.FileSystem.Rules.{
  Returns, Returns-bind, Returns-map, Holds, Placed, malloc-Placed, free-Holds,
}
use kira_zig.FileSystem.Cells.{put-put, put-IsFinite}
use kira_zig.FileSystem.Listing.{is_dots}
use kira_zig.FileSystem.Remove.{child_path, remove_child, remove_entry}
use kira_zig.FileSystem.Remove.Tree.{Kinds, Dirs, with_stream, In, IsTree, Shrinks, Keeps}

pub with_stream-step :
    (k : Kinds) (streams : ℕ → Option (List Bytes)) (dir : ℕ) (ns ns' : Option (List Bytes))
    (d : Dirs)
    → d ≡ record { kind = k; streams = put dir ns streams }
    → with_stream dir ns' d ≡ record { kind = k; streams = put dir ns' streams }
unfolding with_stream
with_stream-step k streams dir ns ns' d e =
    ap (with_stream dir ns') e
    ∙ ap (λ (t : ℕ → Option (List Bytes)). record { kind = k; streams = t })
        (put-put dir ns' ns streams)

module _ (K : System) (view : K.State → Dirs) (allocator : IsAllocator K) (width : ℕ)
    (tree : IsTree K view width) where
  -- The path is gone, and the result says whether it was there, unless `malloc` can fail. Nothing else
  -- has changed.
  abbrev pub Removed :
      (path : Bytes)
      → Kinds
      → (streams : ℕ → Option (List Bytes)) → Heap
      → Bool
      → Process K.State
      → Type 0
  Removed path k streams h b q =
      (k' : Kinds) × Holds K view (record { kind = k'; streams = streams }) h q
      × Keeps path k k'
      × Shrinks k k'
      × (((k' path ≡ none) × (((b ≡ true) × (k path ≢ none)) ⊎ ((b ≡ false) × (k path ≡ none))))
          ⊎ OutOfMemory K)

  -- One entry of a directory is gone.
  abbrev pub Cleared :
      (path : Bytes) → Kinds → (streams : ℕ → Option (List Bytes)) → Heap → Process K.State → Type 0
  Cleared path k streams h q =
      (k' : Kinds) × Holds K view (record { kind = k'; streams = streams }) h q
      × Keeps path k k'
      × Shrinks k k'
      × ((k' path ≡ none) ⊎ OutOfMemory K)

  -- The entries of a directory are gone.
  abbrev pub Emptied :
      (path : Bytes)
      → Kinds
      → (streams : ℕ → Option (List Bytes)) → Heap
      → (ns : List Bytes) → Process K.State
      → Type 0
  Emptied path k streams h ns q =
      (k' : Kinds) × Holds K view (record { kind = k'; streams = streams }) h q
      × (k' path ≡ k path)
      × Keeps path k k'
      × Shrinks k k'
      × (((name : Bytes) → is_dots name ≡ false → In name ns → k' (child_path path name) ≡ none)
          ⊎ OutOfMemory K)

  remove_child-Cleared :
      (remove : M K.State Bool) (path : Bytes) (k : Kinds) (streams : ℕ → Option (List Bytes))
      (h : Heap) (o : Object) (r : Option ℕ) (p : Process K.State)
      → IsFinite h
      → Placed K view o (record { kind = k; streams = streams }) h r p
      → ((g : Heap) (q : Process K.State)
          → IsFinite g
          → Holds K view (record { kind = k; streams = streams }) g q
          → Returns (Removed path k streams g) (remove q))
      → Returns (λ _. Cleared path k streams h) (remove_child K remove r p)
  remove_child-Cleared remove path k streams h o none p finite (why, holds) removes =
      (k, holds, (λ x outside. refl), (λ x. inr refl), inr why)
  remove_child-Cleared remove path k streams h o (some a) p finite (fresh, holds) removes =
      Returns-bind (Removed path k streams (put a (some o) h)) (λ _. Cleared path k streams h) _ _
        (removes (put a (some o) h) p (put-IsFinite a (some o) h finite) holds)
        (λ b q (k', holds, keeps, shrinks, clear).
          Returns-map (λ _. Holds K view (record { kind = k'; streams = streams }) h)
            (λ _. Cleared path k streams h) _ (free-Holds K view h a o q fresh holds)
            (λ _ q holds. (
              k',
              holds,
              keeps,
              shrinks,
              elim clear [ inl (e, answer) ↦ inl e | inr why ↦ inr why ],
            )))

  pub remove_entry-Cleared :
      (remove : M K.State Bool) (path name : Bytes) (k : Kinds) (streams : ℕ → Option (List Bytes))
      (h : Heap) (p : Process K.State)
      → IsFinite h
      → Holds K view (record { kind = k; streams = streams }) h p
      → ((g : Heap) (q : Process K.State)
          → IsFinite g
          → Holds K view (record { kind = k; streams = streams }) g q
          → Returns (Removed (child_path path name) k streams g) (remove q))
      → Returns
          (λ _. Cleared (child_path path name) k streams h)
          (remove_entry K remove path name p)
  remove_entry-Cleared remove path name k streams h p finite holds removes =
      let d : Dirs = record { kind = k; streams = streams } in
      let o = buffer (c_string (child_path path name)) in
      Returns-bind (Placed K view o d h) (λ _. Cleared (child_path path name) k streams h) _ _
        (malloc-Placed K view allocator (u64 (length path + 1 + length name + 1)) o p finite holds)
        (λ r q placed.
          remove_child-Cleared remove (child_path path name) k streams h o r q finite placed
            removes)
