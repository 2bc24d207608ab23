-- ===== src/FileSystem/Remove/Gone.antt =====
-- About `fs_remove_path`.
use mathlib.Core.Path.{subst}
use kira_zig.Common.{
  ℕ, zero, suc, ◌+◌, ◌≤◌, inl, inr, refl, sym, ◌∙◌, Option, some, List, [], ◌∷◌, arith, length,
  Bytes,
}
use kira_zig.FileSystem.{Heap, put, System, Process}
use kira_zig.FileSystem.Disk.{IsFinite, IsAllocator}
use kira_zig.FileSystem.Rules.{Returns, Holds}
use kira_zig.FileSystem.Cells.{put_self}
use kira_zig.FileSystem.Remove.{remove_next, remove_below, remove_loop, remove_path}
use kira_zig.FileSystem.Remove.Tree.{Kinds, Dirs, IsTree, HasHeight, rounds}
use kira_zig.FileSystem.Remove.Child.{with_stream-step, Removed, Emptied}
use kira_zig.FileSystem.Remove.Round.{remove_next-Emptied}
use kira_zig.FileSystem.Remove.Known.{remove_directory-Removed, remove_known-Removed}

module _ (K : System) (view : K.State → Dirs) (allocator : IsAllocator K) (width : ℕ)
    (tree : IsTree K view width) where
  mutual
    unfolding remove_below

    remove_below-Removed :
        (fuel n : ℕ) (path : Bytes) (k : Kinds) (streams : ℕ → Option (List Bytes)) (h : Heap)
        (p : Process K.State)
        → IsFinite h
        → rounds width n ≤ fuel
        → HasHeight n path k
        → Holds K view (record { kind = k; streams = streams }) h p
        → Returns
            (Removed K view allocator width tree path k streams h)
            (remove_below K fuel path p)
    remove_below-Removed zero zero path k streams h p finite enough high holds =
        absurd (omega arith)
    remove_below-Removed zero (suc n) path k streams h p finite enough high holds =
        absurd (omega arith)
    remove_below-Removed (suc fuel) zero path k streams h p finite enough high holds =
        remove_known-Removed K view allocator width tree (remove_loop K fuel path) path k streams h
          p holds (λ is. absurd (high is))
    remove_below-Removed (suc fuel) (suc n) path k streams h p finite enough high holds =
        remove_known-Removed K view allocator width tree (remove_loop K fuel path) path k streams h
          p holds
          (λ is.
            remove_directory-Removed K view allocator width tree (remove_loop K fuel path) path k
              streams h p is holds
              (λ dir ns q bound holds.
                remove_loop-Emptied fuel n path k streams h dir ns q finite (omega arith) high
                  holds))

    remove_loop-Emptied :
        (fuel n : ℕ) (path : Bytes) (k : Kinds) (streams : ℕ → Option (List Bytes)) (h : Heap)
        (dir : ℕ) (ns : List Bytes) (p : Process K.State)
        → IsFinite h
        → length ns + 1 + rounds width n ≤ fuel
        → HasHeight (suc n) path k
        → Holds K view (record { kind = k; streams = put dir (some ns) streams }) h p
        → Returns
            (λ _. Emptied K view allocator width tree path k (put dir (some []) streams) h ns)
            (remove_loop K fuel path dir p)
    remove_loop-Emptied zero n path k streams h dir ns p finite enough high holds =
        absurd (omega arith)
    remove_loop-Emptied (suc fuel) n path k streams h dir [] p finite enough high (at_d, at_h) =
        let d : Dirs = record { kind = k; streams = put dir (some []) streams } in
        let (end, at_end) = tree.readdir_end dir p.kernel d at_d (put_self dir (some []) streams) in
        subst
          (λ r.
            Returns
              (λ _. Emptied K view allocator width tree path k (put dir (some []) streams) h [])
              (remove_next K (remove_loop K fuel path dir) (remove_below K fuel) path r
                (record p { kernel = (K.readdir dir p.kernel).1 })))
          (sym end)
          (
            k,
            (at_end, at_h),
            refl,
            (λ x outside. refl),
            (λ x. inr refl),
            inl (λ name plain found. elim found [ ]),
          )
    remove_loop-Emptied (suc fuel) n path k streams h dir (name ∷ rest) p finite enough high
          (at_d, at_h) =
        let d : Dirs = record { kind = k; streams = put dir (some (name ∷ rest)) streams } in
        let now = put dir (some rest) streams in
        let (given, at_next) =
          tree.readdir_next dir p.kernel name rest d at_d
            (put_self dir (some (name ∷ rest)) streams) in
        subst
          (λ r.
            Returns
              (λ _.
                Emptied K view allocator width tree path k (put dir (some []) streams) h
                  (name ∷ rest))
              (remove_next K (remove_loop K fuel path dir) (remove_below K fuel) path r
                (record p { kernel = (K.readdir dir p.kernel).1 })))
          (sym given)
          (remove_next-Emptied K view allocator width tree (remove_loop K fuel path dir)
            (remove_below K fuel) path name rest n k now (put dir (some []) streams) h
            (record p { kernel = (K.readdir dir p.kernel).1 }) finite high
            (at_next ∙ with_stream-step k streams dir (some (name ∷ rest)) (some rest) d refl, at_h)
            (λ child g q finite high holds.
              remove_below-Removed fuel n child k now g q finite (omega arith) high holds)
            (λ k' q high holds.
              remove_loop-Emptied fuel n path k' streams h dir rest q finite (omega arith) high
                holds))

  -- Removing a path removes the file, or the directory with everything in it, and the result says
  -- whether there was one, unless `malloc` can fail at a heap with finitely many allocations, as the
  -- heap is at the start. Nothing outside the path changes, so a link is removed and not followed.
  -- The streams are closed and the paths of the children freed. Fuel for the height and the width of
  -- the tree is enough.
  pub remove_path-Removed :
      (fuel n : ℕ) (path : Bytes) (k : Kinds) (streams : ℕ → Option (List Bytes)) (h : Heap)
      (p : Process K.State)
      → IsFinite h
      → rounds width n ≤ fuel
      → HasHeight n path k
      → Holds K view (record { kind = k; streams = streams }) h p
      → Returns
          (Removed K view allocator width tree path k streams h)
          (remove_path K fuel (some path) p)
  unfolding remove_path
  remove_path-Removed = remove_below-Removed
