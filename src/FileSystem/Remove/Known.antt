-- ===== src/FileSystem/Remove/Known.antt =====
-- About a directory and a file in `fs_remove_path`.
use mathlib.Core.Path.{subst}
use kira_zig.Common.{
  ℕ, ◌≤◌, ◌≡◌, ◌≢◌, ◌⊎◌, inl, inr, refl, sym, ap, ◌∙◌, true, false, Option, none, some, List, [],
  length, Bytes, Option-cases,
}
use kira_zig.FileSystem.{
  Heap, FileType, regular, directory, other, put, System, Process, M, ◌>>◌, call,
}
use kira_zig.FileSystem.Disk.{OutOfMemory, IsAllocator}
use kira_zig.FileSystem.Rules.{Returns, Returns-bind, Returns-assoc, Holds}
use kira_zig.FileSystem.Cells.{put_back}
use kira_zig.FileSystem.Listing.{is_dots}
use kira_zig.FileSystem.Remove.{child_path, empty_opened, remove_known, remove_if_exists}
use kira_zig.FileSystem.Remove.Tree.{
  Kinds, Dirs, gone, with_stream, IsTree, Shrinks, Keeps, Shrinks-trans, Shrinks-none, gone_self,
  gone-Shrinks, gone-Keeps, Keeps-trans,
}
use kira_zig.FileSystem.Remove.Child.{Removed, Emptied}

module _ (K : System) (view : K.State → Dirs) (allocator : IsAllocator K) (width : ℕ)
    (tree : IsTree K view width) where
  -- The last step for a directory: `rmdir`.
  emptied-Removed :
      (path : Bytes) (k k₁ : Kinds) (streams : ℕ → Option (List Bytes)) (h : Heap)
      (p : Process K.State)
      → k path ≡ some directory
      → k₁ path ≡ some directory
      → Holds K view (record { kind = k₁; streams = streams }) h p
      → Keeps path k k₁
      → Shrinks k k₁
      → (((name : Bytes) → is_dots name ≡ false → k₁ (child_path path name) ≡ none) ⊎ OutOfMemory K)
      → Returns (Removed K view allocator width tree path k streams h) (call (K.rmdir path) p)
  emptied-Removed path k k₁ streams h p is still (at_d, at_h) keeps shrinks (inl clear) =
      let (answer, removed) =
        tree.rmdir path p.kernel (record { kind = k₁; streams = streams }) at_d still clear in
      (
        gone path k₁,
        (removed, at_h),
        Keeps-trans path k k₁ (gone path k₁) keeps (gone-Keeps path k₁),
        Shrinks-trans k k₁ (gone path k₁) shrinks (gone-Shrinks path k₁),
        inl (gone_self path k₁, inl (answer, λ e. some_none directory (sym is ∙ e))),
      )
    where
      some_none : (m : FileType) → ¬ (some m ≡ none)
      some_none m e = cc
  emptied-Removed path k k₁ streams h p is still (at_d, at_h) keeps shrinks (inr why) =
      elim (tree.rmdir_any path p.kernel (record { kind = k₁; streams = streams }) at_d) [
        | inl same ↦ (k₁, (same, at_h), keeps, shrinks, inr why)
        | inr removed ↦ (
          gone path k₁,
          (removed, at_h),
          Keeps-trans path k k₁ (gone path k₁) keeps (gone-Keeps path k₁),
          Shrinks-trans k k₁ (gone path k₁) shrinks (gone-Shrinks path k₁),
          inr why,
        )
      ]

  -- A directory is emptied and removed.
  pub remove_directory-Removed :
      (loop : ℕ → M K.State (Unit {0})) (path : Bytes) (k : Kinds)
      (streams : ℕ → Option (List Bytes)) (h : Heap) (p : Process K.State)
      → k path ≡ some directory
      → Holds K view (record { kind = k; streams = streams }) h p
      → ((dir : ℕ) (ns : List Bytes) (q : Process K.State)
          → length ns ≤ width
          → Holds K view (record { kind = k; streams = put dir (some ns) streams }) h q
          → Returns
              (λ _. Emptied K view allocator width tree path k (put dir (some []) streams) h ns)
              (loop dir q))
      → Returns
          (Removed K view allocator width tree path k streams h)
          (remove_known K loop path true p)
  unfolding with_stream
  remove_directory-Removed loop path k streams h p is (at_d, at_h) loops =
      let d : Dirs = record { kind = k; streams = streams } in
      let (dir, ns, opened, unused, at_opened, bound, all) = tree.opendir path p.kernel d at_d is in
      let Q = Removed K view allocator width tree path k streams h in
      let p' : Process K.State = record p { kernel = (K.opendir path p.kernel).1 } in
      subst (λ r. Returns Q ((empty_opened K loop r >> call (K.rmdir path)) p')) (sym opened)
        (Returns-assoc Q (loop dir p') _ _ (
          Returns-bind
            (λ _. Emptied K view allocator width tree path k (put dir (some []) streams) h ns) Q _ _
            (loops dir ns p' bound (at_opened, at_h))
            (λ _ q (k₁, (at_q, at_h'), same, keeps, shrinks, clear).
              let closed : view (K.closedir dir q.kernel)
                  ≡ record { kind = k₁; streams = streams } =
                tree.closedir dir q.kernel
                ∙ ap (with_stream dir none) at_q
                ∙ ap (λ (t : ℕ → Option (List Bytes)). record { kind = k₁; streams = t })
                    (put_back dir none (some []) streams unused) in
              emptied-Removed path k k₁ streams h (record q { kernel = K.closedir dir q.kernel }) is
                (same ∙ is) (closed, at_h') keeps shrinks
                (elim clear [
                  | inl cleared ↦ inl (λ name plain.
                      elim (Option-cases (k (child_path path name))) [
                        | inl e ↦ Shrinks-none k k₁ (child_path path name) shrinks e
                        | inr (m, e) ↦
                            cleared name plain (all name plain (λ e'. some_none m (sym e ∙ e')))
                      ])
                  | inr why ↦ inr why
                ]))))
    where
      some_none : (m : FileType) → ¬ (some m ≡ none)
      some_none m e = cc

  -- A path whose status was asked for.
  pub remove_known-Removed :
      (loop : ℕ → M K.State (Unit {0})) (path : Bytes) (k : Kinds)
      (streams : ℕ → Option (List Bytes)) (h : Heap) (p : Process K.State)
      → Holds K view (record { kind = k; streams = streams }) h p
      → (k path ≡ some directory
          → Returns
              (Removed K view allocator width tree path k streams h)
              (remove_known K loop path true p))
      → Returns
          (Removed K view allocator width tree path k streams h)
          (remove_if_exists K (remove_known K loop path) (K.lstat path p.kernel) p)
  remove_known-Removed loop path k streams h p (at_d, at_h) directory_case =
      let d : Dirs = record { kind = k; streams = streams } in
      let Q = Removed K view allocator width tree path k streams h in
      elim (Option-cases (k path)) [
        | inl e ↦
            subst (λ r. Returns Q (remove_if_exists K (remove_known K loop path) r p))
              (sym (tree.lstat_none path p.kernel d at_d e))
              (k, (at_d, at_h), (λ x outside. refl), (λ x. inr refl), inl (e, inr (refl, e)))
        | inr (m, e) ↦
            let (info, had, at_mode) = tree.lstat_some path p.kernel d m at_d e in
            subst (λ r. Returns Q (remove_if_exists K (remove_known K loop path) r p)) (sym had)
              (subst
                (λ m'.
                  Returns Q (remove_known K loop path (elim m' [ directory ↦ true | _ ↦ false ]) p))
                (sym at_mode) (by_mode m e))
      ]
    where
      plain_file :
          (m : FileType)
          → k path ≡ some m
          → m ≢ directory
          → Returns (Removed K view allocator width tree path k streams h) (call (K.unlink path) p)
      plain_file m e ne =
          let (answer, removed) =
            tree.unlink path p.kernel (record { kind = k; streams = streams }) m at_d e ne in
          (
            gone path k,
            (removed, at_h),
            gone-Keeps path k,
            gone-Shrinks path k,
            inl (gone_self path k, inl (answer, λ e'. some_none m (sym e ∙ e'))),
          )
        where
          some_none : (m : FileType) → ¬ (some m ≡ none)
          some_none m e = cc

      by_mode :
          (m : FileType)
          → k path ≡ some m
          → Returns
              (Removed K view allocator width tree path k streams h)
              (remove_known K loop path (elim m [ directory ↦ true | _ ↦ false ]) p)
      by_mode directory e = directory_case e
      by_mode regular e = plain_file regular e (λ e'. cc)
      by_mode other e = plain_file other e (λ e'. cc)
