-- ===== src/FileSystem/Remove/Round.antt =====
-- About a round of the loop of `fs_remove_path`.
use kira_zig.Common.{
  ℕ, suc, ◌≡◌, ◌⊎◌, inl, inr, ap, ◌∙◌, Bool, true, false, Option, none, some, List, ◌∷◌, Bytes,
  Bool-cases,
}
use kira_zig.FileSystem.{Heap, System, Process, M}
use kira_zig.FileSystem.Disk.{IsFinite, OutOfMemory, IsAllocator}
use kira_zig.FileSystem.Rules.{Returns, Returns-bind, Returns-map, Holds}
use kira_zig.FileSystem.Listing.{is_dots}
use kira_zig.FileSystem.Remove.{child_path, remove_next}
use kira_zig.FileSystem.Remove.Tree.{
  Kinds, Dirs, In, IsTree, HasHeight, Shrinks, Shrinks-trans, Shrinks-none, HasHeight-Shrinks,
  not-Under-child, Keeps-trans, Keeps-child,
}
use kira_zig.FileSystem.Remove.Child.{Removed, Cleared, Emptied, remove_entry-Cleared}

module _ (K : System) (view : K.State → Dirs) (allocator : IsAllocator K) (width : ℕ)
    (tree : IsTree K view width) where
  -- A round of the loop.
  pub remove_next-Emptied :
      (again : M K.State (Unit {0})) (remove : Bytes → M K.State Bool) (path name : Bytes)
      (rest : List Bytes) (n : ℕ) (k : Kinds) (streams end : ℕ → Option (List Bytes)) (h : Heap)
      (p : Process K.State)
      → IsFinite h
      → HasHeight (suc n) path k
      → Holds K view (record { kind = k; streams = streams }) h p
      → ((child : Bytes) (g : Heap) (q : Process K.State)
          → IsFinite g
          → HasHeight n child k
          → Holds K view (record { kind = k; streams = streams }) g q
          → Returns (Removed K view allocator width tree child k streams g) (remove child q))
      → ((k' : Kinds) (q : Process K.State)
          → HasHeight (suc n) path k'
          → Holds K view (record { kind = k'; streams = streams }) h q
          → Returns (λ _. Emptied K view allocator width tree path k' end h rest) (again q))
      → Returns
          (λ _. Emptied K view allocator width tree path k end h (name ∷ rest))
          (remove_next K again remove path (some name) p)
  unfolding remove_next
  remove_next-Emptied again remove path name rest n k streams end h p finite high holds removes
        next =
      elim (Bool-cases (is_dots name)) [
        | inl dots ↦
            let Q =
              λ (_ : Unit {0}). Emptied K view allocator width tree path k end h (name ∷ rest) in
            rw dots (
              Returns-map (λ _. Emptied K view allocator width tree path k end h rest) Q _
                (next k p high holds)
                (λ _ q (k', holds, same, keeps, shrinks, clear).
                  (k', holds, same, keeps, shrinks, skipped path name rest k' dots clear)))
        | inr plain ↦
            let child = child_path path name in
            let Q =
              λ (_ : Unit {0}). Emptied K view allocator width tree path k end h (name ∷ rest) in
            rw plain (
              Returns-bind (λ _. Cleared K view allocator width tree child k streams h) Q _ _
                (remove_entry-Cleared K view allocator width tree (remove child) path name k streams
                  h p finite holds
                  (λ g q finite holds. removes child g q finite (high name plain) holds))
                (λ _ q (k₁, holds, keeps, shrinks, first).
                  Returns-map (λ _. Emptied K view allocator width tree path k₁ end h rest) Q _
                    (next k₁ q (HasHeight-Shrinks (suc n) path k k₁ shrinks high) holds)
                    (λ _ q (k₂, holds, same, keeps', shrinks', clear). (
                      k₂,
                      holds,
                      same ∙ keeps path (not-Under-child path name),
                      Keeps-trans path k k₁ k₂ (Keeps-child path name k k₁ keeps) keeps',
                      Shrinks-trans k k₁ k₂ shrinks shrinks',
                      both path name rest k₁ k₂ shrinks' first clear,
                    ))))
      ]
    where
      both :
          (path name : Bytes) (rest : List Bytes) (k₁ k₂ : Kinds)
          → Shrinks k₁ k₂
          → ((k₁ (child_path path name) ≡ none) ⊎ OutOfMemory K)
          → (((x : Bytes) → is_dots x ≡ false → In x rest → k₂ (child_path path x) ≡ none)
              ⊎ OutOfMemory K)
          → (((x : Bytes) → is_dots x ≡ false → In x (name ∷ rest) → k₂ (child_path path x) ≡ none)
              ⊎ OutOfMemory K)
      both path name rest k₁ k₂ shrinks (inr why) clear = inr why
      both path name rest k₁ k₂ shrinks (inl first) (inr why) = inr why
      both path name rest k₁ k₂ shrinks (inl first) (inl clear) = inl (λ x plain found. elim found [
        | inl e ↦
            ap (λ y. k₂ (child_path path y)) e
            ∙ Shrinks-none k₁ k₂ (child_path path name) shrinks first
        | inr further ↦ clear x plain further
      ])

      plain_dots :
          (name name' : Bytes) → is_dots name ≡ true → is_dots name' ≡ false → ¬ (name' ≡ name)
      plain_dots name name' dots plain e = cc

      skipped :
          (path name : Bytes) (rest : List Bytes) (k : Kinds)
          → is_dots name ≡ true
          → (((x : Bytes) → is_dots x ≡ false → In x rest → k (child_path path x) ≡ none)
              ⊎ OutOfMemory K)
          → (((x : Bytes) → is_dots x ≡ false → In x (name ∷ rest) → k (child_path path x) ≡ none)
              ⊎ OutOfMemory K)
      skipped path name rest k dots (inr why) = inr why
      skipped path name rest k dots (inl clear) = inl (λ x plain found. elim found [
        | inl e ↦ absurd (plain_dots name x dots plain e)
        | inr further ↦ clear x plain further
      ])
