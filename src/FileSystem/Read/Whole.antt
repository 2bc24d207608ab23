-- ===== src/FileSystem/Read/Whole.antt =====
-- About `fs_read_all_from_handle`, `fs_read_file` and `fs_free_buffer`.
use mathlib.Core.Option.{some-injective}
use mathlib.Core.Path.{subst}
use kira_zig.Common.{
  length-replicate, ℕ, suc, ◌+◌, ◌^◌, ◌≤◌, ◌<◌, ◌≡◌, ◌⊎◌, inl, inr, refl, sym, ap, ◌∙◌, ℤ, pos,
  negsuc, true, Option, none, some, [], ◌∷◌, ◌++◌, arith, length, length-append, length-take, take,
  drop, replicate, append_assoc, Bytes, Option-cases,
}
use kira_zig.FileSystem.{
  handle, buffer, Heap, at, put, Stat, size_of, System, Process, u64, ReadResult, empty_result,
  and_then, ask, ◌>>=◌,
}
use kira_zig.FileSystem.Store.{splice}
use kira_zig.FileSystem.Disk.{Disk, IsFinite, ReadFailure, no_room, IsPosix, IsAllocator, with_fd}
use kira_zig.FileSystem.Rules.{
  Returns, Returns-bind, Returns-map, Holds, Placed, malloc-Placed, load_handle-step,
  store_bytes-Holds,
}
use kira_zig.FileSystem.Read.{terminate, read_into, read_sized, read_all_from_handle}
use kira_zig.FileSystem.Read.Loop.{splice-append, Loaded, read_loop-Loaded}

pub size_of-some :
    (o : Option Stat) (size : ℕ)
    → size_of o ≡ some size
    → (info : Stat) × (o ≡ some info) × (info.size ≡ pos size)
size_of-some none size e = cc
size_of-some (some info) size e = (info, refl, shown info.size refl e)
  where
    shown :
        (z : ℤ)
        → info.size ≡ z
        → (elim z [ pos n ↦ some n | negsuc _ ↦ none ]) ≡ some size
        → info.size ≡ pos size
    shown (pos n) at_z e = at_z ∙ ap pos (some-injective _ _ e)
    shown (negsuc n) at_z e = cc

module _ (K : System) (view : K.State → Disk) (posix : IsPosix K view)
    (allocator : IsAllocator K) where
  -- The bytes of the file from `start` on, up to the size, in a new buffer that a NUL ends; or the
  -- empty result, with nothing allocated, after a call that failed.
  abbrev pub AllRead :
      (n : ℕ)
      → (path : Bytes) → (start : ℕ) → Disk
      → (bs : Bytes) → Heap
      → ReadResult
      → Process K.State
      → Type 0
  AllRead n path start d bs h r p =
      ((r ≡ empty_result)
        × ReadFailure K view path d
        × (k : ℕ) × Holds K view (with_fd n path k d) h p)
      ⊎ ((a : ℕ) × (pad : Bytes) × (r ≡ record { ok = true; text = at a; size = length bs })
          × (h a ≡ none)
          × Holds K view (with_fd n path (start + length bs) d)
              (put a (some (buffer (bs ++ 0 ∷ pad))) h) p)

  module _ (n : ℕ) (path : Bytes) (start : ℕ) (d : Disk) (size : ℕ) (h : Heap) where
    abbrev bytes_read : Bytes
    bytes_read = take size (drop start (d.file path))

    terminate-AllRead :
        (a : ℕ) (fresh : h a ≡ none) (small : size < 2 ^ 63) (r : Option ℕ) (p : Process K.State)
        → Loaded K view posix n path start d a size h fresh small r p
        → Returns (AllRead n path start d bytes_read h) (terminate K a r p)
    terminate-AllRead a fresh small none p loaded = inl (refl, loaded.0, loaded.1, loaded.2)
    terminate-AllRead a fresh small (some total) p (e, pad, long, holds) =
        let bs = take size (drop start (d.file path)) in
        let room : total ≤ size = omega (arith, e, length-take size (drop start (d.file path))) in
        let inside : total + 1 ≤ length (bs ++ pad) = omega (arith, length-append bs pad, e) in
        Returns-bind
          (λ _.
            Holds K view (with_fd n path (start + total) d)
              (put a (some (buffer (splice (bs ++ pad) total (0 ∷ [])))) h))
          (AllRead n path start d bs h) _ _
          (store_bytes-Holds K view h a total (0 ∷ []) (bs ++ pad) p inside holds)
          (λ _ q (at_d, at_h). inr (
            a,
            drop 1 pad,
            ap (λ k. record { ok = true; text = at a; size = k }) e,
            fresh,
            (
              at_d ∙ ap (λ k. with_fd n path (start + k) d) e,
              at_h
                  ∙ ap (λ t. put a (some (buffer t)) h)
                      (splice-append bs (0 ∷ []) pad total (sym e)
                        ∙ append_assoc bs (0 ∷ []) (drop 1 pad)),
            ),
          ))

    read_into-AllRead :
        (a : Option ℕ) (p : Process K.State)
        → size < 2 ^ 63
        → Placed K view (buffer (replicate (size + 1) 0)) (with_fd n path start d) h a p
        → Returns (AllRead n path start d bytes_read h) (read_into K (pos n) size a p)
    read_into-AllRead none p small (why, holds) = inl (refl, no_room why, start, holds)
    read_into-AllRead (some a) p small (fresh, (at_d, at_h)) =
        let e : start ≡ start + 0 = omega arith in
        Returns-bind (Loaded K view posix n path start d a size h fresh small)
          (AllRead n path start d bytes_read h) _ _
          (read_loop-Loaded K view posix n path start d a size h fresh small (suc size) 0 p
            (omega arith) (omega arith)
            (
              omega arith,
              replicate (size + 1) 0,
              omega (arith, length-replicate {A = ℕ} (size + 1) 0),
              (at_d ∙ ap (λ k. with_fd n path k d) e, at_h),
            ))
          (terminate-AllRead a fresh small)

  -- Where `fstat` gives no size the result is empty, else the size bounds what is read.
  abbrev pub StatusRead :
      (n : ℕ)
      → (path : Bytes) → (start : ℕ) → Disk
      → Option Stat
      → Heap
      → ReadResult
      → Process K.State
      → Type 0
  StatusRead n path start d o h r p =
      ((size_of o ≡ none) × (r ≡ empty_result) × Holds K view (with_fd n path start d) h p)
      ⊎ ((size : ℕ) × (size_of o ≡ some size)
          × AllRead n path start d (take size (drop start (d.file path))) h r p)

  read_sized-StatusRead :
      (n : ℕ) (path : Bytes) (start : ℕ) (d : Disk) (h : Heap) (o : Option Stat)
      (p : Process K.State)
      → IsFinite h
      → Holds K view (with_fd n path start d) h p
      → ((info : Stat) (size : ℕ) → o ≡ some info → info.size ≡ pos size → size < 2 ^ 63)
      → Returns (StatusRead n path start d o h) (read_sized K (pos n) (size_of o) p)
  read_sized-StatusRead n path start d h o p finite holds small = elim (Option-cases (size_of o)) [
    | inl failed ↦
        subst (λ r. Returns (StatusRead n path start d o h) (read_sized K (pos n) r p)) (sym failed)
          (inl (failed, refl, holds))
    | inr (size, e) ↦
        let (info, had, at_size) = size_of-some o size e in
        let Q = StatusRead n path start d o h in
        let Q' = AllRead n path start d (take size (drop start (d.file path))) h in
        let o' = buffer (replicate (size + 1) 0) in
        subst (λ r. Returns Q (read_sized K (pos n) r p)) (sym e)
          (Returns-map Q' Q _
            (Returns-bind (Placed K view o' (with_fd n path start d) h) Q' _ _
              (malloc-Placed K view allocator (u64 (size + 1)) o' p finite holds)
              (λ a q placed.
                read_into-AllRead n path start d size h a q (small info size had at_size) placed))
            (λ r q all. inr (size, e, all)))
  ]

  pub read_all_from_handle-StatusRead :
      (n : ℕ) (path : Bytes) (start : ℕ) (d : Disk) (h : Heap) (file : ℕ) (p : Process K.State)
      → IsFinite h
      → h file ≡ some (handle (pos n))
      → Holds K view (with_fd n path start d) h p
      → Returns
          (StatusRead n path start d (K.fstat (pos n) p.kernel) h)
          (read_all_from_handle K (some file) p)
  unfolding read_all_from_handle
  read_all_from_handle-StatusRead n path start d h file p finite found holds =
      let o = K.fstat (pos n) p.kernel in
      let Q = StatusRead n path start d o h in
      subst
        (λ r. Returns Q (and_then r (λ fd. ask (K.fstat fd) >>= λ o. read_sized K fd (size_of o))))
        (sym (load_handle-step K view h file (pos n) p found holds))
        (read_sized-StatusRead n path start d h o p finite holds
          (λ info size had at_size. posix.off_t_size n size p.kernel info had at_size))
