-- ===== src/FileSystem/Read/File.antt =====
-- About `fs_open_read`, `fs_close`, `fs_read_file` and `fs_free_buffer`.
use mathlib.Core.Path.{subst}
use kira_zig.Common.{
  ℕ, ◌+◌, ◌≡◌, ◌≢◌, ◌⊎◌, inl, inr, refl, sym, ap, ◌∙◌, ℤ, pos, negsuc, true, Option, none, some,
  ◌∷◌, ◌++◌, length, take, take_all, pos_part, Bytes,
}
use kira_zig.FileSystem.{
  handle, buffer, Heap, at, put, Stat, regular, System, Process, ReadResult, empty_result, pure,
  and_then, ◌>>=◌, ◌>>◌,
}
use kira_zig.FileSystem.Store.{free, free_buffer}
use kira_zig.FileSystem.Disk.{
  Disk, IsFinite, ReadFailure, no_room, cannot_open, cannot_size, Opened, IsPosix, IsAllocator,
  with_fd, without_fd,
}
use kira_zig.FileSystem.Rules.{
  Returns, Returns-bind, Holds, Placed, malloc-Placed, free-at, free-Holds, load_handle-step,
  store_handle-Holds,
}
use kira_zig.FileSystem.Cells.{
  put-IsFinite, put_self, put_ne, put_back, fresh-ne, put_over, without_fd-with_fd,
}
use kira_zig.FileSystem.Read.{
  handle_size, keep_fd, open_with, open_read, close_fd, close, read_opened, read_file,
}
use kira_zig.FileSystem.Read.Whole.{
  AllRead, StatusRead, read_all_from_handle-StatusRead, size_of-some,
}

module _ (K : System) (view : K.State → Disk) (posix : IsPosix K view)
    (allocator : IsAllocator K) where
  -- A new handle of a new descriptor, at the start of the file; or nothing.
  abbrev pub Open : Bytes → Disk → Heap → Option ℕ → Process K.State → Type 0
  Open path d h none p = ReadFailure K view path d × Holds K view d h p
  Open path d h (some f) p =
      (h f ≡ none)
      × (n : ℕ) × (d.table n ≡ none)
      × Holds K view (with_fd n path 0 d) (put f (some (handle (pos n))) h) p

  keep_fd-Open :
      (path : Bytes) (d : Disk) (h : Heap) (f : ℕ) (old fd : ℤ) (p : Process K.State)
      → h f ≡ none
      → Opened path d d fd (view p.kernel)
      → p.heap ≡ put f (some (handle old)) h
      → ((k : ℕ) → fd ≡ negsuc k → ReadFailure K view path d)
      → Returns (Open path d h) (keep_fd K f fd p)
  unfolding keep_fd
  keep_fd-Open path d h f old (negsuc k) p fresh at_d at_h why =
      Returns-bind (λ _. Holds K view d (put f (some (handle (negsuc k))) h)) (Open path d h) _ _
        (store_handle-Holds K view h f old (negsuc k) p (at_d, at_h))
        (λ _ q stored.
          Returns-bind (λ _. Holds K view d h) (Open path d h) _ _
            (free-Holds K view h f _ q fresh stored) (λ _ q holds. (why k refl, holds)))
  keep_fd-Open path d h f old (pos n) p fresh (unused, at_d) at_h why =
      Returns-bind (λ _. Holds K view (with_fd n path 0 d) (put f (some (handle (pos n))) h))
        (Open path d h) _ _ (store_handle-Holds K view h f old (pos n) p (at_d, at_h))
        (λ _ q stored. (fresh, n, unused, stored))

  open_with-Open :
      (path : Bytes) (d : Disk) (h : Heap) (r : Option ℕ) (p : Process K.State)
      → Placed K view (handle (pos 0)) d h r p
      → Returns (Open path d h) (open_with K path r p)
  open_with-Open path d h none p (why, holds) = (no_room why, holds)
  open_with-Open path d h (some f) p (fresh, (at_d, at_h)) =
      keep_fd-Open path d h f (pos 0) (K.open_read path p.kernel).0 _ fresh
        (subst
          (λ e. Opened path e e (K.open_read path p.kernel).0 (view (K.open_read path p.kernel).1))
          at_d (posix.open_read path p.kernel))
        at_h (λ k e. cannot_open p.kernel k at_d e)

  pub open_read-Open :
      (path : Bytes) (d : Disk) (h : Heap) (p : Process K.State)
      → IsFinite h
      → Holds K view d h p
      → Returns (Open path d h) (open_read K (some path) p)
  unfolding open_read
  open_read-Open path d h p finite holds =
      Returns-bind (Placed K view (handle (pos 0)) d h) (Open path d h) _ _
        (malloc-Placed K view allocator handle_size (handle (pos 0)) p finite holds)
        (open_with-Open path d h)

  pub close-Holds :
      (n : ℕ) (path : Bytes) (k : ℕ) (d : Disk) (h : Heap) (f : ℕ) (p : Process K.State)
      → d.table n ≡ none
      → h f ≡ some (handle (pos n))
      → Holds K view (with_fd n path k d) h p
      → Returns (λ _. Holds K view d (put f none h)) (close K (some f) p)
  unfolding close
  close-Holds n path k d h f p unused found (at_d, at_h) =
      subst
        (λ r.
          Returns (λ _. Holds K view d (put f none h))
            (and_then r (λ fd. close_fd K fd >> free (some f))))
        (sym (load_handle-step K view h f (pos n) p found (at_d, at_h)))
        (free-at K view h f _ found (
          posix.close n p.kernel ∙ ap (without_fd n) at_d ∙ without_fd-with_fd n path k d unused,
          at_h,
        ))

  -- The file as it is on disk, in a new buffer that a NUL ends; or the empty result, after a call
  -- that failed.
  abbrev pub FileRead : (path bs : Bytes) → Disk → Heap → ReadResult → Process K.State → Type 0
  FileRead path bs d h r p =
      ((r ≡ empty_result) × ReadFailure K view path d × Holds K view d h p)
      ⊎ ((a : ℕ) × (pad : Bytes) × (r ≡ record { ok = true; text = at a; size = length bs })
          × (h a ≡ none)
          × Holds K view d (put a (some (buffer (bs ++ 0 ∷ pad))) h) p)

  close-FileRead :
      (n : ℕ) (path bs : Bytes) (d : Disk) (h : Heap) (f : ℕ) (r : ReadResult) (p : Process K.State)
      → h f ≡ none
      → d.table n ≡ none
      → AllRead K view posix allocator n path 0 d bs (put f (some (handle (pos n))) h) r p
      → Returns (FileRead path bs d h) ((close K (some f) >> pure r) p)
  close-FileRead n path bs d h f r p fresh unused (inl (e, why, k, holds)) =
      let h' = put f (some (handle (pos n))) h in
      Returns-bind (λ _. Holds K view d (put f none h')) (FileRead path bs d h) _ _
        (close-Holds n path k d h' f p unused (put_self f _ h) holds)
        (λ _ q (at_d, at_h). inl (e, why, (at_d, at_h ∙ put_back f none _ h fresh)))
  close-FileRead n path bs d h f r p fresh unused (inr (a, pad, e, new, holds)) =
      let o = some (handle (pos n)) in
      let h' = put f o h in
      let o' = some (buffer (bs ++ 0 ∷ pad)) in
      let ne : a ≢ f = fresh-ne h' new (put_self f o h) in
      let ne' : f ≢ a = λ e. ne (sym e) in
      Returns-bind (λ _. Holds K view d (put f none (put a o' h'))) (FileRead path bs d h) _ _
        (close-Holds n path (0 + length bs) d (put a o' h') f p unused
          (put_ne a o' h' ne' ∙ put_self f o h) holds)
        (λ _ q (at_d, at_h).
          inr (a, pad, e, sym (put_ne f o h ne) ∙ new, (at_d, at_h ∙ put_over h a f o' o ne fresh)))

  module _ (path : Bytes) (d : Disk)
      (regular_file : (n : ℕ) (s : K.State) (info : Stat)
        → view s ≡ with_fd n path 0 d
        → K.fstat (pos n) s ≡ some info
        → info.mode ≡ regular)
      (h : Heap) (finite : IsFinite h) where
    close_status-FileRead :
        (n f : ℕ) (s : K.State) (r : ReadResult) (p : Process K.State)
        → h f ≡ none
        → d.table n ≡ none
        → view s ≡ with_fd n path 0 d
        → StatusRead K view posix allocator n path 0 d
            (K.fstat (pos n) s)
            (put f (some (handle (pos n))) h)
            r
            p
        → Returns (FileRead path (d.file path) d h) ((close K (some f) >> pure r) p)
    close_status-FileRead n f s r p fresh unused at_d (inl (failed, e, holds)) =
        close-FileRead n path (d.file path) d h f r p fresh unused
          (inl (e, cannot_size n s at_d failed, 0, holds))
    close_status-FileRead n f s r p fresh unused at_d (inr (size, sized, all)) =
        let (info, had, at_size) = size_of-some (K.fstat (pos n) s) size sized in
        let shown = posix.fstat n path 0 d s info at_d had (regular_file n s info at_d had) in
        let e : length (d.file path) ≡ size = ap pos_part (sym shown ∙ at_size) in
        close-FileRead n path (d.file path) d h f r p fresh unused (
          subst
            (λ bs.
              AllRead K view posix allocator n path 0 d bs (put f (some (handle (pos n))) h) r p)
            (ap (λ k. take k (d.file path)) (sym e) ∙ take_all (d.file path)) all)

    read_opened-FileRead :
        (r : Option ℕ) (p : Process K.State)
        → Open path d h r p
        → Returns (FileRead path (d.file path) d h) (read_opened K r p)
    read_opened-FileRead none p (why, holds) = inl (refl, why, holds)
    read_opened-FileRead (some f) p (fresh, n, unused, holds) =
        let h' = put f (some (handle (pos n))) h in
        Returns-bind (StatusRead K view posix allocator n path 0 d (K.fstat (pos n) p.kernel) h')
          (FileRead path (d.file path) d h) _ _
          (read_all_from_handle-StatusRead K view posix allocator n path 0 d h' f p
            (put-IsFinite f _ h finite) (put_self f _ h) holds)
          (λ r q all. close_status-FileRead n f p.kernel r q fresh unused holds.0 all)

    pub read_file-FileRead :
        (p : Process K.State)
        → Holds K view d h p
        → Returns (FileRead path (d.file path) d h) (read_file K (some path) p)
    unfolding read_file
    read_file-FileRead p holds =
        Returns-bind (Open path d h) (FileRead path (d.file path) d h) _ _
          (open_read-Open path d h p finite holds) read_opened-FileRead

    free_buffer-read_file :
        (p : Process K.State)
        → Holds K view d h p
        → Returns
            (λ _. Holds K view d h)
            ((read_file K (some path) >>= λ r. free_buffer (ReadResult.text r)) p)
    unfolding free_buffer
    free_buffer-read_file p holds =
        Returns-bind (FileRead path (d.file path) d h) (λ _. Holds K view d h) _ _
          (read_file-FileRead p holds) freed
      where
        freed :
            (r : ReadResult) (q : Process K.State)
            → FileRead path (d.file path) d h r q
            → Returns (λ _. Holds K view d h) (free_buffer r.text q)
        freed r q (inl (e, why, holds)) =
            subst (λ r. Returns (λ _. Holds K view d h) (free_buffer (ReadResult.text r) q)) (sym e)
              holds
        freed r q (inr (a, pad, e, fresh, holds)) =
            subst (λ r. Returns (λ _. Holds K view d h) (free_buffer (ReadResult.text r) q)) (sym e)
              (free-Holds K view h a _ q fresh holds)

    -- Reading a regular file by its path gives the whole file, whatever the lengths are in which the
    -- kernel delivers it; or the empty result, which is only possible where, with the disk as it is, the
    -- kernel can fail to open this file, to tell its size or to read it, or `malloc` can fail at a heap
    -- with finitely many allocations, as the heap is at the start. Either way the descriptor is closed
    -- and the handle freed: the disk is as before, and the heap too, but for a new buffer that holds the
    -- file and a terminator. Once `fs_free_buffer` was called on the result, whatever it was, the heap is
    -- as before.
    pub read_file-Reads :
        (p : Process K.State)
        → Holds K view d h p
        → Returns (FileRead path (d.file path) d h) (read_file K (some path) p)
          × Returns
              (λ _. Holds K view d h)
              ((read_file K (some path) >>= λ r. free_buffer (ReadResult.text r)) p)
    read_file-Reads p holds = (read_file-FileRead p holds, free_buffer-read_file p holds)
