-- ===== src/FileSystem/Write/Loop.antt =====
-- About `fs_write_bytes`.
use mathlib.Core.Path.{subst}
use kira_zig.Common.{
  ℕ, zero, suc, ◌+◌, ◌-◌, ◌^◌, ◌≤◌, ◌<◌, ◌≡◌, ◌≢◌, ◌⊎◌, inl, inr, refl, sym, ap, ◌∙◌, ℤ, pos,
  negsuc, Bool, true, false, Option, none, some, [], ◌++◌, ltb, leb, arith, length, length-take,
  length-drop, take, drop, take-take, take_add, Bytes, Bool-cases, ltb→lt,
}
use kira_zig.FileSystem.{Heap, System, Process, M, u64}
use kira_zig.FileSystem.Disk.{
  Disk, WriteFailure, cannot_create, cannot_write, Opened, Written, IsPosix, Progresses, with_file,
  with_fd, without_fd,
}
use kira_zig.FileSystem.Rules.{Returns, Holds}
use kira_zig.FileSystem.Cells.{
  without_fd-with_fd, file-with_file, with_file-with_file, table-with_file,
}
use kira_zig.FileSystem.Write.{write_next, write_loop, write_opened, write_to, write_bytes}

module _ (K : System) (view : K.State → Disk) (posix : IsPosix K view) (progresses : Progresses K)
    (path bytes : Bytes) (size : ℕ) (le_bytes : size ≤ length bytes) (small : size < 2 ^ 64)
    (d : Disk) (h : Heap) where
  -- The first `k` bytes are the file.
  abbrev pub saved : ℕ → Disk
  saved k = with_file path (take k bytes) d

  -- All bytes are the file; or a part of them, or the old contents, after a call that failed.
  abbrev pub Wrote : Bool → Process K.State → Type 0
  Wrote true p = Holds K view (saved size) h p
  Wrote false p =
      WriteFailure K view path d
      × (Holds K view d h p ⊎ ((k : ℕ) × (k < size) × Holds K view (saved k) h p))

  module _ (n : ℕ) (unused : d.table n ≡ none) where
    closed :
        (k k' : ℕ) (p : Process K.State)
        → view p.kernel ≡ with_fd n path k (saved k')
        → view (K.close (pos n) p.kernel) ≡ saved k'
    closed k k' p at_d =
        posix.close n p.kernel
        ∙ ap (without_fd n) at_d
        ∙ without_fd-with_fd n path k (saved k')
            (ap (λ t. t n) (table-with_file path (take k' bytes) d) ∙ unused)

    -- `total` bytes are written.
    abbrev WroteTo : ℕ → Process K.State → Type 0
    WroteTo total p = Holds K view (with_fd n path total (saved total)) h p

    -- What the disk looks like after `k` more bytes.
    appended :
        (total k k' : ℕ)
        → total ≤ size
        → k ≤ size - total
        → with_fd n path (length ((saved total).file path) + k') (
            with_file path
              ((saved total).file path ++ take k (take (size - total) (drop total bytes)))
              (saved total))
          ≡ with_fd n path (total + k') (saved (total + k))
    appended total k k' le fits =
        let at_file : (saved total).file path ≡ take total bytes =
          file-with_file path (take total bytes) d in
        let long : length (take total bytes) ≡ total = omega (arith, length-take total bytes) in
        let joined : (saved total).file path ++ take k (take (size - total) (drop total bytes))
            ≡ take (total + k) bytes =
          ap (λ t. t ++ take k (take (size - total) (drop total bytes))) at_file
          ∙ ap (λ t. take total bytes ++ t) (take-take k (size - total) (drop total bytes) fits)
          ∙ sym (take_add total k bytes) in
        ap
          (λ t. with_fd n path (length t + k') (
            with_file path
              ((saved total).file path ++ take k (take (size - total) (drop total bytes)))
              (saved total)))
          at_file
        ∙ ap
            (λ t. with_fd n path (t + k') (
              with_file path
                ((saved total).file path ++ take k (take (size - total) (drop total bytes)))
                (saved total)))
            long
        ∙ ap (λ t. with_fd n path (total + k') (with_file path t (saved total))) joined
        ∙ ap (with_fd n path (total + k'))
            (with_file-with_file path (take (total + k) bytes) (take total bytes) d)

    write_next-Wrote :
        (again : ℕ → M K.State Bool) (total : ℕ) (r : Option ℕ) (p : Process K.State)
        → total < size
        → p.heap ≡ h
        → Written
            (take (size - total) (drop total bytes))
            (λ k k'. with_fd n path (length ((saved total).file path) + k') (
              with_file path
                ((saved total).file path ++ take k (take (size - total) (drop total bytes)))
                (saved total)))
            r
            (view p.kernel)
        → (r ≡ none → WriteFailure K view path d)
        → r ≢ some 0
        → ((m : ℕ) (q : Process K.State)
            → total < m
            → m ≤ size
            → WroteTo m q
            → Returns Wrote (again m q))
        → Returns Wrote (write_next K again (pos n) total r p)
    unfolding write_next
    write_next-Wrote again total none p lt at_h (k', at_d) why some_bytes next =
        let same : total + 0 ≡ total = omega arith in
        (
          why refl,
          inr (
            total,
            lt,
            (
              closed (total + k') total p (
                  at_d
                  ∙ appended total 0 k' (omega arith) (omega arith)
                  ∙ ap (λ k. with_fd n path (total + k') (saved k)) same),
              at_h,
            ),
          ),
        )
    write_next-Wrote again total (some k) p lt at_h (fits, at_d) why some_bytes next =
        let within : k ≤ size - total =
          omega
            (arith, fits, length-take (size - total) (drop total bytes), length-drop total bytes) in
        let more : k ≢ 0 = λ e. some_bytes (ap some e) in
        let m = total + k in
        let le : m ≤ size = omega arith in
        let same : m ≡ u64 m = omega arith in
        subst (λ k. Returns Wrote (again k p)) same
          (next m p (omega arith) le (at_d ∙ appended total k k (omega arith) within, at_h))

    at_end : (total : ℕ) → total ≤ size → length ((saved total).file path) ≡ total
    at_end total le =
        ap length (file-with_file path (take total bytes) d)
        ∙ omega (arith, length-take total bytes)

    -- A round for each byte is enough.
    write_loop-Wrote :
        (fuel total : ℕ) (p : Process K.State)
        → size - total < fuel
        → total ≤ size
        → WroteTo total p
        → Returns Wrote (write_loop K fuel (pos n) bytes size total p)
    unfolding write_loop
    write_loop-Wrote zero total p enough le wrote = absurd (omega arith)
    write_loop-Wrote (suc fuel) total p enough le (at_d, at_h) =
        elim (Bool-cases (ltb total size)) [
          | inl more ↦
              let bs = take (size - total) (drop total bytes) in
              let given : leb size (length bytes) ≡ true = ground arith in
              let nonempty : bs ≢ [] = λ e. omega (
                arith,
                ap length e,
                length-take (size - total) (drop total bytes),
                length-drop total bytes,
                ltb→lt total size more,
              ) in
              rw (more, given)
                (write_next-Wrote (write_loop K fuel (pos n) bytes size) total _ _ (ground arith)
                  at_h
                  (posix.write n bs path (saved total) p.kernel
                    (at_d ∙ ap (λ k. with_fd n path k (saved total)) (sym (at_end total le))))
                  (λ e. cannot_write n total (take total bytes) bs p.kernel at_d e)
                  (progresses n bs p.kernel nonempty)
                  (λ m q lt le. write_loop-Wrote fuel m q (ground arith) le))
          | inr full ↦
              let e : total ≡ size = ground arith in
              rw full (closed total total p at_d ∙ ap saved e, at_h)
        ]

  write_opened-Wrote :
      (fuel : ℕ) (fd : ℤ) (p : Process K.State)
      → size < fuel
      → p.heap ≡ h
      → Opened path d (with_file path [] d) fd (view p.kernel)
      → ((k : ℕ) → fd ≡ negsuc k → WriteFailure K view path d)
      → Returns Wrote (write_opened K fuel bytes size fd p)
  write_opened-Wrote fuel (negsuc k) p enough at_h at_d why = (why k refl, inl (at_d, at_h))
  write_opened-Wrote fuel (pos n) p enough at_h (unused, at_d) why =
      write_loop-Wrote n unused fuel 0 p (omega arith) (omega arith) (at_d, at_h)

  pub write_to-Wrote :
      (fuel : ℕ) (p : Process K.State)
      → size < fuel
      → Holds K view d h p
      → Returns Wrote (write_to K fuel path bytes size p)
  write_to-Wrote fuel p enough (at_d, at_h) =
      write_opened-Wrote fuel (K.open_write path p.kernel).0 _ enough at_h
        (subst
          (λ e.
            Opened path e (with_file path [] e) (K.open_write path p.kernel).0
              (view (K.open_write path p.kernel).1))
          at_d (posix.open_write path p.kernel))
        (λ k e. cannot_create p.kernel k at_d e)

  -- Writing ends, with more rounds than bytes as the fuel, whatever the lengths are in which the
  -- kernel takes the bytes, if each write takes some. With the result true the file has exactly the
  -- bytes given. With false, which takes a kernel that can fail to create this file on the disk as it
  -- is, or to write to it, it has its old contents or a proper prefix of the bytes. The descriptor is
  -- closed, and no other file and nothing on the heap has changed.
  pub write_bytes-Wrote :
      (fuel : ℕ) (p : Process K.State)
      → size < fuel
      → Holds K view d h p
      → Returns Wrote (write_bytes K fuel (some path) (some bytes) size p)
  unfolding write_bytes
  write_bytes-Wrote = write_to-Wrote
