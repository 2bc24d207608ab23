-- ===== src/FileSystem/Read/Loop.antt =====
-- About the loop of `fs_read_all_from_handle`.
use mathlib.Core.Path.{subst}
use kira_zig.Common.{
  ℕ, zero, suc, ◌+◌, ◌-◌, ◌^◌, ◌≤◌, ◌<◌, ◌≡◌, inl, inr, refl, sym, ap, ◌∙◌, pos, Option, none, some,
  [], ◌∷◌, ◌++◌, ltb, arith, length, length-append, length-take, length-drop, take, drop, take_past,
  take_short, drop_past, drop-drop, take_add, append_assoc, Bytes, Bool-cases,
}
use kira_zig.FileSystem.{buffer, Heap, put, System, Process, M, u64}
use kira_zig.FileSystem.Store.{splice}
use kira_zig.FileSystem.Disk.{Disk, ReadAt, ReadFailure, cannot_read, IsPosix, with_fd}
use kira_zig.FileSystem.Rules.{Returns, Returns-bind, Holds, free-Holds, store_bytes-Holds}
use kira_zig.FileSystem.Read.{read_next, read_loop}

pub splice-append :
    (xs new pad : Bytes) (from : ℕ)
    → length xs ≡ from
    → splice (xs ++ pad) from new ≡ (xs ++ new) ++ drop (length new) pad
splice-append xs new pad from e =
    ap (λ t. t ++ (new ++ drop (from + length new) (xs ++ pad))) (take_past from xs pad e)
    ∙ ap (λ t. xs ++ (new ++ t))
        (drop-drop from (length new) (xs ++ pad) ∙ ap (drop (length new)) (drop_past from xs pad e))
    ∙ sym (append_assoc xs new (drop (length new) pad))

-- The next bytes of a file, after those from `start` on that were read already.
pub take-next :
    (bytes new : Bytes) (start total : ℕ)
    → new ≡ take (length new) (drop (start + total) bytes)
    → take total (drop start bytes) ++ new ≡ take (total + length new) (drop start bytes)
take-next bytes new start total e =
    ap (λ t. take total (drop start bytes) ++ t)
      (e ∙ ap (take (length new)) (drop-drop start total bytes))
    ∙ sym (take_add total (length new) (drop start bytes))

pub length-next :
    (bytes new : Bytes) (start total : ℕ)
    → total ≤ length (drop start bytes)
    → new ≡ take (length new) (drop (start + total) bytes)
    → total + length new ≤ length (drop start bytes)
length-next bytes new start total le e =
    let shown : length new ≡ length (take (length new) (drop (start + total) bytes)) =
      ap length e in
    omega (
      arith,
      shown,
      length-take (length new) (drop (start + total) bytes),
      length-drop (start + total) bytes,
      length-drop start bytes,
    )

-- At the end of the file, what was read is all that there is.
pub take_end :
    (bytes : Bytes) (start total size : ℕ)
    → total ≤ size
    → total ≤ length (drop start bytes)
    → length bytes ≤ start + total
    → take total (drop start bytes) ≡ take size (drop start bytes)
take_end bytes start total size small le at_end =
    let short : length (drop start bytes) ≤ total = omega (arith, length-drop start bytes) in
    take_short total (drop start bytes) short
    ∙ sym (take_short size (drop start bytes) (omega arith))

pub length-take_le : (bytes : Bytes) (n : ℕ) → n ≤ length bytes → length (take n bytes) ≡ n
length-take_le bytes n le = omega (arith, length-take n bytes)

pub u64-le : (n size : ℕ) → n ≤ size → size < 2 ^ 63 → n ≡ u64 n
u64-le n size le small = omega arith

module _ (K : System) (view : K.State → Disk) (posix : IsPosix K view) (n : ℕ) (path : Bytes)
    (start : ℕ) (d : Disk) (a size : ℕ) (h : Heap) (fresh : h a ≡ none)
    (small : size < 2 ^ 63) where
  abbrev pub rest : Bytes
  rest = drop start (d.file path)

  -- `total` bytes are read.
  abbrev pub LoadedTo : ℕ → Process K.State → Type 0
  LoadedTo total p =
      (total ≤ length rest)
      × (pad : Bytes) × (length pad ≡ suc size - total)
      × Holds K view (with_fd n path (start + total) d)
          (put a (some (buffer (take total rest ++ pad))) h) p

  -- The loop has ended: with the bytes of the file up to `size`, or with a failed read.
  abbrev pub Loaded : Option ℕ → Process K.State → Type 0
  Loaded none p = ReadFailure K view path d × (k : ℕ) × Holds K view (with_fd n path k d) h p
  Loaded (some total) p =
      (total ≡ length (take size rest))
      × (pad : Bytes) × (length pad ≡ suc size - total)
      × Holds K view (with_fd n path (start + total) d)
          (put a (some (buffer (take size rest ++ pad))) h) p

  take-Loaded :
      (total : ℕ) (p : Process K.State)
      → LoadedTo total p
      → take total rest ≡ take size rest
      → Loaded (some total) p
  take-Loaded total p (le, pad, long, holds) e = (
    sym (length-take_le rest total le) ∙ ap length e,
    pad,
    long,
    (holds.0, holds.1 ∙ ap (λ t. put a (some (buffer (t ++ pad))) h) e),
  )

  read_next-Loaded :
      (again : ℕ → M K.State (Option ℕ)) (total : ℕ) (pad : Bytes) (r : Option Bytes)
      (p : Process K.State)
      → total < size
      → total ≤ length rest
      → length pad ≡ suc size - total
      → p.heap ≡ put a (some (buffer (take total rest ++ pad))) h
      → ReadAt
          (d.file path)
          (start + total)
          (size - total)
          (λ k. with_fd n path (start + total + k) d)
          r
          (view p.kernel)
      → (r ≡ none → ReadFailure K view path d)
      → ((m : ℕ) (q : Process K.State)
          → total < m
          → m ≤ size
          → LoadedTo m q
          → Returns Loaded (again m q))
      → Returns Loaded (read_next K again a total r p)
  unfolding read_next
  read_next-Loaded again total pad none p lt le long at_h (k, at_d) why next =
      Returns-bind (λ _. Holds K view (with_fd n path (start + total + k) d) h) Loaded _ _
        (free-Holds K view h a _ p fresh (at_d, at_h))
        (λ _ q holds. (why refl, start + total + k, holds))
  read_next-Loaded again total pad (some []) p lt le long at_h (fits, e, at_end, at_d) why next =
      let same : start + total + 0 ≡ start + total = omega arith in
      take-Loaded total p (le, pad, long, (at_d ∙ ap (λ k. with_fd n path k d) same, at_h))
        (take_end (d.file path) start total size (omega arith) le (at_end refl (omega arith)))
  read_next-Loaded again total pad (some (b ∷ bs)) p lt le long at_h (fits, e, at_end, at_d) why
        next =
      let new : Bytes = b ∷ bs in
      let old : Bytes = take total rest ++ pad in
      let m = total + length new in
      let d' = with_fd n path (start + total + length new) d in
      let front = length-take_le rest total le in
      let inside : m ≤ length old = omega (arith, length-append (take total rest) pad, front) in
      let after : splice old total new ≡ take m rest ++ drop (length new) pad =
        splice-append (take total rest) new pad total front
        ∙ ap (λ t. t ++ drop (length new) pad) (take-next (d.file path) new start total e) in
      let left : length (drop (length new) pad) ≡ suc size - m =
        omega (arith, length-drop (length new) pad) in
      let assoc : start + total + length new ≡ start + m = omega arith in
      Returns-bind (λ _. Holds K view d' (put a (some (buffer (splice old total new))) h)) Loaded _
        _ (store_bytes-Holds K view h a total new old p inside (at_d, at_h))
        (λ _ q holds.
          subst (λ k. Returns Loaded (again k q)) (u64-le m size (omega arith) small)
            (next m q (omega arith) (omega arith) (
              length-next (d.file path) new start total le e,
              drop (length new) pad,
              left,
              (
                holds.0 ∙ ap (λ k. with_fd n path k d) assoc,
                holds.1 ∙ ap (λ t. put a (some (buffer t)) h) after,
              ),
            )))

  -- A round for each byte that is asked for is enough.
  pub read_loop-Loaded :
      (fuel total : ℕ) (p : Process K.State)
      → size - total < fuel
      → total ≤ size
      → LoadedTo total p
      → Returns Loaded (read_loop K fuel (pos n) a size total p)
  unfolding read_loop
  read_loop-Loaded zero total p enough le loaded = absurd (omega arith)
  read_loop-Loaded (suc fuel) total p enough le loaded = elim (Bool-cases (ltb total size)) [
    | inl more ↦
        let (below, pad, long, (at_d, at_h)) = loaded in
        rw more (
          read_next-Loaded (read_loop K fuel (pos n) a size) total pad _ _ (ground arith) below long
            at_h (posix.read n (size - total) path (start + total) d p.kernel at_d)
            (λ e. cannot_read n (start + total) (size - total) p.kernel at_d e)
            (λ m q lt le. read_loop-Loaded fuel m q (ground arith) le))
    | inr full ↦
        let e : total ≡ size = ground arith in
        rw full (take-Loaded total p loaded (ap (λ k. take k rest) e))
  ]
