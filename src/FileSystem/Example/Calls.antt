-- ===== src/FileSystem/Example/Calls.antt =====
-- What the calls of the small kernel of the tests see of its files.
use mathlib.Core.Option.{some-injective}
use mathlib.Core.Path.{subst}
use kira_zig.Common.{
  ℕ, zero, suc, ◌^◌, ◌≤◌, ◌<◌, ◌≡◌, inl, inr, refl, sym, ap, ◌∙◌, min, ℤ, pos, negsuc, Option, none,
  some, [], ◌∷◌, ltb, ltb→lt, arith, length, length-take, length-drop, take, drop, Bytes, pos_part,
  Bool-cases,
}
use kira_zig.FileSystem.{regular, Stat}
use kira_zig.FileSystem.Disk.{Descriptor, Disk, Opened, with_file, with_fd}
use kira_zig.FileSystem.Cells.{put_self, put-put}
use kira_zig.FileSystem.Example.{Machine, on_disk, open_on, chunk_at, status}

-- Where the machine has the descriptor, a call sees it.
pub seen :
    (P : Option Descriptor → Machine → Type 0) (n : ℕ) (path : Bytes) (offset : ℕ) (d : Disk)
    (m : Machine)
    → m.disk ≡ with_fd n path offset d
    → P (some (record { path = path; offset = offset })) (on_disk m (with_fd n path offset d))
    → P (m.disk.table n) m
unfolding with_fd
seen P n path offset d m e base =
    subst (λ (x : Disk). P (x.table n) (on_disk m x)) (sym e)
      (subst (λ o. P o (on_disk m (with_fd n path offset d))) (sym (put_self n _ d.table)) base)

pub with_fd-with_fd :
    (n : ℕ) (path : Bytes) (k k' : ℕ) (d : Disk)
    → with_fd n path k (with_fd n path k' d) ≡ with_fd n path k d
unfolding with_fd
with_fd-with_fd n path k k' d = ap (λ t. record d { table = t }) (put-put n _ _ d.table)

pub with_fd-file :
    (n : ℕ) (path bs : Bytes) (k k' : ℕ) (d : Disk)
    → with_fd n path k (with_file path bs (with_fd n path k' d))
      ≡ with_fd n path k (with_file path bs d)
unfolding with_fd with_file
with_fd-file n path bs k k' d =
    ap (λ t. record (with_file path bs d) { table = t }) (put-put n _ _ d.table)

pub open_on-Opened :
    (path : Bytes) (d : Disk) (m : Machine)
    → Opened path m.disk d (open_on path d m).0 (Machine.disk (open_on path d m).1)
unfolding open_on
open_on-Opened path d m = split (m.disk.table 3) refl
  where
    split :
        (o : Option Descriptor)
        → m.disk.table 3 ≡ o
        → let r : ℤ × Machine = elim o [
          | none ↦ (pos 3, on_disk m (with_fd 3 path 0 d))
          | some _ ↦ (negsuc 0, m)
        ] in
          Opened path m.disk d r.0 (Machine.disk r.1)
    split none e = (e, refl)
    split (some x) e = refl

pub chunk_end :
    (bytes : Bytes) (from count : ℕ)
    → chunk_at bytes from count ≡ []
    → 0 < count
    → length bytes ≤ from
chunk_end bytes from count e some_bytes =
    omega (arith, ap length e, length-take (min 2 count) (drop from bytes), length-drop from bytes)

pub chunk_fits : (bytes : Bytes) (from count : ℕ) → length (chunk_at bytes from count) ≤ count
chunk_fits bytes from count = omega (arith, length-take (min 2 count) (drop from bytes))

-- A chunk is as long a part as its length says.
pub take-length : (n : ℕ) (bytes : Bytes) → take n bytes ≡ take (length (take n bytes)) bytes
take-length zero bytes = refl
take-length (suc n) [] = refl
take-length (suc n) (b ∷ bytes) = ap (λ t. b ∷ t) (take-length n bytes)

pub status-size :
    (o : Option Descriptor) (d : Disk) (info : Stat) (size : ℕ)
    → status o d ≡ some info
    → info.size ≡ pos size
    → size < 2 ^ 63
status-size none d info size e e' = cc
status-size (some x) d info size e e' = elim (Bool-cases (ltb (length (d.file x.path)) (2 ^ 63))) [
  | inl below ↦
      let had : some (record { mode = regular; size = pos (length (d.file x.path)) }) ≡ some info =
        cc in
      let same = ap pos_part (ap (λ (i : Stat). i.size) (some-injective _ _ had) ∙ e') in
      ltb→lt _ _ (ap (λ k. ltb k (2 ^ 63)) (sym same) ∙ below)
  | inr above ↦ cc
]

pub status-file :
    (x : Descriptor) (d : Disk) (info : Stat)
    → status (some x) d ≡ some info
    → (info.size ≡ pos (length (d.file x.path))) × (info.mode ≡ regular)
status-file x d info e = elim (Bool-cases (ltb (length (d.file x.path)) (2 ^ 63))) [
  | inl below ↦
      let had : some (record { mode = regular; size = pos (length (d.file x.path)) }) ≡ some info =
        cc in
      let same = some-injective _ _ had in
      (sym (ap (λ (i : Stat). i.size) same), sym (ap (λ (i : Stat). i.mode) same))
  | inr above ↦ cc
]
