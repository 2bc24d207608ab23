-- ===== src/FileSystem/Write.antt =====
-- The writing operations of fs.c.
pub mod Loop
pub mod Back
use kira_zig.Common.{
  ℕ, zero, suc, ◌+◌, ◌-◌, ℤ, pos, negsuc, Bool, true, false, not, Option, none, some, [], ◌∷◌, ◌==◌,
  leb, ltb, if◌then◌else◌, length, take, drop, Bytes,
}
use kira_zig.FileSystem.{System, M, pure, ◌>>=◌, ◌>>◌, invalid, no_fuel, call, u64}

module _ (K : System) where
  -- The call of `write` with the bytes from `total` on, which the array must have.
  abbrev pub write_rest : ℤ → Bytes → (size total : ℕ) → M K.State (Option ℕ)
  write_rest fd bytes size total =
      if leb size (length bytes)
      then call (K.write fd (take (size - total) (drop total bytes)))
      else invalid

  unfoldable pub write_next :
      (again : ℕ → M K.State Bool) → ℤ → (total : ℕ) → Option ℕ → M K.State Bool
  write_next again fd total none = do call (λ s. (tt, K.close fd s)); pure false
  write_next again fd total (some written) = again (u64 (total + written))

  -- The loop: `total` bytes of `size` are written. A call that writes nothing is tried again.
  unfoldable pub write_loop : (fuel : ℕ) → ℤ → Bytes → (size total : ℕ) → M K.State Bool
  unfolding write_next
  write_loop zero fd bytes size total = no_fuel
  write_loop (suc fuel) fd bytes size total =
      let again = λ (n : ℕ). write_loop fuel fd bytes size n in
      if ltb total size
      then (do write_next again fd total (← write_rest fd bytes size total))
      else (do call (λ s. (tt, K.close fd s)); pure true)

  abbrev pub write_opened : (fuel : ℕ) → Bytes → (size : ℕ) → ℤ → M K.State Bool
  write_opened fuel bytes size (negsuc _) = pure false
  write_opened fuel bytes size (pos n) = write_loop fuel (pos n) bytes size 0

  abbrev pub write_to : (fuel : ℕ) → (path bytes : Bytes) → (size : ℕ) → M K.State Bool
  write_to fuel path bytes size = do write_opened fuel bytes size (← call (K.open_write path))

  unfoldable pub write_bytes :
      (fuel : ℕ) → (path bytes : Option Bytes) → (size : ℕ) → M K.State Bool
  unfolding write_loop
  write_bytes fuel none bytes size = pure false
  write_bytes fuel (some path) none size =
      if not (size == 0) then pure false else write_to fuel path [] size
  write_bytes fuel (some path) (some bytes) size = write_to fuel path bytes size

  -- The part of `fs_write_file` after its checks.
  abbrev pub write_text : (fuel : ℕ) → (path text : Bytes) → M K.State Bool
  write_text fuel path text = write_to fuel path text (length text)

  unfoldable pub write_file : (fuel : ℕ) → (path text : Option Bytes) → M K.State Bool
  unfolding write_loop
  write_file fuel none text = pure false
  write_file fuel (some path) none = pure false
  write_file fuel (some path) (some text) = write_text fuel path text
