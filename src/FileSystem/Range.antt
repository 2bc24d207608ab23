-- ===== src/FileSystem/Range.antt =====
-- `fs_read_range` of fs.c.
pub mod Part
use kira_zig.Common.{
  ℕ, zero, suc, ◌+◌, ◌-◌, ℤ, pos, negsuc, Option, none, some, [], ◌∷◌, ◌==◌, ltb, if◌then◌else◌,
  length, Bytes,
}
use kira_zig.FileSystem.{System, M, pure, ◌>>=◌, ◌>>◌, no_fuel, call, u64, off_t}
use kira_zig.FileSystem.Store.{store_bytes}

module _ (K : System) where
  unfoldable pub range_next :
      (again : ℕ → M K.State (Option ℕ)) → (a total : ℕ) → Option Bytes → M K.State (Option ℕ)
  unfolding store_bytes
  range_next again a total none = pure none
  range_next again a total (some []) = pure (some total)
  range_next again a total (some (b ∷ bs)) = do
    store_bytes a total (b ∷ bs)
    again (u64 (total + length (b ∷ bs)))

  -- The loop: `total` bytes of `size` are in the buffer at `a`. The result is `none` if a read failed.
  unfoldable pub range_loop : (fuel : ℕ) → ℤ → (a size offset total : ℕ) → M K.State (Option ℕ)
  unfolding range_next
  range_loop zero fd a size offset total = no_fuel
  range_loop (suc fuel) fd a size offset total =
      let again = λ (n : ℕ). range_loop fuel fd a size offset n in
      if ltb total size
      then (do
        range_next again a total
            (← call (K.pread fd (size - total) (off_t (u64 (offset + total))))))
      else pure (some total)

  abbrev pub range_result : ℤ → Option ℕ → M K.State ℕ
  range_result fd none = do call (λ s. (tt, K.close fd s)); pure 0
  range_result fd (some total) = do call (λ s. (tt, K.close fd s)); pure total

  abbrev pub range_opened : (offset size a : ℕ) → ℤ → M K.State ℕ
  range_opened offset size a (negsuc _) = pure 0
  range_opened offset size a (pos n) = do
    range_result (pos n) (← range_loop (suc size) (pos n) a size offset 0)

  unfoldable pub read_range : Option Bytes → (offset size : ℕ) → (out : Option ℕ) → M K.State ℕ
  unfolding range_loop
  read_range none offset size out = pure 0
  read_range (some path) offset size none = pure 0
  read_range (some path) offset size (some a) =
      if size == 0 then pure 0 else (do range_opened offset size a (← call (K.open_read path)))
