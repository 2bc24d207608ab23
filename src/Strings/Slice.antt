-- ===== src/Strings/Slice.antt =====
-- `kira_string_char_at` and `kira_string_substring`: the traps, and the bytes of a slice.
use kira_zig.Common.{
  ℕ, zero, suc, ◌+◌, ◌-◌, ◌≤◌, ◌<◌, ◌≡◌, ◌≢◌, ◌⊎◌, inl, inr, refl, ap, ◌∙◌, pos, true, false, ◌||◌,
  some, List, [], ◌∷◌, ◌==◌, ltb, arith, length, length-take, length-drop, get_elem?,
  get_elem?-some, take, drop, Bytes,
}
use kira_zig.Memory.{Hooks, Heap, ok, trap, bytes}
use kira_zig.Memory.Laws.{chunk}
use kira_zig.Strings.{or_past_end, BridgeString, read_byte, char_at, string_out, substring}
use kira_zig.Strings.Find.{string_bytes-step}
use kira_zig.Strings.Decimal.{Holds, Refused, string_out-Holds}

module _ {ℓ} {A : Type ℓ} where
  get_elem?-drop : (s : ℕ) (xs : List A) (k : ℕ) → get_elem? (drop s xs) k ≡ get_elem? xs (s + k)
  get_elem?-drop zero xs k = ap (get_elem? xs) plus_0
    where
      plus_0 : k ≡ 0 + k
      plus_0 = omega arith
  get_elem?-drop (suc s) [] k = refl
  get_elem?-drop (suc s) (x ∷ xs) k = get_elem?-drop s xs k ∙ ap (get_elem? (x ∷ xs)) next
    where
      next : suc (s + k) ≡ suc s + k
      next = omega arith

  get_elem?-prefix :
      (n : ℕ) (xs : List A) (k : ℕ) → k < n → get_elem? (take n xs) k ≡ get_elem? xs k
  get_elem?-prefix zero xs k lt = elim lt [ ]
  get_elem?-prefix (suc n) [] k lt = refl
  get_elem?-prefix (suc n) (x ∷ xs) zero lt = refl
  get_elem?-prefix (suc n) (x ∷ xs) (suc k) lt = get_elem?-prefix n xs k (omega arith)

char_at-step :
    (h : Heap) (ptr len i : ℕ) {n b : ℕ} {bs : Bytes}
    → ptr ≢ 0
    → i < len
    → h ptr ≡ chunk n (bytes bs)
    → get_elem? bs i ≡ some b
    → char_at ptr len (pos i) h ≡ ok b h
unfolding char_at read_byte
char_at-step h ptr len i real lt found at_i =
    let there : (ptr == 0) ≡ false = ground arith in
    let inside : ltb i len ≡ true = ground arith in
    rw (there, inside, found) (ap (λ o. or_past_end o h) at_i)

-- What lies between the bounds of a slice, byte by byte.
abbrev pub Slices : (ptr len start count : ℕ) → Heap → BridgeString → Heap → Type 0
Slices ptr len start count h r h' =
    (k : ℕ)
    → k < count
    → (b : ℕ) × (char_at r.ptr r.len (pos k) h' ≡ ok b h')
      × (char_at ptr len (pos (start + k)) h ≡ ok b h)

module _ (hooks : Hooks) (h : Heap) (ptr len n : ℕ) (bs : Bytes) (real : ptr ≢ 0)
    (found : h ptr ≡ chunk n (bytes bs)) (all : len ≤ length bs) (start end' : ℕ)
    (ordered : start ≤ end') (inside : end' ≤ len) where
  slice : Bytes
  slice = take (end' - start) (drop start bs)

  length-slice : length slice ≡ end' - start
  unfolding slice
  length-slice = length-take (end' - start) (drop start bs) ∙ ground (arith, length-drop start bs)

  substring-step : substring hooks ptr len (pos start) (pos end') h ≡ string_out hooks slice h
  unfolding substring slice
  substring-step =
      let tested : (ltb len end' || ltb end' start) ≡ false = ground arith in
      rw (tested, string_bytes-step h ptr start (end' - start) bs found (omega arith)) refl

  sliced :
      (r : BridgeString) (h' : Heap)
      → Holds h slice r h'
      → Slices ptr len start (end' - start) h r h'
  unfolding slice
  sliced r h' (there, at_r, long, kept) k lt =
      let (b, at_k) = get_elem?-some bs (start + k) (omega arith) in
      let in_slice =
        get_elem?-prefix (end' - start) (drop start bs) k lt ∙ get_elem?-drop start bs k ∙ at_k in
      (
        b,
        char_at-step h' r.ptr r.len k there (omega (arith, long, length-slice)) at_r in_slice,
        char_at-step h ptr len (start + k) real (omega arith) found at_k,
      )

  -- A substring within the bounds traps only where `malloc` gives NULL; otherwise it is a new string
  -- of `end - start` bytes, and `charAt` of it at any index below that is `charAt` of the source at
  -- `start` more. The source is not NULL and its length is within its buffer.
  pub substring-char_at :
      ((substring hooks ptr len (pos start) (pos end') h ≡ trap)
        × Refused hooks h (take (end' - start) (drop start bs)))
      ⊎ ((r : BridgeString) × (h' : Heap) × (substring hooks ptr len (pos start) (pos end') h
            ≡ ok r h')
          × (r.len ≡ end' - start)
          × Slices ptr len start (end' - start) h r h')
  unfolding slice
  substring-char_at = elim (string_out-Holds hooks h slice) [
    | inl (no_memory, refused) ↦ inl (substring-step ∙ no_memory, refused)
    | inr (r, h', ran, holds) ↦
        inr (r, h', substring-step ∙ ran, holds.2 ∙ length-slice, sliced r h' holds)
  ]
