-- ===== src/RawHeap/Laws.antt =====
-- About blocks of bytes: what is written is read, and a freed block leaves the heap as it was.
use kira_zig.Common.{
  ℕ, zero, suc, ◌+◌, ◌≡◌, ◌≢◌, ◌≤◌, ◌<◌, ◌⊎◌, refl, sym, ap, ◌∙◌, inl, inr, true, false, Option,
  none, some, [], ◌∷◌, ◌==◌, ltb, if◌then◌else◌, Bytes, length, arith, Bool-cases, Option-cases,
}
use kira_zig.DynamicFfi.Access.{Memory, set_byte, if_allocated}
use kira_zig.DynamicFfi.Access.Laws.{
  IsAllocated, Outside, Keeps, set_byte_self, set_byte_ne, set_byte-Keeps,
}
use kira_zig.RawHeap.{
  RawHeap, within, place, release_block, free_block, write_bytes, push, read_bytes,
}

-- No byte and no block is at these `n` addresses, and `a` is not NULL.
pub record IsFree (h : RawHeap) (a n : ℕ) : Type 0 where
  pub nonnull : a ≢ 0
  pub unallocated : (x : ℕ) → a ≤ x → x < a + n → h.memory x ≡ none
  pub unknown : h.blocks a ≡ none

within-true : (a n x : ℕ) → a ≤ x → x < a + n → within a n x ≡ true
within-true a n x le lt = ground arith

within-false : (a n x : ℕ) → (x < a ⊎ a + n ≤ x) → within a n x ≡ false
within-false a n x far = ground arith

pub place-IsAllocated :
    (junk : ℕ → ℕ) (a n : ℕ) (h : RawHeap) → IsAllocated a n (RawHeap.memory (place junk a n h))
unfolding place
place-IsAllocated junk a n h x le lt e =
    cc (ap (λ b. if b then some (junk x) else h.memory x) (within-true a n x le lt), e)

inside_of : (a n x : ℕ) → within a n x ≡ true → (a ≤ x) × (x < a + n)
inside_of a n x e = (ground arith, ground arith)

outside_of : (a n x : ℕ) → within a n x ≡ false → x < a ⊎ a + n ≤ x
outside_of a n x e = elim (Bool-cases (ltb x a)) [
  | inl before ↦ inl (ground arith)
  | inr not_before ↦ inr (ground arith)
]

-- After a free of the block the heap is as before it was placed.
pub free_block-place :
    (junk : ℕ → ℕ) (a n : ℕ) (h : RawHeap) (m : Memory)
    → IsFree h a n
    → Outside a n (RawHeap.memory (place junk a n h)) m
    → free_block a (record (place junk a n h) { memory = m }) ≡ some h
unfolding free_block place
free_block-place junk a n h m free out =
    let placed = record (place junk a n h) { memory = m } in
    let nonnull : (a == 0) ≡ false = ground (arith, free.nonnull) in
    let start : (a == a) ≡ true = ground arith in
    ap (λ b. if b then some placed else release_block a (placed.blocks a) placed) nonnull
    ∙ ap (λ b. release_block a (if b then some n else h.blocks a) placed) start
    ∙ (λ i. some (record { memory = λ x. memory_back x i; blocks = λ x. block_back x i }))
  where
    memory_back : (x : ℕ) → (if within a n x then none else m x) ≡ h.memory x
    memory_back x = elim (Bool-cases (within a n x)) [
      | inl inside ↦
          let (le, lt) = inside_of a n x inside in
          ap (λ b. if b then none else m x) inside ∙ sym (free.unallocated x le lt)
      | inr outside ↦
          ap (λ b. if b then none else m x) outside
          ∙ out x (outside_of a n x outside)
          ∙ ap (λ b. if b then some (junk x) else h.memory x) outside
    ]

    block_back :
        (x : ℕ) → (if x == a then none else if x == a then some n else h.blocks x) ≡ h.blocks x
    block_back x = elim (Bool-cases (x == a)) [
      | inl same ↦
          let e : x ≡ a = ground arith in
          ap (λ b. if b then none else if b then some n else h.blocks x) same
          ∙ sym (ap h.blocks e ∙ free.unknown)
      | inr other ↦ ap (λ b. if b then none else if b then some n else h.blocks x) other
    ]

pub write_bytes-read_bytes :
    (a : ℕ) (bs : Bytes) (m : Memory)
    → IsAllocated a (length bs) m
    → (m' : Memory) × (write_bytes a bs m ≡ some m')
      × (read_bytes (length bs) a m' ≡ some bs)
      × Outside a (length bs) m m'
      × Keeps m m'
unfolding write_bytes read_bytes
write_bytes-read_bytes a [] m al = (m, refl, refl, (λ x out. refl), (λ x there. there))
write_bytes-read_bytes a (b ∷ bs) m al = elim (Option-cases (m a)) [
  | inl e ↦ absurd (al a (omega arith) (omega arith) e)
  | inr (old, e) ↦
      let m₁ = set_byte a b m in
      let (m', written, back, out, keeps) =
        write_bytes-read_bytes (a + 1) bs m₁
          (λ x le lt. set_byte-Keeps a b m x (al x (omega arith) (omega arith))) in
      let first : m' a ≡ some b = out a (inl (omega arith)) ∙ set_byte_self a b m in
      (
        m',
        ap (λ o. if_allocated o (write_bytes (a + 1) bs m₁)) e ∙ written,
        ap (λ o. push o (read_bytes (length bs) (a + 1) m')) first ∙ ap (push (some b)) back,
        (λ x far.
            out x (elim far [ inl lt ↦ inl (omega arith) | inr le ↦ inr (omega arith) ])
            ∙ set_byte_ne a b m x
                (elim far [ inl lt ↦ (λ e. omega arith) | inr le ↦ (λ e. omega arith) ])),
        (λ x there. keeps x (set_byte-Keeps a b m x there)),
      )
]

pub length-read_bytes :
    (n a : ℕ) (bs : Bytes) (m : Memory) → read_bytes n a m ≡ some bs → length bs ≡ n
unfolding read_bytes
length-read_bytes zero a [] m e = refl
length-read_bytes zero a (b ∷ bs) m e = cc
length-read_bytes (suc n) a bs m e =
    pushed (m a) (read_bytes n (a + 1) m) (λ rest. length-read_bytes n (a + 1) rest m) bs e
  where
    pushed :
        (o : Option ℕ) (r : Option Bytes)
        → ((rest : Bytes) → r ≡ some rest → length rest ≡ n)
        → (bs : Bytes) → push o r ≡ some bs
        → length bs ≡ suc n
    pushed none r long bs e = cc
    pushed (some b) none long bs e = cc
    pushed (some b) (some rest) long [] e = cc
    pushed (some b) (some rest) long (c ∷ bs) e = ap suc (long bs (cc))
