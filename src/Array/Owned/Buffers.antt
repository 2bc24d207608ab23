-- ===== src/Array/Owned/Buffers.antt =====
-- What the elements of an array own: the byte strings that `kira_array_release` of
-- runtime_helpers_arrays.inc frees.
use kira_zig.Common.{
  ℕ, ◌≡◌, ◌≢◌, refl, sym, ap, ◌∙◌, true, false, none, List, [], ◌∷◌, ◌==◌, if◌then◌else◌, arith,
  All, Bytes, ◌++◌,
}
use kira_zig.BridgeValue.{BridgeValue, void, integer, float, string, boolean, raw_ptr}
use kira_zig.Memory.{Body, bytes, Heap, ok, put, free}
use kira_zig.Memory.Laws.{chunk, put_ne, free-step}
use kira_zig.Array.Owned.{release_value}

-- The string buffers of some elements.
abbrev pub buffer : BridgeValue → List ℕ
buffer (string ptr len) = if ptr == 0 then [] else ptr ∷ []
buffer _ = []

unfoldable pub buffers : List BridgeValue → List ℕ
buffers [] = []
buffers (x ∷ xs) = buffer x ++ buffers xs

-- The addresses hold byte strings, and none stands twice.
unfoldable pub Owns : Heap → List ℕ → Type 0
Owns h [] = Unit
Owns h (q ∷ qs) =
    ((n : ℕ) × (bs : Bytes) × (h q ≡ chunk n (bytes bs))) × All (λ k. k ≢ q) qs × Owns h qs

-- The heap without some allocations.
unfoldable pub freed : List ℕ → Heap → Heap
freed [] h = h
freed (q ∷ qs) h = freed qs (put q none h)

Owns-freed :
    (h : Heap) (q : ℕ) (qs : List ℕ) → All (λ k. k ≢ q) qs → Owns h qs → Owns (put q none h) qs
unfolding Owns
Owns-freed h q [] apart o = tt
Owns-freed h q (k ∷ qs) (ne, apart) ((n, bs, found), lacks, o) =
    ((n, bs, put_ne q none h ne ∙ found), lacks, Owns-freed h q qs apart o)

freed-string :
    (h : Heap) (ptr : ℕ) (qs : List ℕ)
    → ptr ≢ 0
    → Owns h (ptr ∷ qs)
    → (free ptr h ≡ ok tt (put ptr none h)) × Owns (put ptr none h) qs
unfolding Owns
freed-string h ptr qs real ((n, bs, found), lacks, o) =
    (free-step h ptr n real found, Owns-freed h ptr qs lacks o)

-- A free of an element, where no destructor is called.
pub release_value-step :
    (h : Heap) (x : BridgeValue) (qs : List ℕ)
    → Owns h (buffer x ++ qs)
    → (release_value none x h ≡ ok tt (freed (buffer x) h)) × Owns (freed (buffer x) h) qs
unfolding freed
release_value-step h void qs o = (refl, o)
release_value-step h (integer _) qs o = (refl, o)
release_value-step h (float _) qs o = (refl, o)
release_value-step h (boolean _) qs o = (refl, o)
release_value-step h (raw_ptr _) qs o = (refl, o)
release_value-step h (string ptr len) qs o =
    (elim (ptr == 0)
        as (λ b.
          (ptr == 0) ≡ b
          → Owns h ((if b then [] else ptr ∷ []) ++ qs)
          → (free ptr h ≡ ok tt (freed (if b then [] else ptr ∷ []) h))
            × Owns (freed (if b then [] else ptr ∷ []) h) qs) [
              | true ↦ λ e o. (unfold free in rw e refl, o)
              | false ↦ λ e o. freed-string h ptr qs (ground arith) o
            ])
      refl o

same_body : {n m : ℕ} {b c : Body} → chunk n b ≡ chunk m c → b ≡ c
same_body e = cc

-- What is not a string stays.
pub freed-kept :
    (h : Heap) (x : ℕ) {n : ℕ} {b : Body} (qs : List ℕ)
    → Owns h qs
    → h x ≡ chunk n b
    → ((bs : Bytes) → b ≢ bytes bs)
    → freed qs h x ≡ chunk n b
unfolding freed Owns
freed-kept h x [] o found other = found
freed-kept h x {n} {b} (q ∷ qs) ((m, bs, at_q), lacks, o) found other =
    freed-kept (put q none h) x qs (Owns-freed h q qs lacks o) (put_ne q none h x≢q ∙ found) other
  where
    x≢q : x ≢ q
    x≢q e = other bs (same_body (sym found ∙ ap h e ∙ at_q))

pub freed-append : (qs rs : List ℕ) (h : Heap) → freed (qs ++ rs) h ≡ freed rs (freed qs h)
unfolding freed
freed-append [] rs h = refl
freed-append (q ∷ qs) rs h = freed-append qs rs (put q none h)

pub Owns-prefix : (h : Heap) (qs rs : List ℕ) → Owns h (qs ++ rs) → Owns h qs
unfolding Owns
Owns-prefix h [] rs o = tt
Owns-prefix h (q ∷ qs) rs (found, lacks, o) =
    (found, All-prefix q qs rs lacks, Owns-prefix h qs rs o)
  where
    All-prefix : (q : ℕ) (qs rs : List ℕ) → All (λ k. k ≢ q) (qs ++ rs) → All (λ k. k ≢ q) qs
    All-prefix q [] rs a = tt
    All-prefix q (k ∷ qs) rs (ne, a) = (ne, All-prefix q qs rs a)
