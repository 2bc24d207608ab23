-- ===== src/Array/Tests.antt =====
-- Arrays of runtime_helpers_arrays.inc in a small heap, and the theorems at some of them.
use mathlib.Core.Path.{subst}
use mathlib.Core.Option.{some-injective}
use kira_zig.Common.{
  get_elem?, inr, ℕ, zero, suc, ◌+◌, ◌*◌, ◌^◌, ◌<◌, ◌≤◌, ◌≡◌, ◌⊎◌, refl, pos, Bool, true, false,
  Option, none, some, List, [], ◌∷◌, arith, ltb, if◌then◌else◌, codes,
}
use kira_zig.BridgeValue.{BridgeValue, void, integer, string}
use kira_zig.Memory.{
  KiraArray, Hooks, header, cells, bytes, Heap, ok, fault, put, allocate, header_size,
}
use kira_zig.Memory.Laws.{chunk, IsAllocator}
use kira_zig.Array.{array_load, array_append}
use kira_zig.Array.Layout.{IsArray}
use kira_zig.Array.Append.{Refused, append-Extends}
use kira_zig.Array.Extends.{Extends}
use kira_zig.Array.Owned.{array_store_release, array_clone}
use kira_zig.Array.Owned.Copies.{Readable}
use kira_zig.Array.Owned.Clone.{clone-Clones}
use kira_zig.Array.Owned.Built.{Clones}
use kira_zig.Array.Owned.Faults.{IsSentinel, unbacked, store_release-fault, clone-load-fault}

-- The first free address in steps of 16.
unfoldable first_free : Heap → (steps p : ℕ) → Option ℕ
first_free h zero p = none
first_free h (suc n) p = elim (h p) [ none ↦ some p | some _ ↦ first_free h n (p + 16) ]

first_free-free : (h : Heap) (n p a : ℕ) → first_free h n p ≡ some a → h a ≡ none
unfolding first_free
first_free-free h zero p a e = cc
first_free-free h (suc n) p a e =
    (elim (h p)
        as (λ c.
          h p ≡ c
          → (elim c [ none ↦ some p | some _ ↦ first_free h n (p + 16) ]) ≡ some a
          → h a ≡ none) [
            | none ↦ λ at_p e. cc
            | some _ ↦ λ at_p e. first_free-free h n (p + 16) a e
          ])
      refl e

first_free-le : (h : Heap) (n p a : ℕ) → first_free h n p ≡ some a → p ≤ a
unfolding first_free
first_free-le h zero p a e = cc
first_free-le h (suc n) p a e =
    (elim (h p)
        as (λ c. (elim c [ none ↦ some p | some _ ↦ first_free h n (p + 16) ]) ≡ some a → p ≤ a) [
          | none ↦ λ e. same e
          | some _ ↦ λ e. omega (arith, first_free-le h n (p + 16) a e)
        ])
      e
  where
    same : {p a : ℕ} → ◌≡◌ {A = Option ℕ} (some p) (some a) → p ≤ a
    same {p} {a} e = let q : p ≡ a = cc in omega (arith, q)

abbrev small_malloc : Heap → ℕ → Option ℕ
small_malloc h n = if ltb n (2 ^ 63) then first_free h 8 4096 else none

abbrev native : Hooks
native = record { malloc = small_malloc; array_alloc = none }

if_some :
    (b : Bool) (o : Option ℕ) {a : ℕ} → (if b then o else none) ≡ some a → (b ≡ true) × (o ≡ some a)
if_some true o e = (refl, e)
if_some false o e = cc

native-IsAllocator : IsAllocator native
native-IsAllocator = record {
  fresh =
      λ h n a e. first_free-free h 8 4096 a (if_some (ltb n (2 ^ 63)) (first_free h 8 4096) e).1;
  real = λ h n a e. first_free-le h 8 4096 a (if_some (ltb n (2 ^ 63)) (first_free h 8 4096) e).1;
  possible = λ h n a e.
      let small = (if_some (ltb n (2 ^ 63)) (first_free h 8 4096) e).0 in ground (arith, small);
}

abbrev empty : Heap
empty _ = none

abbrev fields : KiraArray
fields = record { len = 2; items = 4112; cap = 2 }

-- A number and a string.
abbrev values : List BridgeValue
values = integer (pos 5) ∷ string 4128 2 ∷ []

abbrev two_values : Heap
two_values =
    put 4096 (chunk 24 (header fields))
      (put 4112 (chunk 48 (cells values)) (put 4128 (chunk 2 (bytes (codes "ab"))) empty))

two_values-IsArray : IsArray two_values 4096 values
unfolding put
two_values-IsArray = record {
  r = fields;
  vs = values;
  at_header = refl;
  at_items = refl;
  full = refl;
  fits = omega arith;
  live = refl;
  real = omega arith;
  real_items = omega arith;
  bounded = omega arith;
}

-- The array is full, so the append moves it.
append-Extends_example :
    (h' : Heap) × (array_append native 4096 void two_values ≡ ok tt h')
    × (Extends two_values-IsArray (integer (pos 5) ∷ string 4128 2 ∷ void ∷ []) h'
        ⊎ Refused native native-IsAllocator two_values-IsArray void h')
append-Extends_example = append-Extends native native-IsAllocator two_values-IsArray void

three_words : 3 * 24 < 2 ^ 64
three_words = omega arith

values-Readable : (k : ℕ) (x : BridgeValue) → get_elem? values k ≡ some x → Readable two_values x
unfolding put
values-Readable zero x e = subst (Readable two_values) (some-injective _ _ e) tt
values-Readable (suc zero) x e =
    subst (Readable two_values) (some-injective _ _ e)
      (inr (omega arith, 2, codes "ab", refl, omega arith))
values-Readable (suc (suc k)) x e = cc

clone-Clones_example :
    (b : ℕ) × (h' : Heap) × (array_clone native none 4096 two_values ≡ ok b h')
    × Clones native two_values values b h'
clone-Clones_example =
    clone-Clones native native-IsAllocator refl two_values-IsArray (omega arith) values-Readable

-- The buffer pointer is 8.
abbrev stale : KiraArray
stale = record { len = 2; items = 8; cap = 2 }

abbrev sentinel : Heap
sentinel = put 4096 (chunk 24 (header stale)) empty

sentinel-IsSentinel : IsSentinel sentinel 4096 stale
unfolding put
sentinel-IsSentinel = record { at_header = refl; real = omega arith; sentinel = refl; null = refl }

store_release-fault_example : array_store_release native none 4096 (pos 1) void sentinel ≡ fault
store_release-fault_example =
    store_release-fault sentinel-IsSentinel native none 1 void (omega arith)

next_free : allocate native sentinel header_size ≡ some 4112
unfolding first_free put
next_free = refl

clone-load-fault_example :
    (h' : Heap) × (array_clone native none 4096 sentinel ≡ ok 4112 h')
    × (h' 4112 ≡ chunk header_size (header (unbacked stale)))
    × ((i : ℕ) → i < 2 → array_load 4112 (pos i) h' ≡ fault)
clone-load-fault_example =
    clone-load-fault native native-IsAllocator none sentinel 4096 4112 refl sentinel-IsSentinel.real
      sentinel-IsSentinel.null sentinel-IsSentinel.at_header refl next_free
