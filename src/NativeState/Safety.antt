-- ===== src/NativeState/Safety.antt =====
-- About the registry of runtime_helpers_native_state.inc and the tokens that it holds.
use mathlib.Core.Path.{subst}
use kira_zig.Common.{
  ℕ, ◌≡◌, ◌≢◌, refl, sym, ap, ◌∙◌, Option, none, some, List, [], ◌∷◌, ◌==◌, arith, get_elem?,
  get_elem?-set_self, get_elem?-set_ne, get_elem?-lt, set, All, Lacks, Distinct, Bool-cases, inl,
  inr,
}
use kira_zig.NativeState.{
  Token, World, ok, M, and_then, load, live_or_fault, remove_node, registry_remove,
  release_interior, dispose, state_free, dispose_all, registry_teardown,
}

abbrev pub Live : World → ℕ → Type 0
Live w h = (t : Token) × (get_elem? w.tokens h ≡ some (some t))

abbrev pub Freed : World → ℕ → Type 0
Freed w h = get_elem? w.tokens h ≡ some none

-- Every registered token is live, and none is registered twice.
pub record IsValid (w : World) : Type 0 where
  pub live : All (Live w) w.registry
  pub distinct : Distinct w.registry

-- The release hook works on the values in a payload, never on the tokens or their registry.
abbrev pub IsQuiet : Option (ℕ → M (Unit {0})) → Type 0
IsQuiet none = Unit
IsQuiet (some f) = (h : ℕ) (w : World) → f h w ≡ ok tt w

abbrev freed : ℕ → World → World
freed h w = record w { tokens = set w.tokens h none }

-- The other tokens stay.
Live-freed : (w : World) (h k : ℕ) → k ≢ h → Live w k → Live (freed h w) k
Live-freed w h k ne (t, found) = (t, get_elem?-set_ne w.tokens none (λ e. ne (sym e)) ∙ found)

Freed-freed : (w : World) (h : ℕ) → Live w h → Freed (freed h w) h
Freed-freed w h (t, found) = get_elem?-set_self w.tokens h none (get_elem?-lt w.tokens h found)

All-Live-freed :
    (w : World) (h : ℕ) (q : List ℕ) → Lacks h q → All (Live w) q → All (Live (freed h w)) q
All-Live-freed w h [] lacks live = tt
All-Live-freed w h (k ∷ q) (ne, lacks) (l, live) =
    (Live-freed w h k ne l, All-Live-freed w h q lacks live)

Lacks-remove_node : (h k : ℕ) (q : List ℕ) → Lacks h q → Lacks h (remove_node k q)
unfolding remove_node
Lacks-remove_node h k [] lacks = tt
Lacks-remove_node h k (x ∷ q) (ne, lacks) = elim (Bool-cases (x == k)) [
  | inl same ↦ rw same lacks
  | inr other ↦ rw other (ne, Lacks-remove_node h k q lacks)
]

-- A removed node is gone, and the others stay.
remove_node-Lacks :
    (h : ℕ) (q : List ℕ) → Distinct q → Lacks h (remove_node h q) × Distinct (remove_node h q)
unfolding remove_node
remove_node-Lacks h [] d = (tt, tt)
remove_node-Lacks h (x ∷ q) (lacks, d) = elim (Bool-cases (x == h)) [
  | inl same ↦ let e : x ≡ h = ground arith in rw same (subst (λ y. Lacks y q) e lacks, d)
  | inr other ↦
      let (gone, d') = remove_node-Lacks h q d in
      rw other ((ground arith, gone), (Lacks-remove_node x h q lacks, d'))
]

All-remove_node : (P : ℕ → Type 0) (h : ℕ) (q : List ℕ) → All P q → All P (remove_node h q)
unfolding remove_node
All-remove_node P h [] all = tt
All-remove_node P h (x ∷ q) (p, all) = elim (Bool-cases (x == h)) [
  | inl same ↦ rw same all
  | inr other ↦ rw other (p, All-remove_node P h q all)
]

module _ (interior : Option (ℕ → M (Unit {0}))) (quiet : IsQuiet interior) where
  released : (h : ℕ) (w : World) → release_interior interior h w ≡ ok tt w
  released h w = go interior quiet h w
    where
      go :
          (o : Option (ℕ → M (Unit {0})))
          → IsQuiet o
          → (h : ℕ) (w : World) → release_interior o h w ≡ ok tt w
      go none q h w = refl
      go (some f) q h w = q h w

  dispose-step : (h : ℕ) (w : World) → Live w h → dispose interior h w ≡ ok tt (freed h w)
  unfolding dispose
  dispose-step h w (t, found) =
      ap (λ o. and_then o λ _. λ w. and_then (load h w) λ t w. ok tt (freed h w)) (released h w)
      ∙ ap (λ o. and_then (live_or_fault o w) λ t w. ok tt (freed h w)) found

  -- What a disposal of some tokens does.
  abbrev pub Disposes : World → List ℕ → World → Type 0
  Disposes w q w' =
      (w'.registry ≡ w.registry)
      × All (Freed w') q
      × ((k : ℕ) → Lacks k q → get_elem? w'.tokens k ≡ get_elem? w.tokens k)

  dispose_all-Disposes :
      (q : List ℕ) (w : World)
      → All (Live w) q
      → Distinct q
      → (w' : World) × (dispose_all interior q w ≡ ok tt w') × Disposes w q w'
  unfolding dispose_all
  dispose_all-Disposes [] w live d = (w, refl, (refl, tt, λ k lacks. refl))
  dispose_all-Disposes (h ∷ q) w (l, live) (lacks, d) =
      let (w', ran, (same, gone, others)) =
        dispose_all-Disposes q (freed h w) (All-Live-freed w h q lacks live) d in
      (
        w',
        rw (dispose-step h w l) ran,
        (
          same,
          (others h lacks ∙ Freed-freed w h l, gone),
          λ k apart. others k apart.1 ∙ get_elem?-set_ne w.tokens none apart.0,
        ),
      )

  -- The teardown of a valid registry never faults: it empties the registry, frees every token in it,
  -- and leaves the other tokens as they are.
  pub teardown-Disposes :
      (w : World)
      → IsValid w
      → (w' : World) × (registry_teardown interior w ≡ ok tt w')
        × Disposes (record w { registry = [] }) w.registry w'
  unfolding registry_teardown
  teardown-Disposes w v =
      dispose_all-Disposes w.registry (record w { registry = [] }) v.live v.distinct

  pub free-step :
      (w : World) (h : ℕ)
      → Live w h
      → state_free interior (some h) w
        ≡ ok tt (freed h (record w { registry = remove_node h w.registry }))
  unfolding state_free registry_remove
  free-step w h l = dispose-step h (record w { registry = remove_node h w.registry }) l

  pub free-IsValid :
      (w : World) (h : ℕ)
      → IsValid w
      → IsValid (freed h (record w { registry = remove_node h w.registry }))
  free-IsValid w h v =
      let (gone, d) = remove_node-Lacks h w.registry v.distinct in
      record {
        live =
            All-Live-freed (record w { registry = remove_node h w.registry }) h
              (remove_node h w.registry) gone (All-remove_node (Live w) h w.registry v.live);
        distinct = d;
      }
