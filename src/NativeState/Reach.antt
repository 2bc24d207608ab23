-- ===== src/NativeState/Reach.antt =====
-- Programs over the native state of runtime_helpers_native_state.inc: sequences of allocations and
-- frees, then the teardown at exit.
use mathlib.Core.Path.{subst}
use kira_zig.Common.{
  ℕ, ◌<◌, ◌≡◌, refl, sym, ap, ◌∙◌, ℤ, pos, negsuc, Bool, true, false, not, ◌&&◌, Option, none, some,
  List, [], ◌∷◌, ◌++◌, ◌==◌, if◌then◌else◌, arith, length, get_elem?, get_elem?-append,
  get_elem?-lt, All-map, All, Lacks, Bool-cases, inl, inr, ◌⊎◌,
}
use kira_zig.NativeState.{
  Token, World, ok, trap, M, and_then, Grants, live_or_fault, payload_of, registry_add, with_token,
  state_alloc, state_free, registry_teardown, recover,
}
use kira_zig.NativeState.Safety.{
  Live, Freed, IsValid, IsQuiet, teardown-Disposes, free-step, free-IsValid,
}

-- The token that an allocation appends.
abbrev pub fresh_token : ℕ → ℕ → Token
fresh_token type_id n = record { type_id = type_id; payload = payload_of n }

-- The world after an allocation whose registry node was granted or not.
abbrev pub added : Bool → ℕ → ℕ → World → World
added true ty n w = record (with_token (fresh_token ty n) w) {
  registry = length w.tokens ∷ w.registry;
}
added false ty n w = with_token (fresh_token ty n) w

-- An allocation gives NULL and changes nothing, or a new token.
pub alloc-cases :
    (g : Grants) (ty : ℕ) (size : ℤ) (w : World)
    → (state_alloc g ty size w ≡ ok none w)
      ⊎ ((n : ℕ) × (state_alloc g ty size w ≡ ok (some (length w.tokens)) (added g.node ty n w))
          × (size ≡ pos n))
unfolding state_alloc registry_add
alloc-cases g ty (negsuc _) w = inl refl
alloc-cases g ty (pos n) w = elim (Bool-cases g.state) [
  | inl got ↦ elim (Bool-cases (not (n == 0) && not g.payload)) [
    | inl short ↦ inl (rw (got, short) refl)
    | inr enough ↦ inr (n, rw (got, enough) (registered g.node), refl)
  ]
  | inr refused ↦ inl (rw refused refl)
]
  where
    registered :
        (b : Bool)
        → and_then
            (registry_add b (length w.tokens) (with_token (fresh_token ty n) w))
            (λ _ w'. ok (some (length w.tokens)) w')
          ≡ ok (some (length w.tokens)) (added b ty n w)
    registered true = refl
    registered false = refl

get_elem?-last {ℓ} :
    {A : Type ℓ} (xs : List A) (x : A) → get_elem? (xs ++ x ∷ []) (length xs) ≡ some x
get_elem?-last [] x = refl
get_elem?-last (y ∷ xs) x = get_elem?-last xs x

Live-with_token : (w : World) (t : Token) (h : ℕ) → Live w h → Live (with_token t w) h
Live-with_token w t h (t', found) = (t', get_elem?-append w.tokens h (some t ∷ []) found)

Live-lt : (w : World) (h : ℕ) → Live w h → h < length w.tokens
Live-lt w h (t, found) = get_elem?-lt w.tokens h found

added-IsValid : (b : Bool) (ty n : ℕ) (w : World) → IsValid w → IsValid (added b ty n w)
added-IsValid true ty n w v = record {
  live = (
    (fresh_token ty n, get_elem?-last w.tokens (some (fresh_token ty n))),
    All-map w.registry (λ h l. Live-with_token w (fresh_token ty n) h l) v.live,
  );
  distinct =
      (All-map w.registry (λ h l. let lt = Live-lt w h l in omega (arith, lt)) v.live, v.distinct);
}
added-IsValid false ty n w v = record {
  live = All-map w.registry (λ h l. Live-with_token w (fresh_token ty n) h l) v.live;
  distinct = v.distinct;
}

-- The worlds between the calls of a program that frees only live tokens.
pub data Reach (interior : Option (ℕ → M (Unit {0}))) : World → Type 0 where
  start : Reach interior (record { tokens = []; registry = [] })
  alloc :
      {w w' : World} {o : Option ℕ}
      → Reach interior w
      → (g : Grants) (ty : ℕ) (size : ℤ) → state_alloc g ty size w ≡ ok o w'
      → Reach interior w'
  free :
      {w w' : World}
      → Reach interior w
      → (h : ℕ) → Live w h
      → state_free interior (some h) w ≡ ok tt w'
      → Reach interior w'

ok-world : {A : Type 0} {a b : A} {w w' : World} → ok a w ≡ ok b w' → w ≡ w'
ok-world e = cc

Reach-Valid :
    (interior : Option (ℕ → M (Unit {0})))
    → IsQuiet interior
    → {w : World} → Reach interior w
    → IsValid w
Reach-Valid interior quiet start = record { live = tt; distinct = tt }
Reach-Valid interior quiet (alloc {w} {w'} {o} reach g ty size ran) =
    let v = Reach-Valid interior quiet reach in
    elim (alloc-cases g ty size w) [
      | inl null ↦ subst IsValid (ok-world (sym null ∙ ran)) v
      | inr (n, new, _) ↦ subst IsValid (ok-world (sym new ∙ ran)) (added-IsValid g.node ty n w v)
    ]
Reach-Valid interior quiet (free {w} {w'} reach h l ran) =
    let v = Reach-Valid interior quiet reach in
    subst IsValid (ok-world (sym (free-step interior quiet w h l) ∙ ran))
      (free-IsValid interior quiet w h v)

-- After any sequence of allocations and of frees of live tokens the teardown at exit never faults,
-- so it frees nothing twice: it empties the registry, frees every token in it, and leaves the other
-- tokens as they are. The release hook, if one is installed, leaves tokens and registry alone.
pub teardown-Reach :
    (interior : Option (ℕ → M (Unit {0}))) (w : World)
    → IsQuiet interior
    → Reach interior w
    → (w' : World) × (registry_teardown interior w ≡ ok tt w')
      × (w'.registry ≡ [])
      × All (Freed w') w.registry
      × ((k : ℕ) → Lacks k w.registry → get_elem? w'.tokens k ≡ get_elem? w.tokens k)
teardown-Reach interior w quiet reach =
    let (w', ran, (empty, gone, others)) =
      teardown-Disposes interior quiet w (Reach-Valid interior quiet reach) in
    (w', ran, empty, gone, others)

recover-step :
    (h expected : ℕ) (w : World) (t : Token)
    → get_elem? w.tokens h ≡ some (some t)
    → recover (some h) expected w ≡ (if t.type_id == expected then ok t.payload w else trap)
unfolding recover
recover-step h expected w t found =
    ap
      (λ o.
        and_then (live_or_fault o w) λ t w. if t.type_id == expected then ok t.payload w else trap)
      found

added-last :
    (b : Bool) (ty n : ℕ) (w : World)
    → get_elem? (World.tokens (added b ty n w)) (length w.tokens) ≡ some (some (fresh_token ty n))
added-last true ty n w = get_elem?-last w.tokens (some (fresh_token ty n))
added-last false ty n w = get_elem?-last w.tokens (some (fresh_token ty n))

-- The new token after an allocation that returned `h`.
found_at :
    (b : Bool) (ty n h : ℕ) (w w' : World)
    → ok (some (length w.tokens)) (added b ty n w) ≡ ok (some h) w'
    → get_elem? w'.tokens h ≡ some (some (fresh_token ty n))
found_at b ty n h w w' e =
    let same : length w.tokens ≡ h = cc in
    subst (λ w'. get_elem? w'.tokens h ≡ some (some (fresh_token ty n))) (ok-world e)
      (subst (λ k. get_elem? (World.tokens (added b ty n w)) k ≡ some (some (fresh_token ty n)))
        same (added-last b ty n w))

-- What a recovery of `h` by a type returns: the payload if the type is that of the allocation, and a
-- trap for any other.
pub alloc-recover :
    (g : Grants) (ty : ℕ) (size : ℤ) (w w' : World) (h expected : ℕ)
    → state_alloc g ty size w ≡ ok (some h) w'
    → (n : ℕ) × (size ≡ pos n)
      × (recover (some h) expected w' ≡ (if ty == expected then ok (payload_of n) w' else trap))
alloc-recover g ty size w w' h expected ran = elim (alloc-cases g ty size w) [
  | inl null ↦ cc (null, ran)
  | inr (n, new, sized) ↦ (
    n,
    sized,
    recover-step h expected w' (fresh_token ty n) (found_at g.node ty n h w w' (sym new ∙ ran)),
  )
]
