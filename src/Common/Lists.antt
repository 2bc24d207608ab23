-- ===== src/Common/Lists.antt =====
-- Lists measured and indexed by native numbers, under the library's names.
use Prim.Native.Nat.{ℕ, zero, suc, ◌+◌, ◌-◌, ◌≤◌, ◌<◌, min}
use mathlib.Core.Path.{◌≡◌, refl, sym, ap, ◌∙◌, subst}
use mathlib.Core.Logic.{◌≢◌}
use mathlib.Core.List.{List, [], ◌∷◌, ◌++◌}
use mathlib.Core.Option.{Option, none, some, some-injective}
use native.Mathlib.Omega.{arith}

module _ {ℓ} {A : Type ℓ} where
  abbrev pub length : List A → ℕ
  length [] = 0
  length (x ∷ xs) = suc (length xs)

  abbrev pub get_elem? : List A → ℕ → Option A
  get_elem? [] i = none
  get_elem? (x ∷ xs) zero = some x
  get_elem? (x ∷ xs) (suc i) = get_elem? xs i

  abbrev pub get_or : List A → ℕ → A → A
  get_or [] i d = d
  get_or (x ∷ xs) zero d = x
  get_or (x ∷ xs) (suc i) d = get_or xs i d

  -- A write out of bounds changes nothing.
  abbrev pub set : List A → ℕ → A → List A
  set [] i v = []
  set (x ∷ xs) zero v = v ∷ xs
  set (x ∷ xs) (suc i) v = x ∷ set xs i v

  abbrev pub take : ℕ → List A → List A
  take zero xs = []
  take (suc n) [] = []
  take (suc n) (x ∷ xs) = x ∷ take n xs

  abbrev pub drop : ℕ → List A → List A
  drop zero xs = xs
  drop (suc n) [] = []
  drop (suc n) (x ∷ xs) = drop n xs

  abbrev pub replicate : ℕ → A → List A
  replicate zero a = []
  replicate (suc n) a = a ∷ replicate n a

  abbrev pub All {κ} : (A → Type κ) → List A → Type κ
  All P [] = Unit
  All P (x ∷ xs) = P x × All P xs

-- Of positions: `h` is not among them; none stands twice.
abbrev pub Lacks : ℕ → List ℕ → Type 0
Lacks h = All (λ k. k ≢ h)

abbrev pub Distinct : List ℕ → Type 0
Distinct [] = Unit
Distinct (h ∷ q) = Lacks h q × Distinct q

module _ {ℓ} {A : Type ℓ} where
  pub length-append : (xs ys : List A) → length (xs ++ ys) ≡ length xs + length ys
  length-append [] ys = omega arith
  length-append (x ∷ xs) ys = omega (arith, length-append xs ys)

  pub length-set : (xs : List A) (i : ℕ) (v : A) → length (set xs i v) ≡ length xs
  length-set [] i v = refl
  length-set (x ∷ xs) zero v = refl
  length-set (x ∷ xs) (suc i) v = ap suc (length-set xs i v)

  pub get_elem?-set_self :
      (xs : List A) (i : ℕ) (v : A) → i < length xs → get_elem? (set xs i v) i ≡ some v
  get_elem?-set_self [] i v h = elim h [ ]
  get_elem?-set_self (x ∷ xs) zero v h = refl
  get_elem?-set_self (x ∷ xs) (suc i) v h = get_elem?-set_self xs i v (omega arith)

  pub get_elem?-set_ne :
      (xs : List A) {i j : ℕ} (v : A) → i ≢ j → get_elem? (set xs i v) j ≡ get_elem? xs j
  get_elem?-set_ne [] v h = refl
  get_elem?-set_ne (x ∷ xs) {i = zero} {j = zero} v h = absurd (h refl)
  get_elem?-set_ne (x ∷ xs) {i = zero} {j = suc j} v h = refl
  get_elem?-set_ne (x ∷ xs) {i = suc i} {j = zero} v h = refl
  get_elem?-set_ne (x ∷ xs) {i = suc i} {j = suc j} v h = get_elem?-set_ne xs v (λ e. h (ap suc e))

  pub length-replicate : (n : ℕ) (x : A) → length (replicate n x) ≡ n
  length-replicate zero x = refl
  length-replicate (suc n) x = ap suc (length-replicate n x)

  pub length-take : (n : ℕ) (xs : List A) → length (take n xs) ≡ min n (length xs)
  length-take zero xs = omega arith
  length-take (suc n) [] = omega arith
  length-take (suc n) (x ∷ xs) = omega (arith, length-take n xs)

  pub length-drop : (n : ℕ) (xs : List A) → length (drop n xs) ≡ length xs - n
  length-drop zero xs = omega arith
  length-drop (suc n) [] = omega arith
  length-drop (suc n) (x ∷ xs) = omega (arith, length-drop n xs)

  pub take_all : (xs : List A) → take (length xs) xs ≡ xs
  take_all [] = refl
  take_all (x ∷ xs) = ap (λ t. x ∷ t) (take_all xs)

  -- A position below the length holds an element.
  pub get_elem?-some : (xs : List A) (i : ℕ) → i < length xs → (x : A) × (get_elem? xs i ≡ some x)
  get_elem?-some [] i h = elim h [ ]
  get_elem?-some (x ∷ xs) zero h = (x, refl)
  get_elem?-some (x ∷ xs) (suc i) h = get_elem?-some xs i (omega arith)

module _ {ℓ} {A : Type ℓ} where
  pub get_elem?-lt : (xs : List A) (i : ℕ) {x : A} → get_elem? xs i ≡ some x → i < length xs
  get_elem?-lt [] i e = cc
  get_elem?-lt (x ∷ xs) zero e = omega arith
  get_elem?-lt (x ∷ xs) (suc i) e = omega (arith, get_elem?-lt xs i e)

module _ {ℓ κ} {A : Type ℓ} (P : A → Type κ) where
  pub All-get : (xs : List A) (i : ℕ) {x : A} → All P xs → get_elem? xs i ≡ some x → P x
  All-get [] i all e = cc
  All-get (x ∷ xs) zero (p, all) e = subst P (some-injective _ _ e) p
  All-get (x ∷ xs) (suc i) (p, all) e = All-get xs i all e

  pub All-set : (xs : List A) (i : ℕ) {x : A} → All P xs → P x → All P (set xs i x)
  All-set [] i all p = all
  All-set (y ∷ xs) zero (q, all) p = (p, all)
  All-set (y ∷ xs) (suc i) (q, all) p = (q, All-set xs i all p)

  pub All-concat : (xs : List A) {x : A} → All P xs → P x → All P (xs ++ x ∷ [])
  All-concat [] all p = (p, tt)
  All-concat (y ∷ xs) (q, all) p = (q, All-concat xs all p)

module _ {ℓ κ κ'} {A : Type ℓ} {P : A → Type κ} {Q : A → Type κ'} where
  pub All-map : (xs : List A) → ((x : A) → P x → Q x) → All P xs → All Q xs
  All-map [] f all = tt
  All-map (x ∷ xs) f (p, all) = (f x p, All-map xs f all)

module _ {ℓ} {A : Type ℓ} where
  pub get_elem?-append :
      (xs : List A) (i : ℕ) {x : A} (ys : List A)
      → get_elem? xs i ≡ some x
      → get_elem? (xs ++ ys) i ≡ some x
  get_elem?-append [] i ys e = cc
  get_elem?-append (x ∷ xs) zero ys e = e
  get_elem?-append (x ∷ xs) (suc i) ys e = get_elem?-append xs i ys e

-- What is taken, and what is left.
module _ {ℓ} {A : Type ℓ} where
  pub take_past : (n : ℕ) (xs ys : List A) → length xs ≡ n → take n (xs ++ ys) ≡ xs
  take_past zero [] ys e = refl
  take_past zero (x ∷ xs) ys e = absurd (omega (arith, e))
  take_past (suc n) [] ys e = absurd (omega (arith, e))
  take_past (suc n) (x ∷ xs) ys e = ap (λ t. x ∷ t) (take_past n xs ys (omega (arith, e)))

  pub take_short : (n : ℕ) (xs : List A) → length xs ≤ n → take n xs ≡ xs
  take_short zero [] le = refl
  take_short zero (x ∷ xs) le = elim le [ ]
  take_short (suc n) [] le = refl
  take_short (suc n) (x ∷ xs) le = ap (λ t. x ∷ t) (take_short n xs (omega arith))

  pub drop_past : (n : ℕ) (xs ys : List A) → length xs ≡ n → drop n (xs ++ ys) ≡ ys
  drop_past zero [] ys e = refl
  drop_past zero (x ∷ xs) ys e = absurd (omega (arith, e))
  drop_past (suc n) [] ys e = absurd (omega (arith, e))
  drop_past (suc n) (x ∷ xs) ys e = drop_past n xs ys (omega (arith, e))

  pub drop_nil : (n : ℕ) → drop {A = A} n [] ≡ []
  drop_nil zero = refl
  drop_nil (suc n) = refl

  pub take_nil : (n : ℕ) → take {A = A} n [] ≡ []
  take_nil zero = refl
  take_nil (suc n) = refl

  pub drop-drop : (m n : ℕ) (xs : List A) → drop (m + n) xs ≡ drop n (drop m xs)
  drop-drop zero n xs = ap (λ k. drop k xs) (omega arith)
  drop-drop (suc m) n [] =
      let e : suc m + n ≡ suc (m + n) = omega arith in ap (λ k. drop k []) e ∙ sym (drop_nil n)
  drop-drop (suc m) n (x ∷ xs) =
      let e : suc m + n ≡ suc (m + n) = omega arith in
      ap (λ k. drop k (x ∷ xs)) e ∙ drop-drop m n xs

  pub take_add : (m n : ℕ) (xs : List A) → take (m + n) xs ≡ take m xs ++ take n (drop m xs)
  take_add zero n xs = ap (λ k. take k xs) (omega arith)
  take_add (suc m) n [] =
      let e : suc m + n ≡ suc (m + n) = omega arith in ap (λ k. take k []) e ∙ sym (take_nil n)
  take_add (suc m) n (x ∷ xs) =
      let e : suc m + n ≡ suc (m + n) = omega arith in
      ap (λ k. take k (x ∷ xs)) e ∙ ap (λ t. x ∷ t) (take_add m n xs)

  pub take-take : (m n : ℕ) (xs : List A) → m ≤ n → take m (take n xs) ≡ take m xs
  take-take zero n xs le = refl
  take-take (suc m) zero xs le = absurd (omega arith)
  take-take (suc m) (suc n) [] le = refl
  take-take (suc m) (suc n) (x ∷ xs) le = ap (λ t. x ∷ t) (take-take m n xs (omega arith))
