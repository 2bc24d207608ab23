-- ===== src/ArgumentParser/Options.antt =====
-- About `kap_option_name` and `kap_inline_value` of argument_parser.c.
use kira_zig.Common.{
  ℕ, zero, suc, ◌+◌, ◌≡◌, ◌≢◌, refl, sym, append-nil, ap, Bool, true, false, Option, none, some, [],
  ◌∷◌, ◌++◌, arith, if◌then◌else◌, Option-cases, inl, inr, Bytes, length, take, drop, take_all, All,
  ◌⊎◌,
}
use mathlib.Core.Path.{subst}
use native.Mathlib.Decide.{ℕ_discrete}
use kira_zig.ArgumentParser.{
  equals, dash, find_char, has_inline_value, skip_dashes, copy_range, option_name, inline_value,
}

abbrev pub Lacks : ℕ → Bytes → Type 0
Lacks b = All (λ c. c ≢ b)

-- Where `strchr` finds a byte: before it there is none, and it stands there.
abbrev Found : ℕ → Bytes → Option ℕ → Type 0
Found c t none = Lacks c t
Found c t (some i) = Lacks c (take i t) × (t ≡ take i t ++ c ∷ drop (suc i) t)

Found-cons :
    (b c : ℕ) (t : Bytes)
    → b ≢ c
    → (o : Option ℕ) → Found c t o
    → Found c (b ∷ t) (elim o [ none ↦ none | some i ↦ some (suc i) ])
Found-cons b c t ne none l = (ne, l)
Found-cons b c t ne (some i) (l, e) = ((ne, l), ap (λ r. b ∷ r) e)

find_char-cons_ne :
    (b c : ℕ) (t : Bytes)
    → b ≢ c
    → find_char (b ∷ t) c ≡ elim (find_char t c) [ none ↦ none | some i ↦ some (suc i) ]
unfolding find_char
find_char-cons_ne b c t ne = ground arith

find_char-cons_self : (b c : ℕ) (t : Bytes) → b ≡ c → find_char (b ∷ t) c ≡ some 0
unfolding find_char
find_char-cons_self b c t e = ground arith

find_char-Found : (t : Bytes) (c : ℕ) → Found c t (find_char t c)
find_char-Found [] c = unfold find_char in tt
find_char-Found (b ∷ t) c = elim (ℕ_discrete b c) [
  | yes e ↦ rw (find_char-cons_self b c t e) (tt, ground arith)
  | no ne ↦
      rw (find_char-cons_ne b c t ne) (Found-cons b c t ne (find_char t c) (find_char-Found t c))
]

-- The start of the name.
take-drop : (n : ℕ) (t : Bytes) → take n t ++ drop n t ≡ t
take-drop zero t = refl
take-drop (suc n) [] = refl
take-drop (suc n) (x ∷ t) = ap (λ r. x ∷ r) (take-drop n t)

-- The bytes that `kap_option_name` skips hold no `=`.
find_char-drop :
    (n : ℕ) (t : Bytes)
    → All (λ c. c ≡ dash) (take n t)
    → find_char t equals
      ≡ elim (find_char (drop n t) equals) [ none ↦ none | some i ↦ some (n + i) ]
find_char-drop zero t h = elim (Option-cases (find_char t equals)) [
  | inl e ↦ rw e
  | inr (i, e) ↦ rw e (ground arith)
]
find_char-drop (suc n) [] h = unfold find_char in refl
find_char-drop (suc n) (x ∷ t) (hx, h) =
    rw (find_char-cons_ne x equals t (ground arith), find_char-drop n t h) (ground arith)

skip_dashes-dash : (t : Bytes) → All (λ c. c ≡ dash) (take (skip_dashes t) t)
unfolding skip_dashes
skip_dashes-dash [] = tt
skip_dashes-dash (a ∷ []) = ground arith
skip_dashes-dash (a ∷ b ∷ t) = ground arith

-- What stands in front of a name: two dashes, or one dash or none where no dash follows.
abbrev pub Prefixed : (dashes rest : Bytes) → Type 0
Prefixed dashes rest =
    (dashes ≡ dash ∷ dash ∷ [])
    ⊎ (((dashes ≡ dash ∷ []) ⊎ (dashes ≡ [])) × ((r : Bytes) → rest ≢ dash ∷ r))

one_dash : (a : ℕ) (t : Bytes) → a ≡ dash → ((r : Bytes) → t ≢ dash ∷ r) → skip_dashes (a ∷ t) ≡ 1
unfolding skip_dashes
one_dash a [] e ne = ground arith
one_dash a (b ∷ t) e ne = elim (ℕ_discrete b dash) [
  | yes e' ↦ absurd (ne t (ap (λ b. b ∷ t) e'))
  | no other ↦ ground arith
]

no_dash : (a : ℕ) (t : Bytes) → a ≢ dash → skip_dashes (a ∷ t) ≡ 0
unfolding skip_dashes
no_dash a t ne = ground arith

two_dashes : (a b : ℕ) (t : Bytes) → a ≡ dash → b ≡ dash → skip_dashes (a ∷ b ∷ t) ≡ 2
unfolding skip_dashes
two_dashes a b t e e' = ground arith

head_ne : (a : ℕ) (t r : Bytes) → a ≢ dash → a ∷ t ≢ dash ∷ r
head_ne a t r ne e = ne (let same : a ≡ dash = cc in same)

after_dash :
    (a : ℕ) (t : Bytes)
    → a ≡ dash
    → Prefixed (take (skip_dashes (a ∷ t)) (a ∷ t)) (drop (skip_dashes (a ∷ t)) (a ∷ t))
after_dash a [] e = rw (one_dash a [] e (λ r e. cc)) (inr (inl (ap (λ a. a ∷ []) e), λ r e. cc))
after_dash a (b ∷ t) e = elim (ℕ_discrete b dash) [
  | yes e' ↦ rw (two_dashes a b t e e') (inl (λ i. e i ∷ e' i ∷ []))
  | no ne ↦
      rw (one_dash a (b ∷ t) e (λ r. head_ne b t r ne))
        (inr (inl (ap (λ a. a ∷ []) e), λ r. head_ne b t r ne))
]

skip_dashes-Prefixed : (t : Bytes) → Prefixed (take (skip_dashes t) t) (drop (skip_dashes t) t)
unfolding skip_dashes
skip_dashes-Prefixed [] = inr (inr refl, λ r e. cc)
skip_dashes-Prefixed (a ∷ t) = elim (ℕ_discrete a dash) [
  | no ne ↦ rw (no_dash a t ne) (inr (inr refl, λ r. head_ne a t r ne))
  | yes e ↦ after_dash a t e
]

drop-drop : (n i : ℕ) (t : Bytes) → drop (n + i + 1) t ≡ drop (suc i) (drop n t)
drop-drop zero i t = let e : 0 + i + 1 ≡ suc i = omega arith in rw e
drop-drop (suc n) i [] = let e : suc n + i + 1 ≡ suc (n + i + 1) = omega arith in rw e
drop-drop (suc n) i (x ∷ t) =
    let e : suc n + i + 1 ≡ suc (n + i + 1) = omega arith in rw e (drop-drop n i t)

-- A token taken apart into what `kap_option_name` skips, the name, and the value.
abbrev pub Parts : (ℕ → Bool) → Bytes → Type 0
Parts grant t =
    (dashes : Bytes) × (name : Bytes) × (value : Bytes) × (option_name grant (some t) ≡ some name)
    × (inline_value grant (some t) ≡ some value)
    × Lacks equals name
    × Prefixed dashes (name ++ (if has_inline_value (some t) then equals ∷ value else []))
    × (t ≡ dashes ++ (name ++ (if has_inline_value (some t) then equals ∷ value else [])))
    × (has_inline_value (some t) ≡ false → value ≡ [])

module _ (grant : ℕ → Bool) (granted : (n : ℕ) → grant n ≡ true) where
  copy_range_granted : (t : Bytes) (n : ℕ) → copy_range grant t n ≡ some (take n t)
  unfolding copy_range
  copy_range_granted t n = rw (granted (n + 1))

  -- What the two functions give at a token that `strchr` reads as `o`.
  option_name_at :
      (t : Bytes) (o : Option ℕ)
      → find_char (drop (skip_dashes t) t) equals ≡ o
      → option_name grant (some t)
        ≡ some (elim o [ none ↦ drop (skip_dashes t) t | some i ↦ take i (drop (skip_dashes t) t) ])
  unfolding option_name
  option_name_at t none e = rw (e, copy_range_granted, take_all)
  option_name_at t (some i) e = rw (e, copy_range_granted)

  inline_value_at :
      (t : Bytes) (o : Option ℕ)
      → find_char t equals ≡ o
      → inline_value grant (some t) ≡ some (elim o [ none ↦ [] | some i ↦ drop (i + 1) t ])
  unfolding inline_value
  inline_value_at t none e = rw (e, inline_value) (copy_range_granted [] 0)
  inline_value_at t (some i) e = rw (e, inline_value, copy_range_granted, take_all)

  has_inline_value_at :
      (t : Bytes) (o : Option ℕ)
      → find_char t equals ≡ o
      → has_inline_value (some t) ≡ elim o [ none ↦ false | some _ ↦ true ]
  unfolding has_inline_value
  has_inline_value_at t o e = rw (e, has_inline_value)

  -- The same at the outcome of `strchr`.
  Parts-at :
      (t : Bytes) (o : Option ℕ) → find_char (drop (skip_dashes t) t) equals ≡ o → Parts grant t
  Parts-at t none e =
      let whole : find_char t equals ≡ none =
        rw (find_char-drop (skip_dashes t) t (skip_dashes-dash t), e) in
      (
        take (skip_dashes t) t,
        drop (skip_dashes t) t,
        [],
        option_name_at t none e,
        inline_value_at t none whole,
        subst (Found equals (drop (skip_dashes t) t)) e (find_char-Found _ equals),
        rw (has_inline_value_at t none whole, append-nil) (skip_dashes-Prefixed t),
        rw (has_inline_value_at t none whole, append-nil) (sym (take-drop (skip_dashes t) t)),
        λ _. refl,
      )
  Parts-at t (some i) e =
      let whole : find_char t equals ≡ some (skip_dashes t + i) =
        rw (find_char-drop (skip_dashes t) t (skip_dashes-dash t), e) in
      let found = subst (Found equals (drop (skip_dashes t) t)) e (find_char-Found _ equals) in
      (
        take (skip_dashes t) t,
        take i (drop (skip_dashes t) t),
        drop (skip_dashes t + i + 1) t,
        option_name_at t (some i) e,
        inline_value_at t (some (skip_dashes t + i)) whole,
        found.0,
        rw (has_inline_value_at t _ whole, drop-drop, ← found.1) (skip_dashes-Prefixed t),
        rw (has_inline_value_at t _ whole, drop-drop, ← found.1)
            (sym (take-drop (skip_dashes t) t)),
        λ no_value. cc (has_inline_value_at t _ whole),
      )

  -- An option token taken apart. If every allocation succeeds, `kap_option_name` and
  -- `kap_inline_value` return two strings; the name holds no `=`; the token is some dashes, the name
  -- and, exactly when `kap_has_inline_value` says so, an `=` and the value; the dashes are two where
  -- the token starts with two, and otherwise the one or none that it starts with; and without an
  -- inline value the value is empty.
  pub option_name-inline_value : (t : Bytes) → Parts grant t
  option_name-inline_value t = Parts-at t (find_char (drop (skip_dashes t) t) equals) refl

find_char-append : (c : ℕ) (s t : Bytes) → Lacks c s → find_char (s ++ c ∷ t) c ≡ some (length s)
find_char-append c [] t l = find_char-cons_self c c t refl
find_char-append c (x ∷ s) t (ne, l) =
    rw (find_char-cons_ne x c (s ++ c ∷ t) ne, find_char-append c s t l)

take-append : (s t : Bytes) → take (length s) (s ++ t) ≡ s
take-append [] t = refl
take-append (x ∷ s) t = ap (λ r. x ∷ r) (take-append s t)

drop-append : (s t : Bytes) → drop (length s) (s ++ t) ≡ t
drop-append [] t = refl
drop-append (x ∷ s) t = drop-append s t

drop-append_suc : (s t : Bytes) (c : ℕ) → drop (suc (length s)) (s ++ c ∷ t) ≡ t
drop-append_suc [] t c = refl
drop-append_suc (x ∷ s) t c = drop-append_suc s t c

-- A long option written as `--name=value` is read back: if every allocation succeeds and the name
-- holds no `=`, `kap_option_name` returns the name and `kap_inline_value` the value.
long_option-round_trip :
    (grant : ℕ → Bool) (name value : Bytes)
    → ((n : ℕ) → grant n ≡ true)
    → Lacks equals name
    → let token = some (dash ∷ dash ∷ (name ++ equals ∷ value)) in
      (option_name grant token ≡ some name)
      × (inline_value grant token ≡ some value)
      × (has_inline_value token ≡ true)
unfolding skip_dashes
long_option-round_trip grant name value granted l =
    let whole : Bytes = dash ∷ dash ∷ (name ++ equals ∷ value) in
    let at : find_char (name ++ equals ∷ value) equals ≡ some (length name) =
      find_char-append equals name value l in
    let at_whole : find_char whole equals ≡ some (2 + length name) =
      rw (find_char-drop 2 whole (refl, (refl, tt)), at) in
    (
      rw (option_name_at grant granted whole _ at, take-append),
      rw (inline_value_at grant granted whole _ at_whole, drop-drop 2, drop-append_suc),
      rw (has_inline_value_at grant granted whole _ at_whole),
    )
